-- ===== src/Storage/ReplicatedFs/Chunks.antt =====
-- The chunk loops of WriteFile and ReadFile (src/storage/replicated_fs.go).
use mathlib.Core.List.{append-nil, append_assoc}
use web5_mesh.Base.{
  ℕ, zero, suc, ◌+◌, ◌<◌, ◌≤◌, ◌≡◌, refl, sym, ap, ◌∙◌, inl, inr, Option, some, List, [], ◌∷◌, ◌++◌,
  map, arith, length, take, drop, All, take-append-drop, length-take, length-drop, option_intro,
  Bool-cases,
}
use web5_mesh.Base.Classes.{Text, Text_eq, text_eq, text_eq_iff}
use web5_mesh.Base.Map.{lookup, insert, lookup-insert, lookup-insert_self}
use web5_mesh.Storage.Persistence.{Badger, StoreError}
use web5_mesh.Storage.ReplicatedFs.{
  Chunk, FsError, Outcome, done, failed, chunk_not_persisted, panicked, unfinished, ReplicatedFs,
}
use web5_mesh.Storage.ReplicatedFs.Files.{
  read_chunks, chunk_id, make_chunk, persist_chunk, write_chunks,
}

-- The data cut into pieces of a size, the last one shorter, in at most `fuel` pieces.
unfoldable pub pieces : ℕ → ℕ → Text → List Text
pieces fuel size [] = []
pieces zero size (c ∷ rest) = []
pieces (suc fuel) size (c ∷ rest) = take size (c ∷ rest) ∷ pieces fuel size (drop size (c ∷ rest))

abbrev pub concat : List Text → Text
concat [] = []
concat (p ∷ ps) = p ++ concat ps

pub concat-pieces :
    (fuel size : ℕ) (content : Text)
    → 0 < size
    → length content ≤ fuel
    → concat (pieces fuel size content) ≡ content
unfolding pieces
concat-pieces fuel size [] s h = refl
concat-pieces zero size (c ∷ rest) s h = absurd (omega arith)
concat-pieces (suc fuel) size (c ∷ rest) s h =
    let smaller = length-drop size (c ∷ rest) in
    rw (concat-pieces fuel size (drop size (c ∷ rest)) s (omega arith))
      (take-append-drop size (c ∷ rest))

pub pieces-sizes :
    (fuel size : ℕ) (content : Text)
    → 0 < size
    → All (λ p. (0 < length p) × (length p ≤ size)) (pieces fuel size content)
unfolding pieces
pieces-sizes fuel size [] s = tt
pieces-sizes zero size (c ∷ rest) s = tt
pieces-sizes (suc fuel) size (c ∷ rest) s =
    let cut = length-take size (c ∷ rest) in
    ((omega arith, omega arith), pieces-sizes fuel size (drop size (c ∷ rest)) s)

-- How an outcome that is a result or an error looks.
abbrev pub Ends : {E A : Type 0} → Outcome E A → Type 0
Ends (done a) = Unit
Ends (failed e) = Unit
Ends panicked = ⊥
Ends unfinished = ⊥

-- What holds of a result and of an error holds of a case distinction on an outcome that ends.
pub outcome_intro {κ} :
    {E A C : Type 0} (P : C → Type κ) (o : Outcome E A) (f : A → C) (g : FsError E → C) (x y : C)
    → Ends o
    → ((a : A) → o ≡ done a → P (f a))
    → ((e : FsError E) → P (g e))
    → P (elim o [ done a ↦ f a | failed e ↦ g e | panicked ↦ x | unfinished ↦ y ])
outcome_intro P (done a) f g x y ends h k = h a refl
outcome_intro P (failed e) f g x y ends h k = k e
outcome_intro P panicked f g x y ends h k = absurd ends
outcome_intro P unfinished f g x y ends h k = absurd ends

module _ (B : Badger) (sha256 : Text → Text) (time_string : ℕ → Text) where
  abbrev pub name_of : Text → Text
  name_of = chunk_id sha256

  -- The chunk of these bytes is in the map, with these bytes.
  abbrev pub Holds : List (Text × Chunk) → Text → Type 0
  Holds chunks p = (c : Chunk) × (lookup (name_of p) chunks ≡ some c) × (c.content ≡ p)

  pub read_chunks-Holds :
      {E : Type 0} (chunks : List (Text × Chunk)) (ps : List Text) (before : Text)
      → All (Holds chunks) ps
      → read_chunks {E = E} chunks (map name_of ps) before ≡ done (before ++ concat ps)
  unfolding read_chunks
  read_chunks-Holds chunks [] before h = ap done (sym (append-nil before))
  read_chunks-Holds chunks (p ∷ ps) before ((c, found, same), h) =
      rw (found, read_chunks, same)
        (read_chunks-Holds chunks ps (before ++ p) h ∙ ap done (append_assoc before p (concat ps)))

  abbrev pub Written : Type 0
  Written = ReplicatedFs B × Outcome (Badger.Error B) (List Text)

  -- What a round does with its chunk.
  abbrev pub keep_chunk :
      ReplicatedFs B → Chunk → ReplicatedFs B × Option (StoreError (Badger.Error B))
  keep_chunk fs chunk =
      persist_chunk B (record fs { chunks = insert chunk.id chunk fs.chunks }) chunk

  abbrev pub first_chunk : (ℕ → ℕ) → ℕ → ReplicatedFs B → ℕ → Text → Chunk
  first_chunk clock round fs version content =
      make_chunk sha256 (take fs.chunk_size content) version (clock (6 + round))

  -- A round either goes on or ends the call with the error of the store.
  pub loop_step {κ} :
      (P : Written → Type κ) (fuel : ℕ) (clock : ℕ → ℕ) (round : ℕ) (fs : ReplicatedFs B)
      (version c : ℕ) (rest : Text) (ids : List Text)
      → let chunk = first_chunk clock round fs version (c ∷ rest) in
        P (
          write_chunks B sha256 time_string fuel clock
            (suc round)
            (keep_chunk fs chunk).0
            version
            (drop fs.chunk_size (c ∷ rest))
            (ids ++ chunk.id ∷ []))
        → ((e : StoreError (Badger.Error B))
            → P ((keep_chunk fs chunk).0, failed (chunk_not_persisted e)))
        → P (write_chunks B sha256 time_string (suc fuel) clock round fs version (c ∷ rest) ids)
  unfolding write_chunks
  loop_step P fuel clock round fs version c rest ids go stop =
      option_intro P (keep_chunk fs (first_chunk clock round fs version (c ∷ rest))).1 _ _ (λ _. go)
        (λ e _. stop e)

  -- The loop stops within its fuel, with a result or an error.
  pub write_chunks-Ends :
      (fuel : ℕ) (clock : ℕ → ℕ) (round : ℕ) (fs : ReplicatedFs B) (version : ℕ) (content : Text)
      (ids : List Text)
      → 0 < fs.chunk_size
      → length content ≤ fuel
      → Ends (write_chunks B sha256 time_string fuel clock round fs version content ids).1
  unfolding write_chunks persist_chunk
  write_chunks-Ends fuel clock round fs version [] ids s h = tt
  write_chunks-Ends zero clock round fs version (c ∷ rest) ids s h = absurd (omega arith)
  write_chunks-Ends (suc fuel) clock round fs version (c ∷ rest) ids s h =
      loop_step (λ r. Ends r.1) fuel clock round fs version c rest ids
        (write_chunks-Ends fuel clock (suc round) _ version _ _ s
          (omega (arith, length-drop fs.chunk_size (c ∷ rest))))
        (λ e. tt)

  -- The loop changes the chunks and the database alone, however it ends.
  pub write_chunks_frame :
      (fuel : ℕ) (clock : ℕ → ℕ) (round : ℕ) (fs : ReplicatedFs B) (version : ℕ) (content : Text)
      (ids : List Text)
      → let after = (write_chunks B sha256 time_string fuel clock round fs version content ids).0 in
        (after.files ≡ fs.files)
        × (after.path_index ≡ fs.path_index)
        × (after.chunk_size ≡ fs.chunk_size)
        × (after.crdt_store ≡ fs.crdt_store)
  unfolding write_chunks persist_chunk
  write_chunks_frame fuel clock round fs version [] ids = (refl, refl, refl, refl)
  write_chunks_frame zero clock round fs version (c ∷ rest) ids = (refl, refl, refl, refl)
  write_chunks_frame (suc fuel) clock round fs version (c ∷ rest) ids =
      loop_step
        (λ r.
          (r.0.files ≡ fs.files)
          × (r.0.path_index ≡ fs.path_index)
          × (r.0.chunk_size ≡ fs.chunk_size)
          × (r.0.crdt_store ≡ fs.crdt_store))
        fuel clock round fs version c rest ids
        (write_chunks_frame fuel clock (suc round) _ version _ _) (λ e. (refl, refl, refl, refl))

  module _ (Told : Text → Type 0)
      (tells : (a b : Text) → Told a → Told b → name_of a ≡ name_of b → a ≡ b) where
    Holds-insert :
        (chunks : List (Text × Chunk)) (p q : Text) (version now : ℕ)
        → Told p
        → Told q
        → Holds chunks q
        → Holds (insert (name_of p) (make_chunk sha256 p version now) chunks) q
    unfolding make_chunk
    Holds-insert chunks p q version now tp tq (c, found, same) =
        let after =
          lookup-insert (name_of p) (name_of q) (make_chunk sha256 p version now) chunks in
        elim (Bool-cases (text_eq (name_of p) (name_of q))) [
          | inl e ↦ (
            make_chunk sha256 p version now,
            rw e at after,
            tells p q tp tq ((text_eq_iff (name_of p) (name_of q)).0 e),
          )
          | inr e ↦ (c, (rw e at after) ∙ found, same)
        ]

    Holds-self :
        (chunks : List (Text × Chunk)) (p : Text) (version now : ℕ)
        → Holds (insert (name_of p) (make_chunk sha256 p version now) chunks) p
    unfolding make_chunk
    Holds-self chunks p version now = (
      make_chunk sha256 p version now,
      lookup-insert_self (name_of p) (make_chunk sha256 p version now) chunks,
      refl,
    )

    -- Bytes that are in the map stay there.
    pub write_chunks_keeps :
        (fuel : ℕ) (clock : ℕ → ℕ) (round : ℕ) (fs : ReplicatedFs B) (version : ℕ) (content : Text)
        (ids : List Text) (q : Text)
        → All Told (pieces fuel fs.chunk_size content)
        → Told q
        → Holds fs.chunks q
        → Holds
            (write_chunks B sha256 time_string fuel clock round fs version content ids).0.chunks
            q
    unfolding write_chunks persist_chunk pieces
    write_chunks_keeps fuel clock round fs version [] ids q t tq h = h
    write_chunks_keeps zero clock round fs version (c ∷ rest) ids q t tq h = h
    write_chunks_keeps (suc fuel) clock round fs version (c ∷ rest) ids q t tq h =
        let now : ℕ = clock (6 + round) in
        let kept = Holds-insert fs.chunks (take fs.chunk_size (c ∷ rest)) q version now t.0 tq h in
        loop_step (λ r. Holds r.0.chunks q) fuel clock round fs version c rest ids
          (write_chunks_keeps fuel clock (suc round) _ version _ _ q t.1 tq kept) (λ e. kept)

    -- After a run without an error every piece is in the map.
    pub write_chunks-Holds :
        (fuel : ℕ) (clock : ℕ → ℕ) (round : ℕ) (fs : ReplicatedFs B) (version : ℕ) (content : Text)
        (ids after : List Text)
        → All Told (pieces fuel fs.chunk_size content)
        → (write_chunks B sha256 time_string fuel clock round fs version content ids).1 ≡ done after
        → (after ≡ ids ++ map name_of (pieces fuel fs.chunk_size content))
          × All
              (Holds
                (write_chunks B sha256 time_string fuel clock round fs version content
                  ids).0.chunks)
              (pieces fuel fs.chunk_size content)
    unfolding write_chunks pieces persist_chunk
    write_chunks-Holds fuel clock round fs version [] ids after t h =
        (ground (arith, h, append-nil ids), tt)
    write_chunks-Holds zero clock round fs version (c ∷ rest) ids after t h = absurd (cc h)
    write_chunks-Holds (suc fuel) clock round fs version (c ∷ rest) ids after t h =
        let p = take fs.chunk_size (c ∷ rest) in
        let now : ℕ = clock (6 + round) in
        let ps = pieces fuel fs.chunk_size (drop fs.chunk_size (c ∷ rest)) in
        loop_step
          (λ r.
            r.1 ≡ done after
            → (after ≡ ids ++ map name_of (p ∷ ps)) × All (Holds r.0.chunks) (p ∷ ps))
          fuel clock round fs version c rest ids
          (λ g.
            let (named, held) =
              write_chunks-Holds fuel clock (suc round) _ version _ _ after t.1 g in
            (
              named ∙ append_assoc ids (name_of p ∷ []) (map name_of ps),
              (
                write_chunks_keeps fuel clock (suc round) _ version _ _ p t.1 t.0
                    (Holds-self fs.chunks p version now),
                held,
              ),
            ))
          (λ e g. cc) h
