-- ===== src/Storage/Persistence/Iteration.antt =====
-- Iterate of PersistenceStore (src/storage/persistence.go): it stops at the first key without the
-- prefix, and misses none by that.
use mathlib.Core.List.{append-nil, append_assoc}
use web5_mesh.Base.{
  ◌≡◌, inl, inr, refl, sym, ap, ◌∙◌, Bool, true, false, not, ◌&&◌, Option, none, some, List, [],
  ◌∷◌, ◌++◌, arith, ltb, if◌then◌else◌, length, Bool-cases, All, IsSorted,
}
use web5_mesh.Base.Classes.{Text, Text_eq, text_eq, text_eq_iff}
use web5_mesh.Base.Map.{lookup}
use web5_mesh.Base.Bytes.{before}
use web5_mesh.Storage.Persistence.{
  Badger, PersistenceStore, has_prefix, same_start, iterate_loop, iterate,
}
use web5_mesh.Storage.Persistence.Prefix.{has_prefix_block, has_prefix-before}
use web5_mesh.Storage.Persistence.Laws.{contents, Sum-cases}

-- The entries with a prefix.
unfoldable pub with_prefix : Text → List (Text × Text) → List (Text × Text)
with_prefix prefix [] = []
with_prefix prefix ((k, v) ∷ rest) =
    let more = with_prefix prefix rest in if has_prefix k prefix then (k, v) ∷ more else more

abbrev Ascending : List (Text × Text) → Type 0
Ascending = IsSorted (λ a b. before a.0 b.0 ≡ true)

-- A key after one without the prefix does not have it.
with_prefix-none :
    (prefix k : Text) (rest : List (Text × Text))
    → before k prefix ≡ false
    → has_prefix k prefix ≡ false
    → All (λ b. before k b.0 ≡ true) rest
    → with_prefix prefix rest ≡ []
unfolding with_prefix
with_prefix-none prefix k [] f h a = refl
with_prefix-none prefix k ((j, v) ∷ rest) f h a =
    ground (arith, has_prefix_block k j prefix, with_prefix-none prefix k rest f h a.1)

lookup-with_prefix :
    (prefix k : Text) (l : List (Text × Text))
    → lookup k (with_prefix prefix l) ≡ (if has_prefix k prefix then lookup k l else none)
unfolding with_prefix lookup
lookup-with_prefix prefix k [] = ground arith
lookup-with_prefix prefix k ((j, v) ∷ rest) = elim (Bool-cases (text_eq j k)) [
  | inl e ↦
      let same : j ≡ k = (text_eq_iff j k).0 e in
      let there : has_prefix j prefix ≡ has_prefix k prefix = ap (λ i. has_prefix i prefix) same in
      ground (arith, lookup-with_prefix prefix k rest, there)
  | inr e ↦ ground (arith, lookup-with_prefix prefix k rest)
]

prefix_long : (k prefix : Text) → has_prefix k prefix ≡ false → ltb 0 (length prefix) ≡ true
unfolding has_prefix same_start
prefix_long k [] h = ground (arith, h)
prefix_long k (p ∷ prefix) h = ground arith

with_prefix-All {κ} :
    (prefix : Text) (P : Text × Text → Type κ) (l : List (Text × Text))
    → All P l
    → All P (with_prefix prefix l)
unfolding with_prefix
with_prefix-All prefix P [] h = tt
with_prefix-All prefix P ((k, v) ∷ l) h = elim (Bool-cases (has_prefix k prefix)) [
  | inl e ↦ rw e (h.0, with_prefix-All prefix P l h.1)
  | inr e ↦ rw e (with_prefix-All prefix P l h.1)
]

module _ (B : Badger) where
  -- A callback that never stops the iteration, on a list of entries.
  unfoldable pub visit {ℓ} :
      {S : Type ℓ}
      → (S → Text → Option Text → S)
      → (Text → Option Text)
      → List (Text × Text)
      → S
      → S
  visit fn copy [] s = s
  visit fn copy ((k, v) ∷ rest) s = visit fn copy rest (fn s k (copy v))

  -- ValueCopy succeeds on every value.
  abbrev pub Copies : (Text → Option Text) → Type 0
  Copies copy = (v : Text) → B.value_copy v ≡ inr (copy v)

  loop_visits {ℓ} :
      {S : Type ℓ}
      → (prefix : Text) (fn : S → Text → Option Text → S) (copy : Text → Option Text)
        (l : List (Text × Text)) (s : S)
      → Copies copy
      → All (λ b. before b.0 prefix ≡ false) l
      → Ascending l
      → iterate_loop B prefix (λ s k v. (fn s k v, true)) l s
        ≡ (visit fn copy (with_prefix prefix l) s, none)
  unfolding iterate_loop with_prefix visit
  loop_visits prefix fn copy [] s c f a = refl
  loop_visits prefix fn copy ((k, v) ∷ l) s c f a = elim (Bool-cases (has_prefix k prefix)) [
    | inl e ↦ ground (arith, e, c v, loop_visits prefix fn copy l (fn s k (copy v)) c f.1 a.1)
    | inr e ↦
        let long : ltb 0 (length prefix) ≡ true = prefix_long k prefix e in
        let none_left = with_prefix-none prefix k l f.0 e a.0 in rw (long, e, none_left) refl
  ]

  -- The entries that the iteration of Iterate starts with.
  abbrev start : PersistenceStore B → Text → List (Text × Text)
  start st prefix = B.seek prefix (B.begin st.db)

  -- With a callback that goes on, Iterate on an open store visits the entries with the prefix.
  pub iterate_visits {ℓ} :
      {S : Type ℓ}
      → (st : PersistenceStore B) (prefix : Text) (fn : S → Text → Option Text → S)
        (copy : Text → Option Text) (s : S)
      → st.closed ≡ false
      → Copies copy
      → iterate B st prefix (λ s k v. (fn s k v, true)) s
        ≡ (visit fn copy (with_prefix prefix (start st prefix)) s, none)
  unfolding iterate
  iterate_visits st [] fn copy s o c =
      rw (o, iterate)
        (loop_visits [] fn copy (start st []) s c (B.seek-from [] (B.begin st.db))
          (B.seek-IsSorted [] (B.begin st.db)))
  iterate_visits st (p ∷ prefix) fn copy s o c =
      let long : ltb 0 (length (p ∷ prefix)) ≡ true = ground arith in
      rw (o, iterate, long)
        (loop_visits (p ∷ prefix) fn copy (start st (p ∷ prefix)) s c
          (B.seek-from (p ∷ prefix) (B.begin st.db)) (B.seek-IsSorted (p ∷ prefix) (B.begin st.db)))

  -- The callback that collects the keys and the values.
  unfoldable pub collect : List (Text × Text) → Text → Option Text → List (Text × Text)
  collect l k none = l ++ (k, []) ∷ []
  collect l k (some v) = l ++ (k, v) ∷ []

  visit-collect : (l s : List (Text × Text)) → visit collect some l s ≡ s ++ l
  unfolding visit collect
  visit-collect [] s = sym (append-nil s)
  visit-collect ((k, v) ∷ l) s = visit-collect l (s ++ (k, v) ∷ []) ∙ append_assoc s ((k, v) ∷ []) l

  with_prefix-IsSorted :
      (prefix : Text) (l : List (Text × Text)) → Ascending l → Ascending (with_prefix prefix l)
  unfolding with_prefix
  with_prefix-IsSorted prefix [] a = tt
  with_prefix-IsSorted prefix ((k, v) ∷ l) a = elim (Bool-cases (has_prefix k prefix)) [
    | inl e ↦
        rw e (
          with_prefix-All prefix (λ b. before k b.0 ≡ true) l a.0,
          with_prefix-IsSorted prefix l a.1,
        )
    | inr e ↦ rw e (with_prefix-IsSorted prefix l a.1)
  ]

  -- Iterate with a callback that collects what it sees, on an open store whose values can be
  -- copied: what it collects is in ascending order of the keys, and holds under each key with the
  -- prefix what the store holds there, and under no other key anything.
  pub iterate_exact :
      (st : PersistenceStore B) (prefix k : Text) (o : Option Text)
      → st.closed ≡ false
      → Copies some
      → contents B st k ≡ inr o
      → let r = iterate B st prefix (λ s k v. (collect s k v, true)) [] in
        (r.1 ≡ none) × Ascending r.0 × (lookup k r.0 ≡ (if has_prefix k prefix then o else none))
  iterate_exact st prefix k o open_store c h =
      let found = lookup-with_prefix prefix k (start st prefix) in
      let there = B.lookup-seek k prefix (B.begin st.db) o h in
      rw
        (
          iterate_visits st prefix collect some [] open_store c,
          visit-collect (with_prefix prefix (start st prefix)) [],
        )
        (
          refl,
          with_prefix-IsSorted prefix (start st prefix) (B.seek-IsSorted prefix (B.begin st.db)),
          ground (arith, found, there, has_prefix-before k prefix),
        )

  loop_keeps {ℓ κ} :
      {S : Type ℓ} (P : S → Type κ) (prefix : Text) (fn : S → Text → Option Text → S × Bool)
      → ((s : S) (k : Text) (v : Option Text) → P s → P (fn s k v).0)
      → (l : List (Text × Text)) (s : S) → P s
      → P (iterate_loop B prefix fn l s).0
  unfolding iterate_loop
  loop_keeps P prefix fn keep [] s h = h
  loop_keeps P prefix fn keep ((k, v) ∷ l) s h =
      elim (Bool-cases (ltb 0 (length prefix) && not (has_prefix k prefix))) [
        | inl e ↦ rw (e, iterate_loop) h
        | inr e ↦ elim (Sum-cases (B.value_copy v)) [
          | inl (x, q) ↦ rw (e, q, iterate_loop) h
          | inr (val, q) ↦ elim (Bool-cases (fn s k val).1) [
            | inl g ↦
                rw (e, q, iterate_loop, g)
                  (loop_keeps P prefix fn keep l (fn s k val).0 (keep s k val h))
            | inr g ↦ rw (e, q, iterate_loop, g) (keep s k val h)
          ]
        ]
      ]

  -- What every call of the callback keeps, Iterate keeps.
  pub iterate_keeps {ℓ κ} :
      {S : Type ℓ} (P : S → Type κ) (st : PersistenceStore B) (prefix : Text)
      (fn : S → Text → Option Text → S × Bool)
      → ((s : S) (k : Text) (v : Option Text) → P s → P (fn s k v).0)
      → (s : S) → P s
      → P (iterate B st prefix fn s).0
  unfolding iterate
  iterate_keeps P st prefix fn keep s h = elim (Bool-cases st.closed) [
    | inl c ↦ rw (c, iterate) h
    | inr c ↦ rw (c, iterate) (loop_keeps P prefix fn keep _ s h)
  ]
