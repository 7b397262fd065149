-- ===== src/Storage/Persistence/Laws.antt =====
-- Proofs about the operations of PersistenceStore (src/storage/persistence.go).
use web5_mesh.Base.{
  ℕ, ◌≡◌, ◌≢◌, ◌⊎◌, inl, inr, refl, sym, ap, ◌∙◌, true, false, Option, none, some, List, [], ◌∷◌,
  arith, Bool-cases,
}
use web5_mesh.Base.Classes.{Text, Text_eq, text_eq, text_eq_iff}
use web5_mesh.Base.Map.{lookup, Distinct}
use web5_mesh.Storage.Persistence.{
  Badger, StoreError, store_closed, PersistenceStore, update_db, put, put_with_ttl, get, view_value,
  delete, has, set_all, batch_write, get_size, close,
}

pub Sum-cases {ℓ κ} :
    {A : Type ℓ} {C : Type κ} (s : A ⊎ C) → ((a : A) × (s ≡ inl a)) ⊎ ((c : C) × (s ≡ inr c))
Sum-cases (inl a) = inl (a, refl)
Sum-cases (inr c) = inr (c, refl)

module _ (B : Badger) where
  -- What the next transaction reads under a key.
  abbrev pub contents : PersistenceStore B → Text → Badger.Error B ⊎ Option Text
  contents s k = B.get k (B.begin s.db)

  -- A successful transaction leaves what it reads at its end.
  update_db-contents :
      (s : PersistenceStore B) (f : Badger.Txn B → Badger.Error B ⊎ Badger.Txn B)
      → (update_db B s f).1 ≡ none
      → (t : Badger.Txn B) × (f (B.begin s.db) ≡ inr t)
        × ((k : Text) → contents (update_db B s f).0 k ≡ B.get k t)
  unfolding update_db
  update_db-contents s f h = elim (Sum-cases (f (B.begin s.db))) [
    | inl (e, q) ↦ absurd (cc (rw (q, update_db) at h))
    | inr (t, q) ↦ elim (Sum-cases (B.commit t)) [
      | inl (e, c) ↦ absurd (cc (rw (q, c, update_db) at h))
      | inr (d, c) ↦ (t, q, λ k. rw (q, c, update_db) (B.get-commit t d k c))
    ]
  ]

  update_db-closed :
      (s : PersistenceStore B) (f : Badger.Txn B → Badger.Error B ⊎ Badger.Txn B)
      → (update_db B s f).0.closed ≡ s.closed
  unfolding update_db
  update_db-closed s f = elim (Sum-cases (f (B.begin s.db))) [
    | inl (e, q) ↦ rw (q, update_db) refl
    | inr (t, q) ↦ elim (Sum-cases (B.commit t)) [
      | inl (e, c) ↦ rw (q, c, update_db) refl
      | inr (d, c) ↦ rw (q, c, update_db) refl
    ]
  ]

  -- A failed transaction changes nothing.
  update_db_failed :
      (s : PersistenceStore B) (f : Badger.Txn B → Badger.Error B ⊎ Badger.Txn B)
      (e : StoreError (Badger.Error B))
      → (update_db B s f).1 ≡ some e
      → (update_db B s f).0 ≡ s
  unfolding update_db
  update_db_failed s f e h = elim (Sum-cases (f (B.begin s.db))) [
    | inl (e, q) ↦ rw (q, update_db) refl
    | inr (t, q) ↦ elim (Sum-cases (B.commit t)) [
      | inl (e, c) ↦ rw (q, c, update_db) refl
      | inr (d, c) ↦ absurd (cc (rw (q, c, update_db) at h))
    ]
  ]

  -- A Put that succeeds ran on an open store, with a key that is not empty.
  put_ran :
      (s : PersistenceStore B) (key value : Text)
      → (put B s key value).1 ≡ none
      → (s.closed ≡ false) × (put B s key value ≡ update_db B s (B.set key value))
  unfolding put
  put_ran s key value h = ground arith

  -- After a successful Put the key reads as the value and every other key as before.
  pub put_contract :
      (s : PersistenceStore B) (key value other : Text)
      → (put B s key value).1 ≡ none
      → other ≢ key
      → (contents (put B s key value).0 key ≡ inr (some value))
        × (contents (put B s key value).0 other ≡ contents s other)
        × ((put B s key value).0.closed ≡ false)
  put_contract s key value other h n =
      let (open_before, ran) = put_ran s key value h in
      let (t, q, reads) = update_db-contents s (B.set key value) (rw ran at h) in
      rw ran (
        reads key ∙ B.get-set key value (B.begin s.db) t q,
        reads other ∙ B.get-set_other other key value (B.begin s.db) t n q,
        update_db-closed s (B.set key value) ∙ open_before,
      )

  delete_ran :
      (s : PersistenceStore B) (key : Text)
      → (delete B s key).1 ≡ none
      → (s.closed ≡ false) × (delete B s key ≡ update_db B s (B.remove key))
  unfolding delete
  delete_ran s key h = ground arith

  pub delete_removes :
      (s : PersistenceStore B) (key other : Text)
      → (delete B s key).1 ≡ none
      → other ≢ key
      → (get B (delete B s key).0 key ≡ inr (none, false))
        × (contents (delete B s key).0 other ≡ contents s other)
  unfolding get view_value
  delete_removes s key other h n =
      let (open_before, ran) = delete_ran s key h in
      let (t, q, reads) = update_db-contents s (B.remove key) (rw ran at h) in
      rw ran (
        rw
            (
              update_db-closed s (B.remove key) ∙ open_before,
              reads key,
              B.get-remove key (B.begin s.db) t q,
              view_value,
            )
            refl,
        reads other ∙ B.get-remove_other other key (B.begin s.db) t n q,
      )

  -- A write that fails leaves the store as it was.
  pub write_failed :
      (s : PersistenceStore B) (key value : Text) (operations : List (Text × Text))
      (e : StoreError (Badger.Error B))
      → ((put B s key value).1 ≡ some e → (put B s key value).0 ≡ s)
        × ((delete B s key).1 ≡ some e → (delete B s key).0 ≡ s)
        × ((batch_write B s operations).1 ≡ some e → (batch_write B s operations).0 ≡ s)
  unfolding put delete batch_write
  write_failed s key value operations e = (
    λ h. ground (arith, update_db_failed s (B.set key value) e),
    λ h. ground (arith, update_db_failed s (B.remove key) e),
    λ h. ground (arith, update_db_failed s (set_all B operations) e),
  )

  -- On a closed store every operation fails with the error of a closed store and leaves the store
  -- as it is; Close alone succeeds.
  pub closed_fails :
      (s : PersistenceStore B) (key value : Text) (ttl : ℕ) (operations : List (Text × Text))
      → s.closed ≡ true
      → (put B s key value ≡ (s, some store_closed))
        × (put_with_ttl B s key value ttl ≡ (s, some store_closed))
        × (get B s key ≡ inl store_closed)
        × (has B s key ≡ inl store_closed)
        × (delete B s key ≡ (s, some store_closed))
        × (batch_write B s operations ≡ (s, some store_closed))
        × (get_size B s ≡ inl store_closed)
        × (close B s ≡ (s, none))
  unfolding put put_with_ttl get has delete batch_write get_size close
  closed_fails s key value ttl operations h = rw h (refl, refl, refl, refl, refl, refl, refl, refl)

  -- What a transaction reads under a key after writing a batch, from what it read before.
  abbrev pub written :
      List (Text × Text) → Text → Badger.Error B ⊎ Option Text → Badger.Error B ⊎ Option Text
  written operations k before = elim (lookup k operations) [ none ↦ before | some v ↦ inr (some v) ]

  set_all-get :
      (operations : List (Text × Text)) (t u : Badger.Txn B) (k : Text)
      → Distinct operations
      → set_all B operations t ≡ inr u
      → B.get k u ≡ written operations k (B.get k t)
  unfolding set_all lookup
  set_all-get [] t u k d h = ap (λ r. elim r [ inl e ↦ inr none | inr v ↦ B.get k v ]) (sym h)
  set_all-get ((key, value) ∷ operations) t u k d h = elim (Sum-cases (B.set key value t)) [
    | inl (e, q) ↦ absurd (cc (rw (q, set_all) at h))
    | inr (m, q) ↦
        let later : B.get k u ≡ written operations k (B.get k m) =
          set_all-get operations m u k d.1 (rw (q, set_all) at h) in
        elim (Bool-cases (text_eq key k)) [
          | inl e ↦
              let same : key ≡ k = (text_eq_iff key k).0 e in
              let gone : lookup k operations ≡ none = rw same at d.0 in
              let now_set : B.get k m ≡ inr (some value) =
                rw (← same) (B.get-set key value t m q) in
              rw (e, written) (later ∙ rw (gone, now_set, written) refl)
          | inr e ↦
              let as_before : B.get k m ≡ B.get k t =
                B.get-set_other k key value t m (ground (arith, text_eq_iff key k)) q in
              rw (e, written) (later ∙ rw as_before refl)
        ]
  ]

  batch_write_ran :
      (s : PersistenceStore B) (operations : List (Text × Text))
      → (batch_write B s operations).1 ≡ none
      → batch_write B s operations ≡ update_db B s (set_all B operations)
  unfolding batch_write
  batch_write_ran s operations h = ground arith

  -- A batch without double keys that succeeds leaves each of its values under its key, and every
  -- other key as it was.
  pub batch_write_contract :
      (s : PersistenceStore B) (operations : List (Text × Text)) (k : Text)
      → (batch_write B s operations).1 ≡ none
      → Distinct operations
      → contents (batch_write B s operations).0 k ≡ written operations k (contents s k)
  batch_write_contract s operations k h d =
      let ran = batch_write_ran s operations h in
      let (t, q, reads) = update_db-contents s (set_all B operations) (rw ran at h) in
      rw ran (reads k ∙ set_all-get operations (B.begin s.db) t k d q)
