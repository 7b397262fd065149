-- ===== src/P2p/Bucket/Laws.antt =====
-- What Bucket.Add (src/p2p/kademlia.go) does to the contacts of a bucket.
use web5_mesh.Base.{
  ℕ, suc, ◌+◌, ◌≡◌, ◌≤◌, refl, sym, ◌∙◌, Bool, true, false, not, ◌&&◌, ◌||◌, none, some, List, [],
  ◌∷◌, ◌++◌, arith, ltb, if◌then◌else◌, Bool-cases, List-cases, inl, inr, length,
}
use web5_mesh.Base.Classes.{Text, text_eq, text_eq_iff}
use web5_mesh.P2p.Bucket.{
  Contact, Bucket, IsWellFormed, DistinctIds, is_known, remove_first, stale_after, is_stale, add,
  find,
}
use web5_mesh.P2p.Bucket.Shape.{head_is, removed_gone, add_full}

find-append :
    (id : Text) (xs ys : List Contact)
    → find id (xs ++ ys) ≡ (if is_known id xs then find id xs else find id ys)
unfolding find is_known
find-append id [] ys = refl
find-append id (x ∷ xs) ys = ground (arith, find-append id xs ys)

find-remove :
    (id other : Text) (xs : List Contact)
    → text_eq id other ≡ false
    → find other (remove_first id xs) ≡ find other xs
unfolding find remove_first
find-remove id other [] h = refl
find-remove id other (x ∷ xs) h = ground (
  arith,
  find-remove id other xs h,
  text_eq_iff (Contact.id x) id,
  text_eq_iff (Contact.id x) other,
  text_eq_iff id other,
)

find_unknown : (id : Text) (xs : List Contact) → is_known id xs ≡ false → find id xs ≡ none
unfolding find is_known
find_unknown id [] h = refl
find_unknown id (x ∷ xs) h = ground (arith, find_unknown id xs)

is_known-remove_other :
    (id other : Text) (xs : List Contact)
    → text_eq id other ≡ false
    → is_known other (remove_first id xs) ≡ is_known other xs
unfolding is_known remove_first
is_known-remove_other id other [] h = refl
is_known-remove_other id other (x ∷ xs) h = ground (
  arith,
  is_known-remove_other id other xs h,
  text_eq_iff (Contact.id x) id,
  text_eq_iff (Contact.id x) other,
  text_eq_iff id other,
)

find-head : (c : Contact) (rest : List Contact) → find (Contact.id c) (c ∷ rest) ≡ some c
unfolding find
find-head c rest = ground (arith, text_eq_iff (Contact.id c) (Contact.id c))

find-last :
    (c : Contact) (xs : List Contact)
    → is_known (Contact.id c) xs ≡ false
    → find (Contact.id c) (xs ++ c ∷ []) ≡ some c
find-last c xs h = ground (arith, find-append (Contact.id c) xs (c ∷ []), find-head c [])

-- A new contact comes to a full bucket with a stale head, which then is thrown out.
unfoldable pub replaces : ℕ → Bucket → Contact → Bool
unfolding is_known
replaces now b c =
    not (is_known (Contact.id c) (Bucket.contacts b))
    && not (ltb (length (Bucket.contacts b)) (Bucket.max_size b))
    && head_is (is_stale now) (Bucket.contacts b)

find-known :
    (c : Contact) (id : Text) (xs : List Contact)
    → text_eq (Contact.id c) id ≡ false
    → find id (remove_first (Contact.id c) xs ++ c ∷ []) ≡ find id xs
unfolding find
find-known c id xs n = ground (
  arith,
  find-append id (remove_first (Contact.id c) xs) (c ∷ []),
  find-remove (Contact.id c) id xs n,
  is_known-remove_other (Contact.id c) id xs n,
  find_unknown id xs,
)

find-room :
    (c : Contact) (id : Text) (xs : List Contact)
    → text_eq (Contact.id c) id ≡ false
    → find id (xs ++ c ∷ []) ≡ find id xs
unfolding find
find-room c id xs n = ground (arith, find-append id xs (c ∷ []), find_unknown id xs)

find-full :
    (now m : ℕ) (c : Contact) (id : Text) (o : Contact) (rest : List Contact)
    → DistinctIds (o ∷ rest)
    → text_eq (Contact.id c) id ≡ false
    → find id (
        Bucket.contacts (
          if is_stale now o
          then record { contacts = c ∷ rest; max_size = m }
          else record { contacts = o ∷ rest; max_size = m }))
      ≡ (if is_stale now o && text_eq (Contact.id o) id then none else find id (o ∷ rest))
unfolding find
find-full now m c id o rest d n = elim (Bool-cases (is_stale now o)) [
  | inl s ↦
      rw s (ground (arith, find_unknown (Contact.id o) rest d.0, text_eq_iff (Contact.id o) id, n))
  | inr s ↦ rw s refl
]

find-add :
    (now m : ℕ) (c : Contact) (id : Text) (xs : List Contact)
    → DistinctIds xs
    → text_eq (Contact.id c) id ≡ false
    → (after : Bucket) → add now (record { contacts = xs; max_size = m }) c ≡ some after
    → find id after.contacts ≡ (
        if replaces now (record { contacts = xs; max_size = m }) c
          && head_is (λ o. text_eq (Contact.id o) id) xs
        then none
        else find id xs)
unfolding add replaces
find-add now m c id xs d n after h = elim (Bool-cases (is_known (Contact.id c) xs)) [
  | inl e ↦ let r = rw e at h in rw e (ground (arith, r, find-known c id xs n))
  | inr e ↦ elim (Bool-cases (ltb (length xs) m)) [
    | inl f ↦ let r = rw (e, f) at h in rw (e, f) (ground (arith, r, find-room c id xs n))
    | inr f ↦ elim (List-cases xs) [
      | inl g ↦ cc (rw (e, f, g) at h)
      | inr (o, rest, g) ↦
          let full = add_full now (record { contacts = xs; max_size = m }) c o rest e f g in
          let ids = rw g at d in
          let r : some after
              ≡ some (
                  if is_stale now o
                  then record { contacts = c ∷ rest; max_size = m }
                  else record { contacts = xs; max_size = m }) =
            sym h ∙ full in
          let same = rw g at r in
          rw (e, f, g) (ground (arith, same, find-full now m c id o rest ids n))
    ]
  ]
]

-- Add on a well-formed bucket loses the contact of another id only if that is the head of a full
-- bucket, was last seen more than five minutes before, and the new contact is not known.
pub add_keeps :
    (now : ℕ) (b after : Bucket) (c : Contact) (id : Text)
    → IsWellFormed b
    → add now b c ≡ some after
    → text_eq (Contact.id c) id ≡ false
    → find id after.contacts ≡ (
        if replaces now b c && head_is (λ o. text_eq (Contact.id o) id) b.contacts
        then none
        else find id b.contacts)
add_keeps now b after c id w h n = find-add now b.max_size c id b.contacts w.ids n after h

find-add_self :
    (now m : ℕ) (c : Contact) (xs : List Contact)
    → DistinctIds xs
    → (after : Bucket) → add now (record { contacts = xs; max_size = m }) c ≡ some after
    → find (Contact.id c) after.contacts ≡ (
        if is_known (Contact.id c) xs || ltb (length xs) m || head_is (is_stale now) xs
        then some c
        else none)
unfolding add
find-add_self now m c xs d after h = elim (Bool-cases (is_known (Contact.id c) xs)) [
  | inl e ↦
      let r = rw e at h in
      rw e (
        ground (
          arith,
          r,
          find-last c (remove_first (Contact.id c) xs),
          removed_gone (Contact.id c) xs d,
        ))
  | inr e ↦ elim (Bool-cases (ltb (length xs) m)) [
    | inl f ↦ let r = rw (e, f) at h in rw (e, f) (ground (arith, r, find-last c xs e))
    | inr f ↦ elim (List-cases xs) [
      | inl g ↦ cc (rw (e, f, g) at h)
      | inr (o, rest, g) ↦
          let full = add_full now (record { contacts = xs; max_size = m }) c o rest e f g in
          let r : some after
              ≡ some (
                  if is_stale now o
                  then record { contacts = c ∷ rest; max_size = m }
                  else record { contacts = xs; max_size = m }) =
            sym h ∙ full in
          let same = rw g at r in
          let fresh = rw g at e in
          rw (e, f, g)
            (ground (arith, same, find-head c rest, find_unknown (Contact.id c) (o ∷ rest) fresh))
    ]
  ]
]

-- The contact that is added is in the bucket afterwards, as it was given, exactly if its id was
-- known, there was room, or the head was last seen more than five minutes before.
pub add_finds :
    (now : ℕ) (b after : Bucket) (c : Contact)
    → IsWellFormed b
    → add now b c ≡ some after
    → find (Contact.id c) after.contacts ≡ (
        if is_known (Contact.id c) b.contacts
          || ltb (length b.contacts) b.max_size
          || head_is (is_stale now) b.contacts
        then some c
        else none)
add_finds now b after c w h = find-add_self now b.max_size c b.contacts w.ids after h

replaced :
    (now m : ℕ) (c : Contact) (xs : List Contact) (after : Bucket)
    → add now (record { contacts = xs; max_size = m }) c ≡ some after
    → replaces now (record { contacts = xs; max_size = m }) c ≡ true
    → (rest : List Contact) × (after ≡ record { contacts = c ∷ rest; max_size = m })
      × (ltb (suc (length rest)) m ≡ false)
unfolding add replaces
replaced now m c [] after h r = absurd (ground (arith, r))
replaced now m c (o ∷ rest) after h r =
    let e : is_known (Contact.id c) (o ∷ rest) ≡ false = ground (arith, r) in
    let f : ltb (suc (length rest)) m ≡ false = ground (arith, r) in
    let s : is_stale now o ≡ true = ground (arith, r) in
    (
      rest,
      ground (
        arith,
        add_full now (record { contacts = o ∷ rest; max_size = m }) c o rest e f refl,
        h,
        s,
      ),
      f,
    )

-- After Add has replaced the head of a full bucket by a contact seen now, every unknown contact is
-- turned down for the next five minutes.
pub replacement_blocks :
    (now later : ℕ) (b after : Bucket) (c d : Contact)
    → Contact.last_seen c ≡ now
    → add now b c ≡ some after
    → replaces now b c ≡ true
    → later ≤ now + stale_after
    → is_known (Contact.id d) after.contacts ≡ false
    → add later after d ≡ some after
replacement_blocks now later b after c d seen h r soon unknown =
    let (rest, shape, full) = replaced now b.max_size c b.contacts after h r in
    let fresh : is_stale later c ≡ false = ground (arith, seen, soon) in
    let new : is_known (Contact.id d) (c ∷ rest) ≡ false = rw shape at unknown in
    rw shape (
      add_full later (record { contacts = c ∷ rest; max_size = b.max_size }) d c rest new full refl
      ∙ rw fresh refl)
