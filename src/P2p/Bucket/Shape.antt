-- ===== src/P2p/Bucket/Shape.antt =====
-- What Bucket.Add (src/p2p/kademlia.go) keeps of the shape of a bucket: its size and one contact for
-- an id.
use web5_mesh.Base.{
  ℕ, suc, ◌≡◌, refl, Bool, true, false, ◌||◌, some, List, [], ◌∷◌, ◌++◌, arith, ltb, if◌then◌else◌,
  Bool-cases, List-cases, inl, inr, length, length-append,
}
use web5_mesh.Base.Classes.{Text, text_eq, text_eq_iff}
use web5_mesh.P2p.Bucket.{
  Contact, Bucket, IsWellFormed, DistinctIds, is_known, remove_first, is_stale, add,
}

-- The first contact passes the test.
abbrev pub head_is : (Contact → Bool) → List Contact → Bool
head_is p [] = false
head_is p (c ∷ rest) = p c

is_known-append :
    (id : Text) (xs ys : List Contact) → is_known id (xs ++ ys) ≡ (is_known id xs || is_known id ys)
unfolding is_known
is_known-append id [] ys = refl
is_known-append id (x ∷ xs) ys = ground (arith, is_known-append id xs ys)

is_known-remove :
    (id other : Text) (xs : List Contact)
    → is_known other xs ≡ false
    → is_known other (remove_first id xs) ≡ false
unfolding is_known remove_first
is_known-remove id other [] h = refl
is_known-remove id other (x ∷ xs) h = ground (arith, is_known-remove id other xs)

pub removed_gone :
    (id : Text) (xs : List Contact) → DistinctIds xs → is_known id (remove_first id xs) ≡ false
unfolding is_known remove_first
removed_gone id [] d = refl
removed_gone id (x ∷ xs) d =
    ground (arith, removed_gone id xs d.1, d.0, text_eq_iff (Contact.id x) id)

remove_first-DistinctIds :
    (id : Text) (xs : List Contact) → DistinctIds xs → DistinctIds (remove_first id xs)
unfolding remove_first
remove_first-DistinctIds id [] d = tt
remove_first-DistinctIds id (x ∷ xs) d = elim (Bool-cases (text_eq (Contact.id x) id)) [
  | inl e ↦ rw e d.1
  | inr e ↦ rw e (is_known-remove id (Contact.id x) xs d.0, remove_first-DistinctIds id xs d.1)
]

remove_first-length :
    (id : Text) (xs : List Contact)
    → is_known id xs ≡ true
    → suc (length (remove_first id xs)) ≡ length xs
unfolding is_known remove_first
remove_first-length id [] h = cc
remove_first-length id (x ∷ xs) h = ground (arith, remove_first-length id xs)

append-DistinctIds :
    (xs : List Contact) (c : Contact)
    → DistinctIds xs
    → is_known (Contact.id c) xs ≡ false
    → DistinctIds (xs ++ c ∷ [])
unfolding is_known
append-DistinctIds [] c d h = (refl, tt)
append-DistinctIds (x ∷ xs) c d h = (
  ground (
    arith,
    is_known-append (Contact.id x) xs (c ∷ []),
    d.0,
    text_eq_iff (Contact.id x) (Contact.id c),
    text_eq_iff (Contact.id c) (Contact.id x),
  ),
  append-DistinctIds xs c d.1 (ground arith),
)

-- A contact that is not known and comes to a full bucket.
pub add_full :
    (now : ℕ) (b : Bucket) (c oldest : Contact) (rest : List Contact)
    → is_known (Contact.id c) b.contacts ≡ false
    → ltb (length b.contacts) b.max_size ≡ false
    → b.contacts ≡ oldest ∷ rest
    → add now b c ≡ some (if is_stale now oldest then record b { contacts = c ∷ rest } else b)
unfolding add
add_full now b c oldest rest e f g = ground (arith, e, f, g)

full-IsWellFormed :
    (now : ℕ) (b : Bucket) (c oldest : Contact) (rest : List Contact)
    → IsWellFormed b
    → is_known (Contact.id c) b.contacts ≡ false
    → b.contacts ≡ oldest ∷ rest
    → IsWellFormed (if is_stale now oldest then record b { contacts = c ∷ rest } else b)
unfolding is_known
full-IsWellFormed now b c oldest rest w e g = elim (Bool-cases (is_stale now oldest)) [
  | inr f ↦ rw f w
  | inl f ↦
      let size = rw g at w.size in
      let ids = rw g at w.ids in
      let fresh = rw g at e in
      rw f (record { room = w.room; size = size; ids = (ground (arith, fresh), ids.1) })
]

-- Add on a well-formed bucket never panics, keeps the size limit, and leaves a well-formed bucket:
-- no more contacts than the limit and no id twice.
pub add-IsWellFormed :
    (now : ℕ) (b : Bucket) (c : Contact)
    → IsWellFormed b
    → (after : Bucket) × (add now b c ≡ some after)
      × (after.max_size ≡ b.max_size)
      × IsWellFormed after
unfolding add
add-IsWellFormed now b c w = elim (Bool-cases (is_known (Contact.id c) b.contacts)) [
  | inl e ↦ rw e (
    _,
    refl,
    refl,
    record {
      room = w.room;
      size = omega (
        arith,
        length-append (remove_first (Contact.id c) b.contacts) (c ∷ []),
        remove_first-length (Contact.id c) b.contacts e,
        w.size,
      );
      ids =
          append-DistinctIds _ c (remove_first-DistinctIds (Contact.id c) b.contacts w.ids)
            (removed_gone (Contact.id c) b.contacts w.ids);
    },
  )
  | inr e ↦ elim (Bool-cases (ltb (length b.contacts) b.max_size)) [
    | inl f ↦
        rw (e, f)
          (
            _,
            refl,
            refl,
            record {
              room = w.room;
              size = ground (arith, length-append b.contacts (c ∷ []));
              ids = append-DistinctIds b.contacts c w.ids e;
            },
          )
    | inr f ↦ elim (List-cases b.contacts) [
      | inl g ↦ let room = w.room in let none_left = rw g at f in absurd (ground arith)
      | inr (oldest, rest, g) ↦ (
        (if is_stale now oldest then record b { contacts = c ∷ rest } else b),
        add_full now b c oldest rest e f g,
        ground arith,
        full-IsWellFormed now b c oldest rest w e g,
      )
    ]
  ]
]
