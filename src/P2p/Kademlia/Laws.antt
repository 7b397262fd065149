-- ===== src/P2p/Kademlia/Laws.antt =====
-- Proofs about AddContact and FindClosest (src/p2p/kademlia.go), and the invariant of the table.
use web5_mesh.Base.{
  ℕ, zero, suc, ◌≡◌, ◌≤◌, ◌<◌, ◌>>=◌, refl, sym, ◌∙◌, some, List, [], ◌∷◌, ◌++◌, arith, Perm, ltb,
  if◌then◌else◌, Bool-cases, inl, inr, length, take, All, replicate, set, get_elem?, IsSorted,
  take_all, take_clipped, IsSorted-map,
}
use web5_mesh.Base.Int.{ℤ}
use web5_mesh.Base.Classes.{Text, Text_eq}
use web5_mesh.Base.ExchangeSort
use web5_mesh.Pow.Bits.{IsBytes}
use web5_mesh.P2p.Bucket
use web5_mesh.P2p.Bucket.{Contact, Bucket, new_bucket, get_contacts}
use web5_mesh.P2p.Bucket.Shape.{add-IsWellFormed}
use web5_mesh.P2p.Distance.{bucket_index, xor_distance}
use web5_mesh.P2p.Distance.Laws.{bucket_index_in_range}
use web5_mesh.P2p.Kademlia.{
  Kademlia, new, add_contact, gather, farther, count_or_twenty, find_closest,
}

abbrev pub IsTwenty : Bucket → Type 0
IsTwenty b = (Bucket.max_size b ≡ 20) × Bucket.IsWellFormed b

-- The table has 160 buckets, each well formed and of size 20, and an id of 20 bytes.
pub record IsWellFormed (k : Kademlia) : Type 0 where
  pub id_size : length k.local_id ≡ 20
  pub id_bytes : IsBytes k.local_id
  pub bucket_count : length k.buckets ≡ 160
  pub twenty : All IsTwenty k.buckets

All-replicate : (n : ℕ) → All IsTwenty (replicate n (new_bucket 20))
unfolding new_bucket
All-replicate zero = tt
All-replicate (suc n) =
    ((refl, record { room = omega arith; size = omega arith; ids = tt }), All-replicate n)

length-replicate : (n : ℕ) (b : Bucket) → length (replicate n b) ≡ n
length-replicate zero b = omega arith
length-replicate (suc n) b = omega (arith, length-replicate n b)

-- NewKademlia with an id of 20 bytes makes a well-formed table.
pub new-IsWellFormed :
    (local_id : Text) → length local_id ≡ 20 → IsBytes local_id → IsWellFormed (new local_id)
unfolding new
new-IsWellFormed local_id h w = record {
  id_size = h;
  id_bytes = w;
  bucket_count = length-replicate 160 (new_bucket 20);
  twenty = All-replicate 160;
}

in_bounds :
    (bs : List Bucket) (i : ℕ)
    → i < length bs
    → All IsTwenty bs
    → (b : Bucket) × (get_elem? bs i ≡ some b) × IsTwenty b
in_bounds [] i h w = absurd (omega arith)
in_bounds (b ∷ bs) zero h w = (b, refl, w.0)
in_bounds (b ∷ bs) (suc i) h w = in_bounds bs i (omega arith) w.1

All-set :
    (bs : List Bucket) (i : ℕ) (b : Bucket)
    → IsTwenty b
    → All IsTwenty bs
    → All IsTwenty (set bs i b)
All-set [] i b h w = tt
All-set (c ∷ bs) zero b h w = (h, w.1)
All-set (c ∷ bs) (suc i) b h w = (w.0, All-set bs i b h w.1)

length-set : (bs : List Bucket) (i : ℕ) (b : Bucket) → length (set bs i b) ≡ length bs
length-set [] i b = refl
length-set (c ∷ bs) zero b = omega arith
length-set (c ∷ bs) (suc i) b = omega (arith, length-set bs i b)

-- AddContact with an id of bytes on a well-formed table never indexes out of range and leaves a
-- well-formed table.
pub add_contact-IsWellFormed :
    (now : ℕ) (k : Kademlia) (c : Contact)
    → IsWellFormed k
    → IsBytes (Contact.id c)
    → (after : Kademlia) × (add_contact now k c ≡ some after) × IsWellFormed after
unfolding add_contact
add_contact-IsWellFormed now k c w v =
    let index = bucket_index k.local_id (Contact.id c) in
    let seen = record c { last_seen = now } in
    let in_range =
      bucket_index_in_range k.local_id (Contact.id c) w.id_bytes v (omega (arith, w.id_size)) in
    let (b, found, twenty) =
      in_bounds k.buckets index (omega (arith, w.bucket_count, in_range)) w.twenty in
    let (b', added, same, ok) = add-IsWellFormed now b seen twenty.1 in
    (
      record k { buckets = set k.buckets index b' },
      rw (found, added, ◌>>=◌) refl,
      record {
        id_size = w.id_size;
        id_bytes = w.id_bytes;
        bucket_count = length-set k.buckets index b' ∙ w.bucket_count;
        twenty = All-set k.buckets index b' (same ∙ twenty.0, ok) w.twenty;
      },
    )

-- All contacts of the table.
abbrev pub contacts_of : List Bucket → List Contact
contacts_of [] = []
contacts_of (b ∷ bs) = b.contacts ++ contacts_of bs

gather_whole :
    (count : ℕ) (bs : List Bucket) → 20 ≤ count → All IsTwenty bs → gather count bs ≡ contacts_of bs
unfolding gather get_contacts
gather_whole count [] h w = refl
gather_whole count (b ∷ bs) h w =
    let whole : get_contacts b count ≡ b.contacts =
      take_clipped count b.contacts
      ∙ take_all count b.contacts (omega (arith, w.0.0, Bucket.IsWellFormed.size w.0.1)) in
    rw (whole, gather_whole count bs h w.1) refl

cut : (n : ℕ) (xs : List Contact) → (if ltb n (length xs) then take n xs else xs) ≡ take n xs
cut n xs = elim (Bool-cases (ltb n (length xs))) [
  | inl e ↦ rw e refl
  | inr e ↦ rw e (sym (take_all n xs (ground arith)))
]

-- FindClosest returns the head of a ranking, by ascending distance to the target, of exactly the
-- contacts that it gathers from the buckets, cut to the count.
pub find_closest_ranks :
    (k : Kademlia) (target_id : Text) (count : ℤ)
    → (ranking : List Contact) × (find_closest k target_id count
        ≡ take (count_or_twenty count) ranking)
      × Perm ranking (gather (count_or_twenty count) k.buckets)
      × IsSorted
          (λ a b. xor_distance target_id (Contact.id a) ≤ xor_distance target_id (Contact.id b))
          ranking
unfolding find_closest farther
find_closest_ranks k target_id count =
    let gathered = gather (count_or_twenty count) k.buckets in
    let ranking = ExchangeSort.sort (farther target_id) gathered in
    (
      ranking,
      cut (count_or_twenty count) ranking,
      ExchangeSort.sort-perm (farther target_id) gathered,
      IsSorted-map _ _ ranking (λ a b h. ground arith)
          (ExchangeSort.sort-IsSorted (farther target_id) (λ a b h. ground arith)
            (λ a b c h l. ground arith) gathered),
    )

-- With a count of at least 20, or of 0 or less, FindClosest ranks every contact of a well-formed
-- table and so returns the closest of the whole table.
pub find_closest_whole :
    (k : Kademlia) (target_id : Text) (count : ℤ)
    → IsWellFormed k
    → 20 ≤ count_or_twenty count
    → (ranking : List Contact) × (find_closest k target_id count
        ≡ take (count_or_twenty count) ranking)
      × Perm ranking (contacts_of k.buckets)
      × IsSorted
          (λ a b. xor_distance target_id (Contact.id a) ≤ xor_distance target_id (Contact.id b))
          ranking
find_closest_whole k target_id count w h =
    let ranked = find_closest_ranks k target_id count in
    rw (gather_whole (count_or_twenty count) k.buckets h w.twenty) at ranked
