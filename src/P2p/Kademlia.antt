-- ===== src/P2p/Kademlia.antt =====
-- The routing table and the key-value store of src/p2p/kademlia.go.
use web5_mesh.Base.{
  ℕ, zero, suc, ◌+◌, ◌-◌, ◌*◌, ◌^◌, ◌≡◌, ◌≤◌, ◌<◌, ◌>>=◌, refl, sym, ap, ◌∙◌, Bool, true, false,
  not, ◌&&◌, ◌||◌, Option, none, some, List, [], ◌∷◌, ◌++◌, arith, Perm, ltb, leb, ◌==◌,
  if◌then◌else◌, Bool-cases, Option-cases, List-cases, inl, inr, length, take, drop, any, All, min,
  replicate, set, get_elem?, IsSorted,
}
use web5_mesh.Base.Int.{ℤ, pos, negsuc}
use web5_mesh.Base.Classes.{Text, Text_eq, text_eq, text_eq_iff}
use web5_mesh.Base.Map.{lookup, insert}
use web5_mesh.Base.ExchangeSort
use web5_mesh.P2p.Bucket
use web5_mesh.P2p.Bucket.{Contact, Bucket, new_bucket, get_contacts}
use web5_mesh.P2p.Distance.{bucket_index, xor_distance}
pub mod Laws

-- The transport and the identity are not part of the state: no operation here writes them.
pub record Kademlia : Type 0 where
  pub local_id : Text
  pub buckets : List Bucket
  pub data_store : List (Text × Text)
  pub running : Bool

-- NewKademlia, of the id that GenerateNodeIDFromPubKey (Pow/NodeId.antt) makes of the public key.
unfoldable pub new : Text → Kademlia
unfolding new_bucket
new local_id = record {
  local_id = local_id;
  buckets = replicate 160 (new_bucket 20);
  data_store = [];
  running = true;
}

-- AddContact at a time; `none` is an index out of range.
unfoldable pub add_contact : ℕ → Kademlia → Contact → Option Kademlia
unfolding bucket_index
add_contact now k contact = do
  let contact = record contact { last_seen = now }
  let index = bucket_index k.local_id (Contact.id contact)
  bucket ← get_elem? k.buckets index
  bucket ← Bucket.add now bucket contact
  some (record k { buckets = set k.buckets index bucket })

-- The first loop of FindClosest.
unfoldable pub gather : ℕ → List Bucket → List Contact
unfolding get_contacts
gather count [] = []
gather count (b ∷ rest) = get_contacts b count ++ gather count rest

unfoldable pub farther : Text → Contact → Contact → Bool
unfolding xor_distance
farther target_id a b =
    ltb (xor_distance target_id (Contact.id b)) (xor_distance target_id (Contact.id a))

abbrev pub count_or_twenty : ℤ → ℕ
count_or_twenty (negsuc n) = 20
count_or_twenty (pos n) = if n == 0 then 20 else n

unfoldable pub find_closest : Kademlia → Text → ℤ → List Contact
unfolding gather farther ExchangeSort.sort
find_closest k target_id count =
    let count = count_or_twenty count in
    let all_contacts = ExchangeSort.sort (farther target_id) (gather count k.buckets) in
    if ltb count (length all_contacts) then take count all_contacts else all_contacts

-- Store; the data store is never nil.
unfoldable pub store : Kademlia → Text → Text → Kademlia
store k key value = record k { data_store = insert key value k.data_store }

unfoldable pub find_value : Kademlia → Text → Option Text
find_value k key = lookup key k.data_store

unfoldable pub start : Kademlia → Kademlia
start k = record k { running = true }

unfoldable pub stop : Kademlia → Kademlia
stop k = record k { running = false }
