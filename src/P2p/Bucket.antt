-- ===== src/P2p/Bucket.antt =====
-- The k-bucket of src/p2p/kademlia.go.
pub mod Shape
pub mod Laws
use web5_mesh.Base.{
  ℕ, zero, suc, ◌+◌, ◌-◌, ◌*◌, ◌^◌, ◌≡◌, ◌≤◌, ◌<◌, refl, sym, ap, ◌∙◌, Bool, true, false, not, ◌&&◌,
  ◌||◌, Option, none, some, List, [], ◌∷◌, ◌++◌, arith, ltb, leb, ◌==◌, if◌then◌else◌, Bool-cases,
  Option-cases, List-cases, inl, inr, length, take, any, All, min,
}
use web5_mesh.Base.Classes.{Text, text_eq, text_eq_iff}

-- net.UDPAddr.
pub record UdpAddr : Type 0 where
  pub ip : Text
  pub port : ℕ
  pub zone : Text

-- A NodeID is a list of 20 bytes; times are in nanoseconds.
pub record Contact : Type 0 where
  pub id : Text
  pub addr : UdpAddr
  pub last_seen : ℕ

pub record Bucket : Type 0 where
  pub contacts : List Contact
  pub max_size : ℕ

unfoldable pub new_bucket : ℕ → Bucket
new_bucket max_size = record { contacts = []; max_size = if max_size == 0 then 20 else max_size }

unfoldable pub is_known : Text → List Contact → Bool
is_known id contacts = any (λ c. text_eq (Contact.id c) id) contacts

-- append(contacts[:i], contacts[i+1:]...) for the first contact of an id.
unfoldable pub remove_first : Text → List Contact → List Contact
remove_first id [] = []
remove_first id (c ∷ rest) = if text_eq (Contact.id c) id then rest else c ∷ remove_first id rest

-- 5*time.Minute
abbrev pub stale_after : ℕ
stale_after = 300000000000

abbrev pub is_stale : ℕ → Contact → Bool
is_stale now c = ltb stale_after (now - Contact.last_seen c)

-- Add at a time; `none` is the panic on contacts[0] of an empty list.
unfoldable pub add : ℕ → Bucket → Contact → Option Bucket
unfolding is_known remove_first
add now b contact =
    if is_known (Contact.id contact) (Bucket.contacts b)
    then some (record b {
      contacts = remove_first (Contact.id contact) (Bucket.contacts b) ++ contact ∷ [];
    })
    else if ltb (length (Bucket.contacts b)) (Bucket.max_size b)
    then some (record b { contacts = Bucket.contacts b ++ contact ∷ [] })
    else elim (Bucket.contacts b) [
      | [] ↦ none
      | oldest ∷ rest ↦
          some (if is_stale now oldest then record b { contacts = contact ∷ rest } else b)
    ]

-- GetContacts with a limit that is not negative.
unfoldable pub get_contacts : Bucket → ℕ → List Contact
get_contacts b limit =
    let limit =
      if ltb (length (Bucket.contacts b)) limit then length (Bucket.contacts b) else limit in
    take limit (Bucket.contacts b)

-- No id stands twice.
abbrev pub DistinctIds : List Contact → Type 0
DistinctIds [] = Unit
DistinctIds (c ∷ rest) = (is_known (Contact.id c) rest ≡ false) × DistinctIds rest

-- A bucket has room for a contact, no more contacts than its size, and no id twice.
pub record IsWellFormed (b : Bucket) : Type 0 where
  pub room : 0 < b.max_size
  pub size : length b.contacts ≤ b.max_size
  pub ids : DistinctIds b.contacts

-- The contact that a bucket holds for an id.
unfoldable pub find : Text → List Contact → Option Contact
find id [] = none
find id (c ∷ rest) = if text_eq (Contact.id c) id then some c else find id rest
