-- ===== src/Tests/Network.antt =====
-- Small routing tables, messages and datagrams (src/p2p, src/config/config.go).
use web5_mesh.Base.{
  ℕ, zero, suc, ◌≡◌, ◌≢◌, ◌≤◌, true, false, ◌&&◌, none, some, List, [], ◌∷◌, ◌++◌, arith, refl,
  replicate, take, IsSorted, Perm, if◌then◌else◌, inr,
}
use web5_mesh.Base.Int.{pos}
use web5_mesh.Base.Classes.{Text, Text_eq, text_eq, text_eq_iff}
use web5_mesh.Base.Bytes.{codes}
use web5_mesh.Pow.Bits.{IsBytes}
use web5_mesh.Pow.Gas.{new_pow_manager}
use web5_mesh.P2p.Bucket
use web5_mesh.P2p.Bucket.{Bucket, Contact, UdpAddr, find, is_known, stale_after}
use web5_mesh.P2p.Bucket.Shape.{head_is}
use web5_mesh.P2p.Bucket.Laws.{replaces, add_keeps}
use web5_mesh.P2p.Distance.{xor_distance}
use web5_mesh.P2p.Kademlia as Kad
use web5_mesh.P2p.Kademlia.{Kademlia, add_contact, find_closest, gather, count_or_twenty}
use web5_mesh.P2p.Kademlia.Laws as KadLaws
use web5_mesh.P2p.Messages.{
  handle_message, stored, split_colon, receive, store_message, find_value_message,
  write_to as reply, store_then_find,
}
use web5_mesh.P2p.Transport.{TransportUdp, read_from, write_to, read_from-write_to}
use web5_mesh.Tests.Samples.{checksum, tagged}

abbrev address : UdpAddr
address = record { ip = 10 ∷ 0 ∷ 0 ∷ 1 ∷ []; port = 4242; zone = [] }

abbrev old : Contact
old = record { id = 1 ∷ []; addr = address; last_seen = 0 }

abbrev young : Contact
young = record { id = 2 ∷ []; addr = address; last_seen = 400000000000 }

abbrev newcomer : Contact
newcomer = record { id = 3 ∷ []; addr = address; last_seen = 500000000000 }

abbrev full : Bucket
full = record { contacts = old ∷ young ∷ []; max_size = 2 }

abbrev replaced : Bucket
replaced = record { contacts = newcomer ∷ young ∷ []; max_size = 2 }

full-IsWellFormed : Bucket.IsWellFormed full
unfolding is_known
full-IsWellFormed = record { room = omega arith; size = omega arith; ids = (refl, (refl, tt)) }

full-add : Bucket.add 500000000000 full newcomer ≡ some replaced
unfolding Bucket.add
full-add = refl

add_keeps_example : find (1 ∷ []) (Bucket.contacts replaced) ≡ (
    if replaces 500000000000 full newcomer
      && head_is (λ o. text_eq (Contact.id o) (1 ∷ [])) (Bucket.contacts full)
    then none
    else find (1 ∷ []) (Bucket.contacts full))
add_keeps_example =
    add_keeps 500000000000 full replaced newcomer (1 ∷ []) full-IsWellFormed full-add refl

abbrev local_id : Text
local_id = replicate 20 0

zeros-IsBytes : IsBytes local_id
zeros-IsBytes = zeros 20
  where
    zeros : (n : ℕ) → IsBytes (replicate n 0)
    zeros zero = tt
    zeros (suc n) = (omega arith, zeros n)

abbrev table : Kademlia
table = Kad.new local_id

table-IsWellFormed : KadLaws.IsWellFormed table
table-IsWellFormed = KadLaws.new-IsWellFormed local_id refl zeros-IsBytes

add_contact-IsWellFormed_example :
    (after : Kademlia) × (add_contact 7 table old ≡ some after) × KadLaws.IsWellFormed after
add_contact-IsWellFormed_example =
    KadLaws.add_contact-IsWellFormed 7 table old table-IsWellFormed (omega arith, tt)

abbrev small_table : Kademlia
small_table = record {
  local_id = 0 ∷ [];
  buckets = full ∷ replaced ∷ [];
  data_store = [];
  running = true;
}

find_closest_ranks_example :
    (ranking : List Contact) × (find_closest small_table (2 ∷ []) (pos 3)
      ≡ take (count_or_twenty (pos 3)) ranking)
    × Perm ranking (gather (count_or_twenty (pos 3)) (Kademlia.buckets small_table))
    × IsSorted
        (λ a b. xor_distance (2 ∷ []) (Contact.id a) ≤ xor_distance (2 ∷ []) (Contact.id b))
        ranking
find_closest_ranks_example = KadLaws.find_closest_ranks small_table (2 ∷ []) (pos 3)

not_empty : codes "key" ≢ []
not_empty h = let same : false ≡ true = (text_eq_iff (codes "key") []).1 h in cc

store_then_find_example :
    handle_message
      (receive small_table
        ((address, store_message (codes "key") (codes "value")) ∷ (address, codes "PING") ∷ []))
      address
      (find_value_message (codes "key"))
    ≡ (
      receive small_table
          ((address, store_message (codes "key") (codes "value")) ∷ (address, codes "PING") ∷ []),
      reply (codes "VALUE:" ++ codes "value") address ∷ [],
    )
unfolding stored split_colon
store_then_find_example =
    store_then_find small_table address address ((address, codes "PING") ∷ []) (codes "key")
      (codes "value") (refl, (refl, (refl, tt))) not_empty (refl, tt)

abbrev end : TransportUdp
end = record { session_key = replicate 32 9; session_ready = true; is_relay = false }

abbrev ip_text : UdpAddr → Text
ip_text a = UdpAddr.ip a

abbrev twelve : Text
twelve = replicate 12 5

read_from-write_to_example :
    (datagram : Text) × (write_to ip_text checksum tagged (some twelve) end (codes "PING")
      ≡ inr datagram)
    × ((read_from ip_text checksum tagged 5 end new_pow_manager (some (datagram, address))).1
        ≡ inr (codes "PING", address))
read_from-write_to_example =
    read_from-write_to ip_text checksum tagged 5 end end new_pow_manager (codes "PING") twelve
      address refl refl refl refl refl
