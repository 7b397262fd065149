-- ===== src/P2p/Messages.antt =====
-- The message loop of src/p2p/kademlia.go (handleMessages), one message at a time.
use web5_mesh.Base.{
  suc, ◌+◌, ◌≡◌, ◌≢◌, refl, ap, ◌∙◌, Bool, true, false, ◌&&◌, Option, none, some, List, [], ◌∷◌,
  ◌++◌, arith, ltb, ◌==◌, if◌then◌else◌, if_intro, Bool-cases, Option-cases, inl, inr, length,
  length-append, length-take, take, drop, any, All,
}
use web5_mesh.Base.Classes.{Text, Text_eq, text_eq, text_eq_iff}
use web5_mesh.Base.Map.{lookup-insert}
use web5_mesh.Base.Bytes.{codes}
use web5_mesh.P2p.Bucket.{UdpAddr}
use web5_mesh.P2p.Kademlia.{Kademlia, store, find_value}

-- What a message makes the node do: WriteTo of the transport, or Respond of the handshake.
pub data Reply : Type 0 where
  write_to : Text → UdpAddr → Reply
  respond : UdpAddr → Text → Reply

-- strings.SplitN(s, ":", 2): none if there is no colon.
unfoldable pub split_colon : Text → Option (Text × Text)
split_colon [] = none
split_colon (c ∷ rest) = elim (split_colon rest) [
  | none ↦ if c == 58 then some ([], rest) else none
  | some (key, value) ↦ if c == 58 then some ([], rest) else some (c ∷ key, value)
]

abbrev prefixed : Text → Text → Bool
prefixed word msg = ltb (length word) (length msg) && text_eq (take (length word) msg) word

-- The case "STORE:".
unfoldable pub handle_store : Kademlia → Text → Kademlia
unfolding store split_colon
handle_store k msg = elim (split_colon (drop 6 msg)) [
  | none ↦ k
  | some (key, value) ↦ store k key value
]

-- The case "FIND_VALUE:".
unfoldable pub handle_find_value : Kademlia → UdpAddr → Text → List Reply
unfolding find_value
handle_find_value k addr msg = elim (find_value k (drop 11 msg)) [
  | none ↦ []
  | some value ↦ write_to (codes "VALUE:" ++ value) addr ∷ []
]

-- The switch, in the source's order: the table that is left and the replies.
unfoldable pub handle_message : Kademlia → UdpAddr → Text → Kademlia × List Reply
unfolding handle_store handle_find_value
handle_message k addr msg =
    if ltb 4 (length msg) && text_eq (take 4 msg) (codes "HELLO")
    then (k, respond addr msg ∷ [])
    else if text_eq msg (codes "PING")
    then (k, write_to (codes "PONG") addr ∷ [])
    else if text_eq msg (codes "PONG")
    then (k, [])
    else if text_eq msg (codes "FIND_NODE")
    then (k, write_to (codes "NODES") addr ∷ [])
    else if prefixed (codes "STORE:") msg
    then (handle_store k msg, [])
    else if prefixed (codes "FIND_VALUE:") msg
    then (k, handle_find_value k addr msg)
    else (k, [])

abbrev pub is_respond : Reply → Bool
is_respond (write_to bytes addr) = false
is_respond (respond addr bytes) = true

hello_never : (msg : Text) → text_eq (take 4 msg) (codes "HELLO") ≡ false
hello_never msg = elim (Bool-cases (text_eq (take 4 msg) (codes "HELLO"))) [
  | inr e ↦ e
  | inl e ↦
      let same = (text_eq_iff (take 4 msg) (codes "HELLO")).0 e in
      let sizes = ap length same in absurd (omega (arith, sizes, length-take 4 msg))
]

find_value_writes :
    (k : Kademlia) (addr : UdpAddr) (msg : Text)
    → any is_respond (handle_find_value k addr msg) ≡ false
unfolding handle_find_value
find_value_writes k addr msg = elim (Option-cases (find_value k (drop 11 msg))) [
  | inl e ↦ rw (e, handle_find_value, any) refl
  | inr (v, e) ↦ rw (e, handle_find_value, any) refl
]

not_hello : (msg : Text) → (ltb 4 (length msg) && text_eq (take 4 msg) (codes "HELLO")) ≡ true → ⊥
not_hello msg e = let never = hello_never msg in ground (arith, e)

-- What holds in every case that can be reached holds of every message.
handle_message_cases {ℓ} :
    (P : Kademlia × List Reply → Type ℓ) (k : Kademlia) (addr : UdpAddr) (msg : Text)
    → (text_eq msg (codes "PING") ≡ true → P (k, write_to (codes "PONG") addr ∷ []))
    → (text_eq msg (codes "PONG") ≡ true → P (k, []))
    → (text_eq msg (codes "FIND_NODE") ≡ true → P (k, write_to (codes "NODES") addr ∷ []))
    → (prefixed (codes "STORE:") msg ≡ true → P (handle_store k msg, []))
    → (prefixed (codes "STORE:") msg ≡ false → P (k, handle_find_value k addr msg))
    → (prefixed (codes "STORE:") msg ≡ false → P (k, []))
    → P (handle_message k addr msg)
unfolding handle_message
handle_message_cases P k addr msg ping pong node put get other =
    if_intro P _ _ _ (λ e. absurd (not_hello msg e))
      (λ _. if_intro P _ _ _ ping (λ _. if_intro P _ _ _ pong (λ _.
        if_intro P _ _ _ node
          (λ _. if_intro P _ _ _ put (λ e. if_intro P _ _ _ (λ _. get e) (λ _. other e))))))

-- Whatever the message, the loop never calls Respond of the handshake: the first four bytes are
-- compared with the five of HELLO.
pub handle_message_never_responds :
    (k : Kademlia) (addr : UdpAddr) (msg : Text)
    → any is_respond (handle_message k addr msg).1 ≡ false
handle_message_never_responds k addr msg =
    handle_message_cases (λ r. any is_respond r.1 ≡ false) k addr msg (λ _. refl) (λ _. refl)
      (λ _. refl) (λ _. refl) (λ _. find_value_writes k addr msg) (λ _. refl)

-- The key and value of a message that the loop stores.
unfoldable pub stored : Text → Option (Text × Text)
unfolding split_colon
stored msg = if prefixed (codes "STORE:") msg then split_colon (drop 6 msg) else none

-- What is found under a key after a message: the value that the message stores under it, if it
-- stores one.
abbrev pub found_after : Option (Text × Text) → Text → Option Text → Option Text
found_after none key old = old
found_after (some (stored_key, value)) key old = if text_eq stored_key key then some value else old

kept :
    (k : Kademlia) (msg word key : Text)
    → text_eq msg word ≡ true
    → prefixed (codes "STORE:") word ≡ false
    → find_value k key ≡ found_after (stored msg) key (find_value k key)
unfolding stored
kept k msg word key h e =
    let other : prefixed (codes "STORE:") msg ≡ false = rw ((text_eq_iff msg word).0 h) e in
    rw (other, stored) refl

store-found :
    (k : Kademlia) (msg key : Text)
    → find_value (handle_store k msg) key
      ≡ found_after (split_colon (drop 6 msg)) key (find_value k key)
unfolding handle_store find_value store
store-found k msg key = elim (Option-cases (split_colon (drop 6 msg))) [
  | inl e ↦ rw (e, handle_store) refl
  | inr ((stored_key, value), e) ↦
      rw (e, handle_store) (lookup-insert stored_key key value k.data_store)
]

-- Only a STORE message with a second colon changes the table, and only under its key: after any
-- message, every key has the value that the message stores under it, or the one it had.
pub handle_message_stores :
    (k : Kademlia) (addr : UdpAddr) (msg key : Text)
    → find_value (handle_message k addr msg).0 key ≡ found_after (stored msg) key (find_value k key)
unfolding stored
handle_message_stores k addr msg key =
    handle_message_cases (λ r. find_value r.0 key ≡ found_after (stored msg) key (find_value k key))
      k addr msg (λ e. kept k msg (codes "PING") key e refl)
      (λ e. kept k msg (codes "PONG") key e refl) (λ e. kept k msg (codes "FIND_NODE") key e refl)
      (λ e. rw (e, stored) (store-found k msg key)) (λ e. rw (e, stored) refl)
      (λ e. rw (e, stored) refl)

-- No byte is a colon.
abbrev pub HasNoColon : Text → Type 0
HasNoColon = All (λ c. (c == 58) ≡ false)

split_colon-append :
    (key value : Text) → HasNoColon key → split_colon (key ++ 58 ∷ value) ≡ some (key, value)
unfolding split_colon
split_colon-append [] value h = elim (Option-cases (split_colon value)) [
  | inl e ↦ rw (e, split_colon) refl
  | inr ((a, b), e) ↦ rw (e, split_colon) refl
]
split_colon-append (c ∷ key) value h = rw (split_colon-append key value h.1, h.0) refl

abbrev pub store_message : Text → Text → Text
store_message key value = codes "STORE:" ++ key ++ 58 ∷ value

abbrev pub find_value_message : Text → Text
find_value_message key = codes "FIND_VALUE:" ++ key

stored-message :
    (key value : Text) → HasNoColon key → stored (store_message key value) ≡ some (key, value)
unfolding stored
stored-message key value h =
    let size : length (key ++ 58 ∷ value) ≡ length key + suc (length value) =
      length-append key (58 ∷ value) in
    ground (arith, size, split_colon-append key value h)

answer :
    (k : Kademlia) (addr : UdpAddr) (key value : Text)
    → key ≢ []
    → find_value k key ≡ some value
    → handle_message k addr (find_value_message key)
      ≡ (k, write_to (codes "VALUE:" ++ value) addr ∷ [])
unfolding handle_message handle_find_value
answer k addr [] value n h = absurd (n refl)
answer k addr (c ∷ key) value n h = ground (arith, h)

-- The loop on a list of messages, each with its sender.
unfoldable pub receive : Kademlia → List (UdpAddr × Text) → Kademlia
unfolding handle_message
receive k [] = k
receive k ((addr, msg) ∷ msgs) = receive (handle_message k addr msg).0 msgs

-- The message stores nothing under the key.
abbrev pub Leaves : Text → UdpAddr × Text → Type 0
Leaves key m = found_after (stored m.1) key none ≡ none

leaves_value :
    (r : Option (Text × Text)) (key value : Text)
    → found_after r key none ≡ none
    → found_after r key (some value) ≡ some value
leaves_value none key value h = refl
leaves_value (some (stored_key, other)) key value h = ground arith

receive-found :
    (k : Kademlia) (msgs : List (UdpAddr × Text)) (key value : Text)
    → find_value k key ≡ some value
    → All (Leaves key) msgs
    → find_value (receive k msgs) key ≡ some value
unfolding receive
receive-found k [] key value h w = h
receive-found k ((addr, msg) ∷ msgs) key value h w =
    receive-found (handle_message k addr msg).0 msgs key value
      (handle_message_stores k addr msg key ∙ rw h (leaves_value (stored msg) key value w.0)) w.1

-- After STORE:key:value and any messages that store nothing under the key, FIND_VALUE:key is
-- answered with VALUE:value to the one who asks, and changes nothing, for a key that is not empty
-- and has no colon.
pub store_then_find :
    (k : Kademlia) (sender asker : UdpAddr) (msgs : List (UdpAddr × Text)) (key value : Text)
    → HasNoColon key
    → key ≢ []
    → All (Leaves key) msgs
    → handle_message
        (receive k ((sender, store_message key value) ∷ msgs))
        asker
        (find_value_message key)
      ≡ (
        receive k ((sender, store_message key value) ∷ msgs),
        write_to (codes "VALUE:" ++ value) asker ∷ [],
      )
unfolding receive
store_then_find k sender asker msgs key value h n w =
    let sent = handle_message k sender (store_message key value) in
    let found : find_value sent.0 key ≡ some value =
      handle_message_stores k sender (store_message key value) key
      ∙ rw (stored-message key value h) (ground (arith, text_eq_iff key key)) in
    answer (receive sent.0 msgs) asker key value n (receive-found sent.0 msgs key value found w)
