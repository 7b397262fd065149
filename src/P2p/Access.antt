-- ===== src/P2p/Access.antt =====
-- Who may do what: the whitelist of src/p2p/acl.go and the tickets of src/p2p/auth.go.
use web5_mesh.Base.{
  ℕ, ◌+◌, ◌/◌, ◌%◌, ◌≡◌, ◌≤◌, ◌⊎◌, ◌↔◌, refl, Bool, true, false, not, ◌||◌, Option, none, some,
  List, [], ◌∷◌, arith, ltb, if◌then◌else◌, inl, inr, length,
}
use web5_mesh.Base.Int.{ℤ}
use web5_mesh.Base.Classes.{Text, Text_eq, text_eq, text_eq_iff}
use web5_mesh.Base.Map.{lookup, insert, lookup-insert}
use web5_mesh.Base.Bytes.{codes}
use web5_mesh.Pow.Bits.{IsBytes}

-- hex.EncodeToString.
unfoldable pub hex_digit : ℕ → ℕ
hex_digit d = if ltb d 10 then 48 + d else 87 + d

unfoldable pub hex : Text → Text
unfolding hex_digit
hex [] = []
hex (b ∷ rest) = hex_digit (b / 16) ∷ hex_digit (b % 16) ∷ hex rest

-- The whitelist, a Go map with Boolean values.
abbrev pub Acl : Type 0
Acl = List (Text × Bool)

abbrev pub new_acl : Acl
new_acl = []

-- AddAuthorizedKey. Its log line slices the first eight bytes of the key, which panics on a
-- shorter one: `none`.
unfoldable pub add_authorized_key : Text → Acl → Option Acl
unfolding hex
add_authorized_key pub_key acl =
    if ltb (length pub_key) 8 then none else some (insert (hex pub_key) true acl)

unfoldable pub is_authorized : Text → Acl → Bool
unfolding hex
is_authorized pub_key acl = elim (lookup (hex pub_key) acl) [ none ↦ false | some b ↦ b ]

-- CheckHandshake, without its log lines.
unfoldable pub check_handshake : Text → Acl → Bool
unfolding is_authorized
check_handshake remote_pub acl = if not (is_authorized remote_pub acl) then false else true

hex_digit_injective : (a b : ℕ) → hex_digit a ≡ hex_digit b → a ≡ b
unfolding hex_digit
hex_digit_injective a b h = ground arith

hex_injective : (s t : Text) → IsBytes s → IsBytes t → hex s ≡ hex t → s ≡ t
unfolding hex
hex_injective [] [] v w h = refl
hex_injective [] (y ∷ t) v w h = cc
hex_injective (x ∷ s) [] v w h = cc
hex_injective (x ∷ s) (y ∷ t) v w h = ground (
  arith,
  h,
  hex_digit_injective (x / 16) (y / 16),
  hex_digit_injective (x % 16) (y % 16),
  hex_injective s t v.1 w.1,
)

-- Adding a key of at least eight bytes authorizes this key and no other.
pub check_handshake-add_authorized_key :
    (key other : Text) (acl : Acl)
    → 8 ≤ length key
    → IsBytes key
    → IsBytes other
    → (after : Acl) × (add_authorized_key key acl ≡ some after)
      × (check_handshake other after ≡ (text_eq key other || check_handshake other acl))
unfolding add_authorized_key check_handshake is_authorized
check_handshake-add_authorized_key key other acl h v w =
    let same : text_eq (hex key) (hex other) ≡ text_eq key other = ground (
      arith,
      text_eq_iff (hex key) (hex other),
      text_eq_iff key other,
      hex_injective key other v w,
    ) in
    (
      insert (hex key) true acl,
      ground (arith, h),
      ground (arith, lookup-insert (hex key) (hex other) true acl, same),
    )

-- A role is a string: "core", "relay", "free" or whatever a ticket says.
pub record Ticket : Type 0 where
  pub did : Text
  pub role : Text
  pub expires_at : ℕ
  pub max_nodes : ℤ

pub record SignedTicket : Type 0 where
  pub ticket : Text
  pub signature : Text

pub data AuthError : Type 0 where
  invalid_signature : AuthError
  malformed : AuthError
  expired_ticket : AuthError

-- ed25519.Verify and json.Unmarshal.
module _ (verify : Text → Text → Text → Bool) (unmarshal : Text → Option Ticket) where
  unfoldable pub validate_ticket : ℕ → SignedTicket → Text → AuthError ⊎ Ticket
  validate_ticket now signed core_public_key =
      if not (verify core_public_key (SignedTicket.ticket signed) (SignedTicket.signature signed))
      then inl invalid_signature
      else elim (unmarshal (SignedTicket.ticket signed)) [
        | none ↦ inl malformed
        | some ticket ↦
            if ltb (Ticket.expires_at ticket) now then inl expired_ticket else inr ticket
      ]

  -- ValidateTicket accepts a ticket exactly if the signature on its bytes verifies, the bytes read
  -- as this ticket, and it has not expired.
  pub validate_ticket_exact :
      (now : ℕ) (signed : SignedTicket) (core_public_key : Text) (ticket : Ticket)
      → (validate_ticket now signed core_public_key ≡ inr ticket) ↔ (
          (verify core_public_key (SignedTicket.ticket signed) (SignedTicket.signature signed)
            ≡ true)
          × (unmarshal (SignedTicket.ticket signed) ≡ some ticket)
          × (now ≤ Ticket.expires_at ticket))
  unfolding validate_ticket
  validate_ticket_exact now signed core_public_key ticket = ground arith

-- GetRoleForConnection, of the ticket; the IP and the DID are only logged.
unfoldable pub get_role_for_connection : Option Ticket → Text
get_role_for_connection none = codes "free"
get_role_for_connection (some ticket) = Ticket.role ticket
