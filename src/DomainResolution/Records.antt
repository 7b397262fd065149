-- ===== src/DomainResolution/Records.antt =====
-- Records as text, and the normal form of domains (src/domain_resolution/resolver.go).
use web5_mesh.Base.{
  ℕ, ◌≡◌, refl, sym, ap, ◌∙◌, false, inl, inr, Option, some, [], ◌∷◌, ◌++◌, map, arith, ◌==◌,
  if◌then◌else◌, length, length-append, All, Bool-cases, List-cases,
}
use web5_mesh.Base.Classes.{Text}
use web5_mesh.Base.Int.{ℤ}
use web5_mesh.DomainResolution.{
  Dht, DomainRecord, is_space, lower, trim_left, trim_right, normalize, split_bars, parse_record,
  serialize_record, made_record,
}

-- No byte is a bar.
abbrev pub HasNoBar : Text → Type 0
HasNoBar = All (λ c. (c == 124) ≡ false)

split_bars-part : (s : Text) → HasNoBar s → split_bars s ≡ s ∷ []
unfolding split_bars
split_bars-part [] h = refl
split_bars-part (c ∷ s) h = rw (split_bars-part s h.1, split_bars, h.0) refl

split_bars-append : (a b : Text) → HasNoBar a → HasNoBar b → split_bars (a ++ 124 ∷ b) ≡ a ∷ b ∷ []
unfolding split_bars
split_bars-append [] b h k = rw (split_bars-part b k, split_bars) refl
split_bars-append (c ∷ a) b h k = rw (split_bars-append a b h.1 k, split_bars, h.0) refl

module _ (D : Dht) (sha256 : Text → Text) (print_int : ℤ → Text) (scan_int : Text → Option ℤ) where
  parse_record_parts :
      (now later : ℤ) (domain content did number : Text) (ttl : ℤ)
      → (length content == 0) ≡ false
      → split_bars content ≡ did ∷ number ∷ []
      → scan_int number ≡ some ttl
      → parse_record D sha256 print_int scan_int now later domain content
        ≡ inr (made_record D sha256 print_int scan_int now later domain did ttl)
  unfolding parse_record
  parse_record_parts now later domain content did number ttl h k e = rw (h, parse_record, k, e) refl

  -- What serializeRecord writes of a record whose DID has no bar, parseRecord reads back, with the
  -- DID and the TTL of the record, the domain that it is told and times of its own.
  pub parse_record-serialize_record :
      (now later : ℤ) (domain : Text) (r : DomainRecord)
      → HasNoBar r.did
      → HasNoBar (print_int r.ttl)
      → scan_int (print_int r.ttl) ≡ some r.ttl
      → parse_record D sha256 print_int scan_int now later domain
          (serialize_record D sha256 print_int scan_int r)
        ≡ inr (made_record D sha256 print_int scan_int now later domain r.did r.ttl)
  unfolding parse_record serialize_record
  parse_record-serialize_record now later domain r h k e =
      let some_bytes : (length (r.did ++ 124 ∷ print_int r.ttl) == 0) ≡ false =
        ground (arith, length-append r.did (124 ∷ print_int r.ttl)) in
      parse_record_parts now later domain (serialize_record D sha256 print_int scan_int r) r.did
        (print_int r.ttl) r.ttl some_bytes (split_bars-append r.did (print_int r.ttl) h k) e

lower-lower : (s : Text) → map lower (map lower s) ≡ map lower s
lower-lower [] = refl
lower-lower (c ∷ s) = ground (arith, lower-lower s)

lower-is_space : (c : ℕ) → is_space (lower c) ≡ is_space c
lower-is_space c = ground arith

trim_left-lower : (s : Text) → trim_left (map lower s) ≡ map lower (trim_left s)
unfolding trim_left
trim_left-lower [] = refl
trim_left-lower (c ∷ s) = elim (Bool-cases (is_space c)) [
  | inl e ↦ rw (lower-is_space c, e) (trim_left-lower s)
  | inr e ↦ rw (lower-is_space c, e) refl
]

trim_right_last : ℕ → Text → Text
trim_right_last c [] = if is_space c then [] else c ∷ []
trim_right_last c (d ∷ rest) = c ∷ d ∷ rest

trim_right_first : (c : ℕ) (s : Text) → trim_right (c ∷ s) ≡ trim_right_last c (trim_right s)
unfolding trim_right trim_right_last
trim_right_first c s = elim (List-cases (trim_right s)) [
  | inl e ↦ rw (e, trim_right) refl
  | inr (d, rest, e) ↦ rw (e, trim_right) refl
]

trim_right_last-lower :
    (c : ℕ) (s : Text) → trim_right_last (lower c) (map lower s) ≡ map lower (trim_right_last c s)
unfolding trim_right_last
trim_right_last-lower c [] = elim (Bool-cases (is_space c)) [
  | inl e ↦ rw (lower-is_space c, e) refl
  | inr e ↦ rw (lower-is_space c, e) refl
]
trim_right_last-lower c (d ∷ rest) = refl

trim_right-lower : (s : Text) → trim_right (map lower s) ≡ map lower (trim_right s)
unfolding trim_right
trim_right-lower [] = refl
trim_right-lower (c ∷ s) =
    trim_right_first (lower c) (map lower s)
    ∙ ap (trim_right_last (lower c)) (trim_right-lower s)
    ∙ trim_right_last-lower c (trim_right s)
    ∙ ap (map lower) (sym (trim_right_first c s))

trim_right_last_again :
    (c : ℕ) (s : Text) → trim_right s ≡ s → trim_right (trim_right_last c s) ≡ trim_right_last c s
unfolding trim_right trim_right_last
trim_right_last_again c [] h = elim (Bool-cases (is_space c)) [
  | inl e ↦ rw e refl
  | inr e ↦ rw e (rw e refl)
]
trim_right_last_again c (d ∷ rest) h = trim_right_first c (d ∷ rest) ∙ rw h refl

trim_right_again : (s : Text) → trim_right (trim_right s) ≡ trim_right s
unfolding trim_right
trim_right_again [] = refl
trim_right_again (c ∷ s) =
    ap trim_right (trim_right_first c s)
    ∙ trim_right_last_again c (trim_right s) (trim_right_again s)
    ∙ sym (trim_right_first c s)

trim_left_kept :
    (c : ℕ) (s : Text) → is_space c ≡ false → trim_left (trim_right_last c s) ≡ trim_right_last c s
unfolding trim_left trim_right_last
trim_left_kept c [] h = rw h (rw h refl)
trim_left_kept c (d ∷ rest) h = rw h refl

trim_left-trim_right : (s : Text) → trim_left (trim_right (trim_left s)) ≡ trim_right (trim_left s)
unfolding trim_left trim_right
trim_left-trim_right [] = refl
trim_left-trim_right (c ∷ s) = elim (Bool-cases (is_space c)) [
  | inl e ↦ rw e (trim_left-trim_right s)
  | inr e ↦ rw e (
      ap trim_left (trim_right_first c s)
      ∙ trim_left_kept c (trim_right s) e
      ∙ sym (trim_right_first c s))
]

-- A domain in normal form is its own normal form.
pub normalize-normalize : (s : Text) → normalize (normalize s) ≡ normalize s
unfolding normalize
normalize-normalize s =
    let trimmed = trim_right (trim_left s) in
    ap (λ t. map lower (trim_right t)) (trim_left-lower trimmed)
    ∙ ap (map lower) (trim_right-lower (trim_left trimmed))
    ∙ lower-lower (trim_right (trim_left trimmed))
    ∙ ap (λ t. map lower (trim_right t)) (trim_left-trim_right s)
    ∙ ap (map lower) (trim_right_again (trim_left s))
