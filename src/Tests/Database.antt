-- ===== src/Tests/Database.antt =====
-- A database that keeps its entries in a list in ascending order, in place of badger.
use web5_mesh.Base.{
  ◌≡◌, ◌≢◌, ◌⊎◌, inl, inr, refl, sym, ap, ◌∙◌, true, false, none, some, List, [], ◌∷◌, arith,
  if◌then◌else◌, Bool-cases, All, All-map, IsSorted,
}
use web5_mesh.Base.Classes.{Text, Text_eq, text_eq, text_eq_iff}
use web5_mesh.Base.Int.{pos}
use web5_mesh.Base.Bytes.{before, before_trans, before_total, before_irrefl}
use web5_mesh.Base.Map.{lookup}
use web5_mesh.Storage.Persistence.{Badger}

abbrev pub Entries : Type 0
Entries = List (Text × Text)

abbrev pub Ascends : Entries → Type 0
Ascends = IsSorted (λ a b. before a.0 b.0 ≡ true)

unfoldable pub put_at : Text → Text → Entries → Entries
put_at k v [] = (k, v) ∷ []
put_at k v ((j, w) ∷ l) =
    let rest = put_at k v l in
    if before k j then (k, v) ∷ (j, w) ∷ l else if before j k then (j, w) ∷ rest else (k, v) ∷ l

unfoldable pub take_out : Text → Entries → Entries
take_out k [] = []
take_out k ((j, w) ∷ l) = let rest = take_out k l in if text_eq j k then rest else (j, w) ∷ rest

-- The entries from a key on.
unfoldable pub from : Text → Entries → Entries
from k [] = []
from k ((j, w) ∷ l) = let rest = from k l in if before j k then rest else (j, w) ∷ rest

pub lookup-put_at : (k v : Text) (l : Entries) → lookup k (put_at k v l) ≡ some v
unfolding put_at lookup
lookup-put_at k v [] = ground (arith, text_eq_iff k k)
lookup-put_at k v ((j, w) ∷ l) =
    ground (arith, text_eq_iff k k, text_eq_iff j k, before_irrefl k, lookup-put_at k v l)

pub lookup-put_at_other :
    (j k v : Text) (l : Entries) → j ≢ k → lookup j (put_at k v l) ≡ lookup j l
unfolding put_at lookup
lookup-put_at_other j k v [] n = ground (arith, text_eq_iff k j)
lookup-put_at_other j k v ((i, w) ∷ l) n =
    ground (arith, text_eq_iff k j, before_total i k, lookup-put_at_other j k v l n)

pub lookup-take_out : (k : Text) (l : Entries) → lookup k (take_out k l) ≡ none
unfolding take_out lookup
lookup-take_out k [] = refl
lookup-take_out k ((j, w) ∷ l) = ground (arith, lookup-take_out k l)

pub lookup-take_out_other :
    (j k : Text) (l : Entries) → j ≢ k → lookup j (take_out k l) ≡ lookup j l
unfolding take_out lookup
lookup-take_out_other j k [] n = refl
lookup-take_out_other j k ((i, w) ∷ l) n =
    ground (arith, text_eq_iff i k, text_eq_iff i j, lookup-take_out_other j k l n)

pub lookup-from :
    (j k : Text) (l : Entries) → lookup j (from k l) ≡ (if before j k then none else lookup j l)
unfolding from lookup
lookup-from j k [] = ground arith
lookup-from j k ((i, w) ∷ l) = elim (Bool-cases (text_eq i j)) [
  | inl e ↦
      let same : i ≡ j = (text_eq_iff i j).0 e in
      rw same (ground (arith, text_eq_iff j j, lookup-from j k l))
  | inr e ↦ ground (arith, e, lookup-from j k l)
]

All-put_at {κ} :
    (P : Text × Text → Type κ) (k v : Text) (l : Entries)
    → P (k, v)
    → All P l
    → All P (put_at k v l)
unfolding put_at
All-put_at P k v [] p h = (p, tt)
All-put_at P k v ((j, w) ∷ l) p h = elim (Bool-cases (before k j)) [
  | inl e ↦ rw e (p, h)
  | inr e ↦ elim (Bool-cases (before j k)) [
    | inl f ↦ rw (e, f) (h.0, All-put_at P k v l p h.1)
    | inr f ↦ rw (e, f) (p, h.1)
  ]
]

pub put_at-Ascends : (k v : Text) (l : Entries) → Ascends l → Ascends (put_at k v l)
unfolding put_at
put_at-Ascends k v [] a = (tt, tt)
put_at-Ascends k v ((j, w) ∷ l) a = elim (Bool-cases (before k j)) [
  | inl e ↦ rw e (
    (
      e,
      All-map (λ b. before j b.0 ≡ true) (λ b. before k b.0 ≡ true) l
          (λ b h. before_trans k j b.0 e h) a.0,
    ),
    a,
  )
  | inr e ↦ elim (Bool-cases (before j k)) [
    | inl f ↦
        rw (e, f) (All-put_at (λ b. before j b.0 ≡ true) k v l f a.0, put_at-Ascends k v l a.1)
    | inr f ↦ let same : k ≡ j = before_total k j e f in rw (e, f) (rw same a)
  ]
]

All-take_out {κ} :
    (P : Text × Text → Type κ) (k : Text) (l : Entries) → All P l → All P (take_out k l)
unfolding take_out
All-take_out P k [] h = tt
All-take_out P k ((j, w) ∷ l) h = elim (Bool-cases (text_eq j k)) [
  | inl e ↦ rw e (All-take_out P k l h.1)
  | inr e ↦ rw e (h.0, All-take_out P k l h.1)
]

pub take_out-Ascends : (k : Text) (l : Entries) → Ascends l → Ascends (take_out k l)
unfolding take_out
take_out-Ascends k [] a = tt
take_out-Ascends k ((j, w) ∷ l) a = elim (Bool-cases (text_eq j k)) [
  | inl e ↦ rw e (take_out-Ascends k l a.1)
  | inr e ↦ rw e (All-take_out (λ b. before j b.0 ≡ true) k l a.0, take_out-Ascends k l a.1)
]

All-from {κ} : (P : Text × Text → Type κ) (k : Text) (l : Entries) → All P l → All P (from k l)
unfolding from
All-from P k [] h = tt
All-from P k ((j, w) ∷ l) h = elim (Bool-cases (before j k)) [
  | inl e ↦ rw e (All-from P k l h.1)
  | inr e ↦ rw e (h.0, All-from P k l h.1)
]

pub from-Ascends : (k : Text) (l : Entries) → Ascends l → Ascends (from k l)
unfolding from
from-Ascends k [] a = tt
from-Ascends k ((j, w) ∷ l) a = elim (Bool-cases (before j k)) [
  | inl e ↦ rw e (from-Ascends k l a.1)
  | inr e ↦ rw e (All-from (λ b. before j b.0 ≡ true) k l a.0, from-Ascends k l a.1)
]

pub from_start : (k : Text) (l : Entries) → All (λ b. before b.0 k ≡ false) (from k l)
unfolding from
from_start k [] = tt
from_start k ((j, w) ∷ l) = elim (Bool-cases (before j k)) [
  | inl e ↦ rw e (from_start k l)
  | inr e ↦ rw e (e, from_start k l)
]

-- The entries, in order.
pub record Sorted : Type 0 where
  pub entries : Entries
  pub ascends : Ascends entries

pub inr_injective : {A : Type 0} {a b : A} → ◌≡◌ {A = Text ⊎ A} (inr a) (inr b) → a ≡ b
inr_injective h = cc

-- No step fails: the errors are texts that never come.
abbrev pub database : Badger
database = record {
  Db = Sorted;
  Txn = Sorted;
  Error = Text;
  begin = λ d. d;
  commit = λ t. inr t;
  set = λ k v t.
      inr (record {
        entries = put_at k v t.entries;
        ascends = put_at-Ascends k v t.entries t.ascends;
      });
  set_entry = λ k v ttl t.
      inr (record {
        entries = put_at k v t.entries;
        ascends = put_at-Ascends k v t.entries t.ascends;
      });
  remove = λ k t.
      inr (record {
        entries = take_out k t.entries;
        ascends = take_out-Ascends k t.entries t.ascends;
      });
  get = λ k t. inr (lookup k t.entries);
  value_copy = λ v. inr (some v);
  seek = λ k t. from k t.entries;
  sizes = λ d. (pos 0, pos 0);
  shut = λ d. none;
  get-commit = λ t d k h. ap (λ (s : Sorted). inr (lookup k s.entries)) (sym (inr_injective h));
  get-set = λ k v t u h.
      ap (λ (s : Sorted). inr (lookup k s.entries)) (sym (inr_injective h))
      ∙ ap inr (lookup-put_at k v t.entries);
  get-set_other = λ j k v t u n h.
      ap (λ (s : Sorted). inr (lookup j s.entries)) (sym (inr_injective h))
      ∙ ap inr (lookup-put_at_other j k v t.entries n);
  get-remove = λ k t u h.
      ap (λ (s : Sorted). inr (lookup k s.entries)) (sym (inr_injective h))
      ∙ ap inr (lookup-take_out k t.entries);
  get-remove_other = λ j k t u n h.
      ap (λ (s : Sorted). inr (lookup j s.entries)) (sym (inr_injective h))
      ∙ ap inr (lookup-take_out_other j k t.entries n);
  seek-from = λ k t. from_start k t.entries;
  seek-IsSorted = λ k t. from-Ascends k t.entries t.ascends;
  lookup-seek = λ j k t o h. lookup-from j k t.entries ∙ rw (inr_injective h) refl;
}
