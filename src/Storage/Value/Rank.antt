-- ===== src/Storage/Value/Rank.antt =====
-- The order by which CRDTValue.Merge of src/storage/crdt.go picks a winner: version, then
-- timestamp, then the hash of the data.
use web5_mesh.Base.{
  ℕ, ◌≤◌, ◌≡◌, Bool, true, false, arith, ltb, ◌==◌, if◌then◌else◌, Bool-cases, inl, inr, some,
}
use web5_mesh.Base.Classes.{Text}
use web5_mesh.Base.Bytes.{before, before_asymm, before_trans, before_total, before_irrefl}
use web5_mesh.Storage.Value.{Value, merge}

pub record Rank : Type 0 where
  pub version : ℕ
  pub timestamp : ℕ
  pub hash : Text

-- The first rank loses against the second.
unfoldable pub loses : Rank → Rank → Bool
loses a b =
    if ltb a.version b.version
    then true
    else if b.version == a.version
    then (if ltb a.timestamp b.timestamp
        then true
        else if b.timestamp == a.timestamp
        then before a.hash b.hash
        else false)
    else false

pub loses_asymm : (a b : Rank) → loses a b ≡ true → loses b a ≡ false
unfolding loses
loses_asymm a b h = ground (arith, before_asymm a.hash b.hash)

pub loses_trans : (a b c : Rank) → loses a b ≡ true → loses b c ≡ true → loses a c ≡ true
unfolding loses
loses_trans a b c h k = ground (arith, before_trans a.hash b.hash c.hash)

pub loses_total : (a b : Rank) → loses a b ≡ false → loses b a ≡ false → a ≡ b
unfolding loses
loses_total a b h k = ground (arith, before_total a.hash b.hash)

unfoldable pub winner : Rank → Rank → Rank
winner a b = if loses a b then b else a

pub winner_comm : (a b : Rank) → winner a b ≡ winner b a
unfolding winner
winner_comm a b = ground (arith, loses_asymm a b, loses_asymm b a, loses_total a b)

pub winner_assoc : (a b c : Rank) → winner (winner a b) c ≡ winner a (winner b c)
unfolding winner
winner_assoc a b c = ground (
  arith,
  loses_trans a b c,
  loses_trans a c b,
  loses_trans b a c,
  loses_trans b c a,
  loses_trans c a b,
  loses_trans c b a,
  loses_asymm a b,
  loses_asymm b c,
  loses_asymm a c,
  loses_asymm c a,
  loses_asymm c b,
  loses_asymm b a,
  loses_total a b,
  loses_total b c,
  loses_total a c,
)

loses_irrefl : (a : Rank) → loses a a ≡ false
unfolding loses
loses_irrefl a = ground (arith, before_irrefl a.hash)

-- The winner loses against neither.
pub winner_upper :
    (a b : Rank)
    → (loses (winner a b) a ≡ false)
      × (loses (winner a b) b ≡ false)
      × (a.version ≤ (winner a b).version)
      × (b.version ≤ (winner a b).version)
unfolding winner
winner_upper a b = elim (Bool-cases (loses a b)) [
  | inl e ↦ rw e (loses_asymm a b e, loses_irrefl b, unfold loses in ground arith, omega arith)
  | inr e ↦ rw e (loses_irrefl a, e, omega arith, unfold loses in ground arith)
]

module _ (sha256 : Text → Text) where
  abbrev pub rank : Value → Rank
  rank c = record { version = c.version; timestamp = c.timestamp; hash = sha256 c.content }

  -- Merge keeps the winning rank.
  pub rank-merge :
      (c other : Value) → rank (merge sha256 c (some other)).0 ≡ winner (rank c) (rank other)
  unfolding merge winner loses
  rank-merge c other = ground arith

  -- Merge keeps the winner's data.
  pub content-merge :
      (c other : Value)
      → (merge sha256 c (some other)).0.content
        ≡ (if loses (rank c) (rank other) then other.content else c.content)
  unfolding merge loses
  content-merge c other = ground arith
