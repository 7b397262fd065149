-- ===== src/Reputation/Node.antt =====
-- src/reputation/score.go, NodeReputation: one node's record and its methods. Times are
-- nanoseconds, 0 for the zero time; `now` is what time.Now() answers.
pub mod Laws
use web5_mesh.Base.{
  ℕ, ◌+◌, ◌-◌, ◌≡◌, ◌≤◌, refl, Bool, true, false, Option, none, some, List, [], ◌∷◌, arith, ltb,
  leb, ◌==◌, if◌then◌else◌, u64,
}
use web5_mesh.Base.Int.{ℤ, pos, ltb_ℤ, add_i64, to_i64, to_u64}
use web5_mesh.Base.Classes.{Text}

pub record NodeReputation : Type 0 where
  pub node_id : Text
  pub did : Text
  pub score : ℕ
  pub base_score : ℕ
  pub relay_score : ℕ
  pub storage_score : ℕ
  pub uptime_seconds : ℕ
  pub last_seen : ℕ
  pub first_seen : ℕ
  pub success_count : ℕ
  pub failure_count : ℕ
  pub relay_count : ℕ
  pub storage_count : ℕ
  pub last_penalty : ℕ
  pub penalty_count : ℕ
  pub is_active : Bool
  pub is_blacklisted : Bool
  pub blacklist_reason : Text

-- The zero value of the struct, from which the literals of the source start.
abbrev pub zero_value : NodeReputation
zero_value = record {
  node_id = [];
  did = [];
  score = 0;
  base_score = 0;
  relay_score = 0;
  storage_score = 0;
  uptime_seconds = 0;
  last_seen = 0;
  first_seen = 0;
  success_count = 0;
  failure_count = 0;
  relay_count = 0;
  storage_count = 0;
  last_penalty = 0;
  penalty_count = 0;
  is_active = false;
  is_blacklisted = false;
  blacklist_reason = [];
}

unfoldable pub get_score : NodeReputation → ℕ
get_score nr = nr.score

-- The two tests of UpdateScore, on an int64.
unfoldable pub clamp_score : ℤ → ℤ
clamp_score s =
    let raised = if ltb_ℤ s (pos 1) then pos 1 else s in
    if ltb_ℤ (pos 1000) raised then pos 1000 else raised

unfoldable pub update_score : NodeReputation → ℤ → NodeReputation
unfolding clamp_score add_i64 to_i64 to_u64
update_score nr delta = record nr { score = to_u64 (clamp_score (add_i64 (to_i64 nr.score) delta)) }

unfoldable pub record_success : ℕ → NodeReputation → NodeReputation
record_success now nr = record nr { success_count = u64 (nr.success_count + 1); last_seen = now }

unfoldable pub record_failure : ℕ → NodeReputation → NodeReputation
record_failure now nr = record nr { failure_count = u64 (nr.failure_count + 1); last_seen = now }

unfoldable pub record_relay : NodeReputation → NodeReputation
record_relay nr = record nr { relay_count = u64 (nr.relay_count + 1) }

unfoldable pub record_storage : NodeReputation → NodeReputation
record_storage nr = record nr { storage_count = u64 (nr.storage_count + 1) }

unfoldable pub apply_penalty : ℕ → NodeReputation → Text → ℕ → NodeReputation
apply_penalty now nr reason points =
    let score = if ltb points nr.score then nr.score - points else 1 in
    record nr {
      penalty_count = u64 (nr.penalty_count + 1);
      last_penalty = now;
      score = score;
      is_active = if ltb score 100 then false else nr.is_active;
    }

unfoldable pub blacklist : NodeReputation → Text → NodeReputation
blacklist nr reason = record nr {
  is_blacklisted = true;
  blacklist_reason = reason;
  is_active = false;
  score = 1;
}
