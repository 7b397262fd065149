-- ===== src/Tests/Reputation.antt =====
-- Small reputation systems of src/reputation/score.go.
use web5_mesh.Base.{
  any, ℕ, ◌+◌, ◌-◌, ◌≡◌, ◌≤◌, true, some, List, [], ◌∷◌, arith, refl, IsSorted, All, Perm, max, min,
  map, take,
}
use web5_mesh.Base.Int.{pos, negsuc}
use web5_mesh.Base.Classes.{Text, Text_eq, text_eq}
use web5_mesh.Base.Bytes.{codes}
use web5_mesh.Base.Map.{lookup}
use web5_mesh.Reputation.Node
use web5_mesh.Reputation.Node.{NodeReputation, zero_value}
use web5_mesh.Reputation.Node.Laws.{update_score_moves}
use web5_mesh.Reputation.System as Sys
use web5_mesh.Reputation.System.{
  System, Stats, apply_update, penalize, get_score, blacklist_node, is_blacklisted, get_top_relays,
}
use web5_mesh.Reputation.System.Steps.{registers, penalizes, decays, step, Reach}
use web5_mesh.Reputation.System.Blacklist.{Reach-is_blacklisted}
use web5_mesh.Reputation.System.Counts.{IsCounted, count, step-IsCounted}
use web5_mesh.Reputation.System.Relays.{IsRelay, is_relay, get_top_relays_ranks}
use web5_mesh.Tests.Samples.{whole}

abbrev rep : NodeReputation
rep = record zero_value { node_id = codes "n"; score = 600; relay_count = 3; is_active = true }

abbrev sys : System ℕ
sys = record {
  reputations = (codes "n", rep) ∷ [];
  base_score = 100;
  max_score = 1000;
  min_score = 1;
  decay_rate = 5;
  penalty_multiplier = 2;
  update_ch = [];
  stats = record { total_nodes = 1; active_nodes = 1; blacklisted_nodes = 0; average_score = 600 };
}

update_score_moves_example :
    ((Node.update_score rep (pos 500)).score ≡ max 1 (min 1000 (600 + 500)))
    × ((Node.update_score rep (negsuc 500)).score ≡ max 1 (600 - (500 + 1)))
update_score_moves_example = update_score_moves rep 500 (omega arith) (omega arith)

abbrev after_calls : System ℕ
after_calls = step whole (step whole (Sys.new whole) (registers 1 (codes "n") [])) (decays 90000)

abbrev banned : System ℕ
banned = blacklist_node whole sys (codes "n") (codes "spam")

Reach-is_blacklisted_example :
    is_blacklisted whole (step whole banned (registers 9 (codes "n") [])) (codes "n") ≡ true
Reach-is_blacklisted_example =
    Reach-is_blacklisted whole true sys (codes "n") (codes "spam")
      {rs' = step whole banned (registers 9 (codes "n") [])}
      (Reach.calls (registers 9 (codes "n") []) Reach.start)

sys-IsCounted : IsCounted sys
unfolding count
sys-IsCounted = record { total = refl; active = refl; banned = refl }

step-IsCounted_example : IsCounted (step whole sys (penalizes 7 (codes "n") [] 50))
step-IsCounted_example = step-IsCounted whole sys (penalizes 7 (codes "n") [] 50) sys-IsCounted

get_top_relays_ranks_example :
    (ranking : List (Text × ℕ)) × (get_top_relays whole sys (pos 5)
      ≡ some (map (λ r. r.0) (take 5 ranking)))
    × Perm ranking (Sys.relays sys.reputations)
    × ((id : Text)
        → any (λ (r : Text × ℕ). text_eq id r.0) ranking ≡ is_relay (lookup id sys.reputations))
    × All (IsRelay sys.reputations) ranking
    × IsSorted (λ a b. b.1 ≤ a.1) ranking
unfolding lookup
get_top_relays_ranks_example = get_top_relays_ranks whole sys 5 (refl, tt)
