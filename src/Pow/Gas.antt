-- ===== src/Pow/Gas.antt =====
-- The PoWManager of src/p2p/gas.go: the difficulty of each IP by its number of nodes.
use web5_mesh.Base.{
  ℕ, ◌+◌, ◌-◌, ◌≡◌, ◌≤◌, refl, ◌∙◌, Option, none, some, List, [], ◌∷◌, arith, ltb, if◌then◌else◌,
  Bool-cases, inl, inr,
}
use web5_mesh.Base.Int.{ℤ, pos, ltb_ℤ, ◌≤ℤ◌}
use web5_mesh.Base.Classes.{Text, Text_eq, text_eq, text_eq_iff}
use web5_mesh.Base.Map.{lookup, insert, lookup-insert_self, Distinct, insert-Distinct}

pub record IpLoad : Type 0 where
  pub node_count : ℤ
  pub last_seen : ℕ
  pub current_difficulty : ℕ

pub record PowManager : Type 0 where
  pub ip_load : List (Text × IpLoad)
  pub base_difficulty : ℕ

abbrev pub new_pow_manager : PowManager
new_pow_manager = record { ip_load = []; base_difficulty = 0 }

-- The switch of GetDifficulty.
unfoldable pub difficulty_for : ℤ → ℕ
difficulty_for current_nodes =
    if ltb_ℤ current_nodes (pos 3)
    then 0
    else if ltb_ℤ current_nodes (pos 6)
    then 4
    else if ltb_ℤ current_nodes (pos 11)
    then 12
    else 20

-- The entry after GetDifficulty has written its three fields.
unfoldable pub load_at : ℕ → ℤ → IpLoad
unfolding difficulty_for
load_at now current_nodes = record {
  node_count = current_nodes;
  last_seen = now;
  current_difficulty = difficulty_for current_nodes;
}

-- GetDifficulty at a time: the manager it leaves and the difficulty.
unfoldable pub get_difficulty : ℕ → PowManager → Text → ℤ → PowManager × ℕ
unfolding load_at
get_difficulty now p ip current_nodes =
    let load = load_at now current_nodes in
    (record p { ip_load = insert ip load (PowManager.ip_load p) }, IpLoad.current_difficulty load)

-- The loop of CleanupIPs.
unfoldable pub drop_old : ℕ → ℕ → List (Text × IpLoad) → List (Text × IpLoad)
drop_old now max_age [] = []
drop_old now max_age ((ip, load) ∷ rest) =
    let kept = drop_old now max_age rest in
    if ltb max_age (now - IpLoad.last_seen load) then kept else (ip, load) ∷ kept

-- CleanupIPs. Times do not run backwards: a LastSeen after `now` has age 0 or less, and a
-- negative age is never above `max_age`.
unfoldable pub cleanup_ips : ℕ → ℕ → PowManager → PowManager
unfolding drop_old
cleanup_ips now max_age p = record p { ip_load = drop_old now max_age (PowManager.ip_load p) }

drop_old-absent :
    (now max_age : ℕ) (ip : Text) (loads : List (Text × IpLoad))
    → lookup ip loads ≡ none
    → lookup ip (drop_old now max_age loads) ≡ none
unfolding drop_old lookup
drop_old-absent now max_age ip [] h = refl
drop_old-absent now max_age ip ((j, load) ∷ rest) h =
    ground (arith, drop_old-absent now max_age ip rest)

-- What a cleanup leaves of an entry.
abbrev pub kept_load : ℕ → ℕ → Option IpLoad → Option IpLoad
kept_load now max_age none = none
kept_load now max_age (some load) =
    if ltb max_age (now - IpLoad.last_seen load) then none else some load

drop_old-lookup :
    (now max_age : ℕ) (ip : Text) (loads : List (Text × IpLoad))
    → Distinct loads
    → lookup ip (drop_old now max_age loads) ≡ kept_load now max_age (lookup ip loads)
unfolding drop_old lookup
drop_old-lookup now max_age ip [] d = refl
drop_old-lookup now max_age ip ((j, load) ∷ rest) d = elim (Bool-cases (text_eq j ip)) [
  | inl e ↦
      let same = (text_eq_iff j ip).0 e in
      let gone = drop_old-absent now max_age j rest d.0 in
      let gone_too = rw same at gone in ground (arith, gone_too)
  | inr e ↦ ground (arith, drop_old-lookup now max_age ip rest d.1)
]

-- In a map without double entries CleanupIPs removes the entry of an IP exactly if it is older than
-- the limit, and keeps it unchanged otherwise.
pub cleanup_ips_exact :
    (now max_age : ℕ) (p : PowManager) (ip : Text)
    → Distinct (PowManager.ip_load p)
    → lookup ip (PowManager.ip_load (cleanup_ips now max_age p))
      ≡ kept_load now max_age (lookup ip (PowManager.ip_load p))
unfolding cleanup_ips
cleanup_ips_exact now max_age p ip d = drop_old-lookup now max_age ip (PowManager.ip_load p) d

-- More nodes never make the work lighter, whatever the two managers have recorded.
pub get_difficulty_monotone :
    (now later : ℕ) (p q : PowManager) (ip other : Text) (a b : ℤ)
    → a ≤ℤ b
    → (get_difficulty now p ip a).1 ≤ (get_difficulty later q other b).1
unfolding get_difficulty load_at difficulty_for
get_difficulty_monotone now later p q ip other a b h = ground arith

-- An IP asked for at `now` survives every cleanup at a time within the age limit of it.
pub get_difficulty_survives :
    (now later max_age : ℕ) (p : PowManager) (ip : Text) (nodes : ℤ)
    → Distinct (PowManager.ip_load p)
    → later ≤ now + max_age
    → lookup ip (PowManager.ip_load (cleanup_ips later max_age (get_difficulty now p ip nodes).0))
      ≡ some (load_at now nodes)
unfolding get_difficulty load_at
get_difficulty_survives now later max_age p ip nodes d h =
    cleanup_ips_exact later max_age (get_difficulty now p ip nodes).0 ip
      (insert-Distinct ip (load_at now nodes) (PowManager.ip_load p) d)
    ∙ ground (arith, lookup-insert_self ip (load_at now nodes) (PowManager.ip_load p))
