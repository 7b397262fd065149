-- ===== src/Config/Flags.antt =====
-- ParseFlags of src/config/config.go, and what main.go makes of the configuration before it starts
-- a node.
use web5_mesh.Base.{
  ℕ, ◌≡◌, refl, Bool, false, Option, none, some, List, [], ◌∷◌, ◌++◌, ◌==◌, if◌then◌else◌,
  Bool-cases, inl, inr, All,
}
use web5_mesh.Base.Int.{ℤ, pos}
use web5_mesh.Base.Classes.{Text, text_eq}
use web5_mesh.Base.Bytes.{codes}
use web5_mesh.Config.{NodeConfig, is_mode, validate, detect_hardware, valid_difficulty}

-- The flags of the command line, none where it does not give one.
pub record Flags : Type 0 where
  pub mode : Option Text
  pub udp_port : Option ℤ
  pub tcp_port : Option ℤ
  pub max_connections : Option ℤ
  pub nat_auto : Option Bool
  pub relay : Option Text
  pub data_dir : Option Text
  pub replication : Option ℤ
  pub identity : Option Text
  pub pow_difficulty : Option ℤ
  pub max_goroutines : Option ℤ
  pub memory_limit : Option ℤ
  pub metrics_port : Option ℤ
  pub seeds : Option Text
  pub log_level : Option Text
  pub verbose : Option Bool

-- A flag's value after flag.Parse.
abbrev given {ℓ} : {A : Type ℓ} → Option A → A → A
given none fallback = fallback
given (some v) fallback = v

-- strings.Split(s, ",").
unfoldable pub split_commas : Text → List Text
split_commas [] = [] ∷ []
split_commas (c ∷ s) = elim (split_commas s) [
  | [] ↦ []
  | ◌∷◌ part parts ↦ if c == 44 then [] ∷ part ∷ parts else (c ∷ part) ∷ parts
]

-- The assignments of ParseFlags; the default of the mode is "full", whatever the configuration says.
unfoldable pub assign_flags : Flags → NodeConfig → NodeConfig
unfolding split_commas
assign_flags f c =
    let seeds = given f.seeds [] in
    record c {
      mode = given f.mode (codes "full");
      udp_port = given f.udp_port c.udp_port;
      tcp_port = given f.tcp_port c.tcp_port;
      max_connections = given f.max_connections c.max_connections;
      nat_auto_discover = given f.nat_auto c.nat_auto_discover;
      relay_server = given f.relay c.relay_server;
      data_dir = given f.data_dir c.data_dir;
      replication_factor = given f.replication c.replication_factor;
      identity_file = given f.identity c.identity_file;
      pow_difficulty = given f.pow_difficulty c.pow_difficulty;
      max_goroutines = given f.max_goroutines c.max_goroutines;
      memory_limit_mb = given f.memory_limit c.memory_limit_mb;
      metrics_port = given f.metrics_port c.metrics_port;
      log_level = given f.log_level c.log_level;
      verbose = given f.verbose c.verbose;
      seed_nodes = if text_eq seeds [] then c.seed_nodes else split_commas seeds;
    }

-- ParseFlags, on a machine with so many processors.
unfoldable pub parse_flags : ℕ → Flags → NodeConfig → NodeConfig
unfolding assign_flags detect_hardware
parse_flags cpus f c =
    let assigned = assign_flags f c in
    if assigned.hardware_auto then detect_hardware cpus assigned else assigned

-- The lines of main that follow: the pure mode, then Validate, which never fails.
unfoldable pub pure_mode : NodeConfig → NodeConfig
pure_mode c =
    if text_eq c.mode (codes "pure")
    then record c { pow_difficulty = pos 0; relay_server = []; nat_auto_discover = false }
    else c

unfoldable pub prepare : NodeConfig → NodeConfig
unfolding pure_mode validate
prepare c = validate (pure_mode c)

-- The names joined by commas.
abbrev pub join : Text → List Text → Text
join name [] = name
join name (next ∷ names) = name ++ 44 ∷ join next names

-- No byte is a comma.
abbrev pub HasNoComma : Text → Type 0
HasNoComma = All (λ c. (c == 44) ≡ false)

split_commas-one : (s : Text) → HasNoComma s → split_commas s ≡ s ∷ []
unfolding split_commas
split_commas-one [] h = refl
split_commas-one (c ∷ s) h = rw (split_commas-one s h.1, split_commas, h.0) refl

split_commas-append :
    (s rest part : Text) (parts : List Text)
    → HasNoComma s
    → split_commas rest ≡ part ∷ parts
    → split_commas (s ++ 44 ∷ rest) ≡ s ∷ part ∷ parts
unfolding split_commas
split_commas-append [] rest part parts h e = rw (e, split_commas) refl
split_commas-append (c ∷ s) rest part parts h e =
    rw (split_commas-append s rest part parts h.1 e, split_commas, h.0) refl

-- The names of a list without commas, joined by commas, are split again.
pub split_commas-join :
    (name : Text) (names : List Text)
    → All HasNoComma (name ∷ names)
    → split_commas (join name names) ≡ name ∷ names
split_commas-join name [] h = split_commas-one name h.0
split_commas-join name (next ∷ names) h =
    split_commas-append name (join next names) next names h.0 (split_commas-join next names h.1)

-- The pure mode does not survive main: whatever the flags, a node that is started in mode "pure"
-- runs in mode "full" and with a difficulty of 4, without a relay server.
pub prepare-parse_flags :
    (cpus : ℕ) (f : Flags) (c : NodeConfig)
    → f.mode ≡ some (codes "pure")
    → let started = prepare (parse_flags cpus f c) in
      (started.mode ≡ codes "full")
      × (started.pow_difficulty ≡ pos 4)
      × (started.relay_server ≡ [])
      × (started.nat_auto_discover ≡ false)
unfolding prepare parse_flags is_mode valid_difficulty
prepare-parse_flags cpus f c h = elim (Bool-cases c.hardware_auto) [
  | inl e ↦ rw (e, parse_flags, h) (refl, refl, refl, refl)
  | inr e ↦ rw (e, parse_flags, h) (refl, refl, refl, refl)
]
