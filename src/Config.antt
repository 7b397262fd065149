-- ===== src/Config.antt =====
-- The node configuration of src/config/config.go: Validate, the mode tests and the hardware
-- profile. Of NodeConfig the record has the fields that these, ParseFlags and the start of a node
-- read or write.
pub mod Flags
use web5_mesh.Base.{
  ℕ, ◌≡◌, refl, Bool, true, false, ◌&&◌, ◌||◌, List, [], ◌++◌, arith, leb, if◌then◌else◌, if_intro,
}
use web5_mesh.Base.Int.{ℤ, pos, ltb_ℤ, ◌≤ℤ◌}
use web5_mesh.Base.Classes.{Text, text_eq}
use web5_mesh.Base.Bytes.{codes}

pub record NodeConfig : Type 0 where
  pub mode : Text
  pub hardware : Text
  pub udp_port : ℤ
  pub tcp_port : ℤ
  pub replication_factor : ℤ
  pub pow_difficulty : ℤ
  pub memory_limit_mb : ℤ
  pub data_dir : Text
  pub node_name : Text
  pub hardware_auto : Bool
  pub max_connections : ℤ
  pub nat_auto_discover : Bool
  pub relay_server : Text
  pub identity_file : Text
  pub max_goroutines : ℤ
  pub enable_metrics : Bool
  pub metrics_port : ℤ
  pub seed_nodes : List Text
  pub log_level : Text
  pub verbose : Bool

-- DefaultConfig.
abbrev pub default_config : NodeConfig
default_config = record {
  mode = codes "full";
  hardware = codes "unknown";
  udp_port = pos 4242;
  tcp_port = pos 4243;
  replication_factor = pos 3;
  pow_difficulty = pos 16;
  memory_limit_mb = pos 0;
  data_dir = codes "./data";
  node_name = codes "MaIA-Mesh-Node";
  hardware_auto = true;
  max_connections = pos 1024;
  nat_auto_discover = true;
  relay_server = [];
  identity_file = [];
  max_goroutines = pos 1000;
  enable_metrics = true;
  metrics_port = pos 2112;
  seed_nodes = [];
  log_level = codes "info";
  verbose = false;
}

unfoldable pub is_mode : Text → Bool
is_mode mode =
    text_eq mode (codes "full")
    || text_eq mode (codes "relay")
    || text_eq mode (codes "bunker")
    || text_eq mode (codes "light")

unfoldable pub valid_port : ℤ → ℤ → ℤ
valid_port port fallback =
    if ltb_ℤ port (pos 1024) || ltb_ℤ (pos 65535) port then fallback else port

unfoldable pub valid_replication : ℤ → ℤ
valid_replication factor =
    let factor = if ltb_ℤ factor (pos 1) then pos 3 else factor in
    if ltb_ℤ (pos 10) factor then pos 10 else factor

unfoldable pub valid_difficulty : ℤ → ℤ
valid_difficulty difficulty =
    let difficulty = if ltb_ℤ difficulty (pos 4) then pos 4 else difficulty in
    if ltb_ℤ (pos 32) difficulty then pos 32 else difficulty

unfoldable pub valid_memory : ℤ → ℤ
valid_memory limit = if ltb_ℤ (pos 0) limit && ltb_ℤ limit (pos 256) then pos 256 else limit

-- Validate, which never fails.
unfoldable pub validate : NodeConfig → NodeConfig
unfolding is_mode valid_port valid_replication valid_difficulty valid_memory
validate c = record c {
  mode = if is_mode (NodeConfig.mode c) then NodeConfig.mode c else codes "full";
  udp_port = valid_port (NodeConfig.udp_port c) (pos 4242);
  tcp_port = valid_port (NodeConfig.tcp_port c) (pos 4243);
  replication_factor = valid_replication (NodeConfig.replication_factor c);
  pow_difficulty = valid_difficulty (NodeConfig.pow_difficulty c);
  memory_limit_mb = valid_memory (NodeConfig.memory_limit_mb c);
}

-- detectHardware, of the number of processors; getTotalMemory always gives 8192.
unfoldable pub detect_hardware : ℕ → NodeConfig → NodeConfig
detect_hardware cpus c =
    let memory : ℕ = 8192 in
    record c {
      hardware =
          if leb 16 cpus && leb 64 memory
          then codes "xeon"
          else if leb 4 cpus && leb 8 memory
          then codes "desktop"
          else if leb 4 cpus && leb 4 memory
          then codes "mobile"
          else if leb 2 cpus && leb 1 memory
          then codes "tvbox"
          else codes "unknown";
    }

unfoldable pub is_relay_node : NodeConfig → Bool
is_relay_node c = text_eq (NodeConfig.mode c) (codes "relay")

unfoldable pub is_bunker_mode : NodeConfig → Bool
is_bunker_mode c = text_eq (NodeConfig.mode c) (codes "bunker")

unfoldable pub is_light_node : NodeConfig → Bool
is_light_node c = text_eq (NodeConfig.mode c) (codes "light")

unfoldable pub get_data_path : NodeConfig → Text → Text
get_data_path c subdir =
    if text_eq subdir []
    then NodeConfig.data_dir c
    else NodeConfig.data_dir c ++ codes "/" ++ subdir

abbrev pub Within : ℕ → ℕ → ℤ → Type 0
Within low high n = (pos low ≤ℤ n) × (n ≤ℤ pos high)

-- The ranges that the rest of the program relies on.
pub record IsValid (c : NodeConfig) : Type 0 where
  pub mode : is_mode c.mode ≡ true
  pub udp_port : Within 1024 65535 c.udp_port
  pub tcp_port : Within 1024 65535 c.tcp_port
  pub replication_factor : Within 1 10 c.replication_factor
  pub pow_difficulty : Within 4 32 c.pow_difficulty
  pub memory_limit_mb :
      (ltb_ℤ (pos 0) c.memory_limit_mb && ltb_ℤ c.memory_limit_mb (pos 256)) ≡ false

is_mode_full : is_mode (codes "full") ≡ true
unfolding is_mode
is_mode_full = refl

-- Validate leaves a known mode, ports from 1024 to 65535, a replication factor from 1 to 10, a
-- difficulty from 4 to 32 and no memory limit from 1 to 255.
pub validate-IsValid : (c : NodeConfig) → IsValid (validate c)
unfolding validate valid_port valid_replication valid_difficulty valid_memory
validate-IsValid c = record {
  mode =
      if_intro (λ m. is_mode m ≡ true) (is_mode c.mode) c.mode (codes "full") (λ e. e)
        (λ _. is_mode_full);
  udp_port = ground arith;
  tcp_port = ground arith;
  replication_factor = ground arith;
  pow_difficulty = ground arith;
  memory_limit_mb = ground arith;
}

valid_port_kept : (port fallback : ℤ) → Within 1024 65535 port → valid_port port fallback ≡ port
unfolding valid_port
valid_port_kept port fallback w = ground (arith, w)

valid_replication_kept : (n : ℤ) → Within 1 10 n → valid_replication n ≡ n
unfolding valid_replication
valid_replication_kept n w = ground (arith, w)

valid_difficulty_kept : (n : ℤ) → Within 4 32 n → valid_difficulty n ≡ n
unfolding valid_difficulty
valid_difficulty_kept n w = ground (arith, w)

valid_memory_kept : (n : ℤ) → (ltb_ℤ (pos 0) n && ltb_ℤ n (pos 256)) ≡ false → valid_memory n ≡ n
unfolding valid_memory
valid_memory_kept n e = rw e refl

valid_kept : (c : NodeConfig) → IsValid c → validate c ≡ c
unfolding validate
valid_kept c w = λ i. record c {
  mode = (if w.mode i then c.mode else codes "full");
  udp_port = valid_port_kept c.udp_port (pos 4242) w.udp_port i;
  tcp_port = valid_port_kept c.tcp_port (pos 4243) w.tcp_port i;
  replication_factor = valid_replication_kept c.replication_factor w.replication_factor i;
  pow_difficulty = valid_difficulty_kept c.pow_difficulty w.pow_difficulty i;
  memory_limit_mb = valid_memory_kept c.memory_limit_mb w.memory_limit_mb i;
}

-- Validate changes nothing in a configuration that it has validated.
pub validate_idempotent : (c : NodeConfig) → validate (validate c) ≡ validate c
validate_idempotent c = valid_kept (validate c) (validate-IsValid c)
