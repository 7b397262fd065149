-- ===== src/Core/Node.antt =====
-- src/core/node.go, SovereignNode, and the handlers of src/core/health.go. The node's store and
-- document store are those of its file system: one object each. The network of initP2P is told by
-- its outcome: the routing table, or none if the socket cannot be opened. The wait group is empty.
use web5_mesh.Base.{
  ℕ, ◌⊎◌, inl, inr, Bool, true, false, Option, none, some, [], ◌++◌, if◌then◌else◌,
}
use web5_mesh.Base.Classes.{Text, text_eq}
use web5_mesh.Base.Bytes.{codes}
use web5_mesh.Base.Int.{ℤ}
use web5_mesh.Config.{NodeConfig, default_config, validate, get_data_path}
use web5_mesh.Crypto.Identity.{Ed25519, Identity, new_identity, get_did_string}
use web5_mesh.Storage.Store
use web5_mesh.Storage.Persistence
use web5_mesh.Storage.Persistence.{Badger, StoreError, PersistenceStore, default_store_options}
use web5_mesh.Storage.ReplicatedFs
use web5_mesh.Storage.ReplicatedFs.{
  Outcome, done, failed, ReplicatedFs, FsError, FsOptions, default_options,
}
use web5_mesh.P2p.Kademlia as Kad
use web5_mesh.P2p.Kademlia.{Kademlia}

pub data NodeError (E : Type 0) : Type 0 where
  no_identity : NodeError E
  no_store : StoreError E → NodeError E
  no_files : NodeError E
  already_running : NodeError E

module _ (B : Badger) (E : Ed25519) (sha256 base58 : Text → Text) where
  pub record SovereignNode : Type 0 where
    pub identity : Identity
    pub did : Text
    pub config : NodeConfig
    pub storage : ReplicatedFs B
    pub start_time : ℕ
    pub stop_closed : Bool
    pub is_running : Bool
    -- The routing table, and whether the transport has been closed.
    pub kademlia : Option Kademlia
    pub transport_closed : Bool

  abbrev pub Failure : Type 0
  Failure = NodeError (Badger.Error B)

  -- initIdentity: the name of the configuration, or a name that stands for none.
  unfoldable pub init_identity : ℕ → Ed25519.Entropy E → NodeConfig → Option Identity
  unfolding new_identity
  init_identity now r cfg =
      new_identity E sha256 base58 now r
        (if text_eq cfg.node_name [] then codes "MaIA-Node" else cfg.node_name)

  abbrev pub files_of : Outcome (Badger.Error B) (ReplicatedFs B) → Failure ⊎ ReplicatedFs B
  files_of (done fs) = inr fs
  files_of _ = inl no_files

  -- initStorage, with badger.Open.
  unfoldable pub init_storage :
      (Text → Bool → Bool → ℤ → ℤ → ℤ → Badger.Error B ⊎ Badger.Db B)
      → NodeConfig
      → Failure ⊎ ReplicatedFs B
  unfolding default_store_options get_data_path Persistence.new default_options ReplicatedFs.new
      Store.new
  init_storage open_db cfg =
      elim (Persistence.new B open_db
        (some (default_store_options (get_data_path cfg (codes "badger"))))) [
          | inl e ↦ inl (no_store e)
          | inr (store, collects) ↦
              files_of (ReplicatedFs.new B (default_options B (some store) (some Store.new)))
        ]

  -- NewSovereignNode; the configuration may be nil.
  unfoldable pub new :
      ℕ
      → Ed25519.Entropy E
      → (Text → Bool → Bool → ℤ → ℤ → ℤ → Badger.Error B ⊎ Badger.Db B)
      → (NodeConfig → Identity → Option Kademlia)
      → Option NodeConfig
      → Failure ⊎ SovereignNode
  unfolding validate init_identity init_storage get_did_string
  new now r open_db init_p2p given =
      let cfg = validate (elim given [ none ↦ default_config | some c ↦ c ]) in
      elim (init_identity now r cfg) [
        | none ↦ inl no_identity
        | some id ↦ elim (init_storage open_db cfg) [
          | inl e ↦ inl e
          | inr fs ↦ inr (record {
            identity = id;
            did = get_did_string E sha256 base58 id;
            config = cfg;
            storage = fs;
            start_time = now;
            stop_closed = false;
            is_running = false;
            kademlia = init_p2p cfg id;
            transport_closed = false;
          })
        ]
      ]

  unfoldable pub start : SovereignNode → SovereignNode × Option Failure
  start n =
      if n.is_running then (n, some already_running) else (record n { is_running = true }, none)

  abbrev pub stopped_table : Option Kademlia → Option Kademlia
  stopped_table none = none
  stopped_table (some k) = some (Kad.stop k)

  -- Stop; `none` is the panic of closing a channel a second time. Close of the file system does
  -- nothing, and the errors of the other Close calls are dropped.
  unfoldable pub stop : SovereignNode → Option SovereignNode
  unfolding Kad.stop Persistence.close
  stop n =
      let files = n.storage in
      if n.is_running
      then (if n.stop_closed
          then none
          else some (record n {
            stop_closed = true;
            kademlia = stopped_table n.kademlia;
            transport_closed = elim n.kademlia [ none ↦ n.transport_closed | some k ↦ true ];
            storage = record files { store = (Persistence.close B files.store).0 };
            is_running = false;
          }))
      else some n

  -- The HTTP status of the handlers of SovereignNode, and of those of HealthServer.
  abbrev pub ok : ℕ
  ok = 200

  abbrev pub service_unavailable : ℕ
  service_unavailable = 503

  unfoldable pub node_liveness : SovereignNode → ℕ × Text
  node_liveness n = (ok, codes "{\"status\":\"alive\"}")

  unfoldable pub node_readiness : SovereignNode → ℕ × Text
  node_readiness n = (ok, codes "{\"status\":\"ready\"}")

  unfoldable pub node_health : SovereignNode → ℕ × Text
  node_health n = (ok, codes "{\"status\":\"healthy\",\"did\":\"" ++ n.did ++ codes "\"}")

  unfoldable pub server_liveness : SovereignNode → ℕ × Text
  server_liveness n =
      if n.is_running
      then (ok, codes "{\"status\":\"alive\"}")
      else (service_unavailable, codes "{\"status\":\"dead\"}")

  unfoldable pub server_readiness : SovereignNode → ℕ × Text
  server_readiness n =
      if n.is_running
      then (ok, codes "{\"status\":\"ready\"}")
      else (service_unavailable, codes "{\"status\":\"not ready\"}")
