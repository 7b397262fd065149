-- ===== src/Core/Lifecycle.antt =====
-- The node that NewSovereignNode makes, and the node that is started after a Stop
-- (src/core/node.go).
use web5_mesh.Base.{
  ℕ, ◌≡◌, ◌≢◌, ◌≤◌, ◌⊎◌, inl, inr, refl, ap, Bool, true, false, Option, none, some, [], Bool-cases,
  Option-cases,
}
use web5_mesh.Base.Classes.{Text, Text_eq}
use web5_mesh.Base.Bytes.{codes}
use web5_mesh.Base.Int.{ℤ}
use web5_mesh.Base.Map.{lookup}
use web5_mesh.Config.{
  NodeConfig, default_config, validate, IsValid, validate-IsValid, get_data_path,
}
use web5_mesh.Crypto.Identity.{Ed25519, Identity}
use web5_mesh.P2p.Kademlia.{Kademlia}
use web5_mesh.Storage.Store
use web5_mesh.Storage.Persistence
use web5_mesh.Storage.Persistence.{
  Badger, StoreError, store_closed, PersistenceStore, default_store_options,
}
use web5_mesh.Storage.Persistence.Laws.{Sum-cases}
use web5_mesh.Storage.ReplicatedFs.{
  Outcome, done, failed, panicked, unfinished, chunk_not_persisted, ReplicatedFs, default_options,
}
use web5_mesh.Storage.ReplicatedFs.Files.{write_file, read_file}
use web5_mesh.Storage.ReplicatedFs.Opening.{IsWellFormed}
use web5_mesh.Storage.ReplicatedFs.Restart.{new-IsWellFormed}
use web5_mesh.Storage.ReplicatedFs.Deletion.{failed_write_reads_empty}
use web5_mesh.Core.Node.{
  SovereignNode, new, init_identity, init_storage, files_of, stopped_table, start, stop,
}

inr_injective : {A C : Type 0} {a b : C} → ◌≡◌ {A = A ⊎ C} (inr a) (inr b) → a ≡ b
inr_injective h = cc

module _ (B : Badger) (E : Ed25519) (sha256 base58 : Text → Text) where
  abbrev State : Type 0
  State = SovereignNode B E sha256 base58

  files_of-done :
      (o : Outcome (Badger.Error B) (ReplicatedFs B)) (fs : ReplicatedFs B)
      → files_of B E sha256 base58 o ≡ inr fs
      → o ≡ done fs
  files_of-done (done x) fs h = ap done (inr_injective h)
  files_of-done (failed e) fs h = absurd (cc h)
  files_of-done panicked fs h = absurd (cc h)
  files_of-done unfinished fs h = absurd (cc h)

  init_storage-IsWellFormed :
      (open_db : Text → Bool → Bool → ℤ → ℤ → ℤ → Badger.Error B ⊎ Badger.Db B) (cfg : NodeConfig)
      (fs : ReplicatedFs B)
      → init_storage B E sha256 base58 open_db cfg ≡ inr fs
      → IsWellFormed B fs × (3 ≤ fs.replication_factor)
  unfolding init_storage
  init_storage-IsWellFormed open_db cfg fs h =
      elim (Sum-cases (
        Persistence.new B open_db
          (some (default_store_options (get_data_path cfg (codes "badger")))))) [
            | inl (e, q) ↦ absurd (cc (rw (q, init_storage) at h))
            | inr (r, q) ↦
                new-IsWellFormed B (default_options B (some r.0) (some Store.new)) fs
                  (files_of-done _ fs (rw (q, init_storage) at h))
          ]

  -- What NewSovereignNode makes.
  pub record IsNew (n : State) : Type 0 where
    pub config : IsValid n.config
    pub storage : IsWellFormed B n.storage
    pub replicated : 3 ≤ n.storage.replication_factor
    pub idle : n.is_running ≡ false
    pub fresh : n.stop_closed ≡ false

  -- A node that NewSovereignNode makes has a valid configuration, whatever it is given, and a
  -- well-formed file system with at least three replicas, and does not run.
  pub new-IsNew :
      (now : ℕ) (r : Ed25519.Entropy E)
      → (open_db : Text → Bool → Bool → ℤ → ℤ → ℤ → Badger.Error B ⊎ Badger.Db B)
      → (init_p2p : NodeConfig → Identity → Option Kademlia) (given : Option NodeConfig) (n : State)
      → new B E sha256 base58 now r open_db init_p2p given ≡ inr n
      → IsNew n
  unfolding new
  new-IsNew now r open_db init_p2p given n h =
      let cfg = validate (elim given [ none ↦ default_config | some c ↦ c ]) in
      elim (Option-cases (init_identity B E sha256 base58 now r cfg)) [
        | inl e ↦ absurd (cc (rw (e, new) at h))
        | inr (id, e) ↦ elim (Sum-cases (init_storage B E sha256 base58 open_db cfg)) [
          | inl (x, q) ↦ absurd (cc (rw (e, new, q) at h))
          | inr (fs, q) ↦
              let same = inr_injective (rw (e, new, q) at h) in
              let (well, replicas) = init_storage-IsWellFormed open_db cfg fs q in
              rw (← same) (record {
                config = validate-IsValid (elim given [ none ↦ default_config | some c ↦ c ]);
                storage = well;
                replicated = replicas;
                idle = refl;
                fresh = refl;
              })
        ]
      ]

  -- Stop on a running node whose channel is open closes the store and the channel; Start then makes
  -- the node run again without an error, but the next Stop panics, and a WriteFile of some bytes to
  -- a new path fails and leaves an empty file.
  pub stop-start :
      (hash : Text → Text) (time_string : ℕ → Text) (clock : ℕ → ℕ) (n : State)
      (path content owner : Text)
      → n.is_running ≡ true
      → n.stop_closed ≡ false
      → lookup path n.storage.path_index ≡ none
      → content ≢ []
      → (m : State) × (stop B E sha256 base58 n ≡ some m)
        × ((start B E sha256 base58 m).1 ≡ none)
        × ((start B E sha256 base58 m).0.is_running ≡ true)
        × (stop B E sha256 base58 (start B E sha256 base58 m).0 ≡ none)
        × (let w =
              write_file B hash time_string clock
                (start B E sha256 base58 m).0.storage
                path
                content
                owner in
            (w.1 ≡ failed (chunk_not_persisted store_closed)) × (read_file B w.0 path ≡ done []))
  unfolding stop start Persistence.close
  stop-start hash time_string clock n path content owner run fresh new_path some_bytes =
      let files = n.storage in
      let shut : ReplicatedFs B = record files { store = (Persistence.close B files.store).0 } in
      let m : State = record n {
        stop_closed = true;
        kademlia = stopped_table B E sha256 base58 n.kademlia;
        transport_closed = elim n.kademlia [ none ↦ n.transport_closed | some k ↦ true ];
        storage = shut;
        is_running = false;
      } in
      (
        m,
        rw (run, fresh, stop) refl,
        refl,
        refl,
        refl,
        failed_write_reads_empty B hash time_string clock shut path content owner
            (close_closed files.store) new_path some_bytes,
      )
    where
      close_closed : (s : PersistenceStore B) → (Persistence.close B s).0.closed ≡ true
      close_closed s = elim (Bool-cases s.closed) [ inl e ↦ rw e refl | inr e ↦ rw e refl ]
