-- ===== src/P2p/Bootstrap.antt =====
-- src/p2p/bootstrap.go: a round of messages to the seed nodes. net.ResolveUDPAddr is a function; the
-- n-th WriteTo of a round fails if `fails n`.
use web5_mesh.Base.{ℕ, ◌+◌, Bool, Option, none, some, List, [], ◌∷◌, ◌++◌, if◌then◌else◌}
use web5_mesh.Base.Classes.{Text}
use web5_mesh.Base.Bytes.{codes}
use web5_mesh.P2p.Bucket.{UdpAddr}

module _ (resolve : Text → Option UdpAddr) (fails : ℕ → Bool) where
  -- One seed, after so many attempts to write: the attempts after it, and the datagrams that went out.
  unfoldable pub contact_seed : ℕ → Text → ℕ × List (Text × UdpAddr)
  contact_seed n seed = elim (resolve seed) [
    | none ↦ (n, [])
    | some addr ↦
        if fails n
        then (n + 1, [])
        else if fails (n + 1)
        then (n + 2, (codes "PING", addr) ∷ [])
        else (n + 2, (codes "PING", addr) ∷ (codes "FIND_NODE", addr) ∷ [])
  ]

  unfoldable pub contact_seeds : ℕ → List Text → List (Text × UdpAddr)
  unfolding contact_seed
  contact_seeds n [] = []
  contact_seeds n (seed ∷ seeds) =
      (contact_seed n seed).1 ++ contact_seeds (contact_seed n seed).0 seeds

  -- Start of the Bootstrapper.
  unfoldable pub start : List Text → List (Text × UdpAddr)
  unfolding contact_seeds
  start seeds = contact_seeds 0 seeds
