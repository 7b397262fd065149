-- ===== src/P2p/Nat.antt =====
-- Public addresses by STUN: src/p2p/nat.go and src/p2p/stun.go. The network and the package
-- pion/stun are told by their outcomes, step by step; a STUN address is an IP and a port.
use web5_mesh.Base.{
  ℕ, ◌*◌, ◌⊎◌, inl, inr, Bool, true, false, Option, none, some, ◌==◌, if◌then◌else◌, List, [], ◌∷◌,
}
use web5_mesh.Base.Classes.{Text, text_eq}
use web5_mesh.Base.Bytes.{codes}

-- The steps of an exchange with a STUN server, in their order.
pub data Step : Type 0 where
  resolved_local dialed deadline_set resolved_server written read decoded : Step

abbrev pub Address : Type 0
Address = Text × ℕ

-- What happened: whether a step fails, and the two attributes of the answer.
pub record Exchange : Type 0 where
  pub fails : Step → Bool
  pub xor_address : Option Address
  pub mapped_address : Option Address

-- The first of these steps that fails.
unfoldable pub first_failure : (Step → Bool) → List Step → Option Step
first_failure fails [] = none
first_failure fails (s ∷ steps) = if fails s then some s else first_failure fails steps

pub record NatTraversal : Type 0 where
  pub public_ip : Text
  pub public_port : ℕ
  pub stun_server : Text

unfoldable pub new_nat_traversal : Text → NatTraversal
new_nat_traversal stun_server = record {
  public_ip = [];
  public_port = 0;
  stun_server = stun_server;
}

-- DiscoverPublicIP: whether it succeeds, and what it leaves.
unfoldable pub discover_public_ip : Exchange → NatTraversal → NatTraversal × Bool
unfolding first_failure
discover_public_ip x n = elim (first_failure x.fails (dialed ∷ written ∷ read ∷ decoded ∷ [])) [
  | some s ↦ (n, false)
  | none ↦ elim x.xor_address [
    | none ↦ (n, false)
    | some (ip, port) ↦ (record n { public_ip = ip; public_port = port }, true)
  ]
]

pub record StunClient : Type 0 where
  pub server_addr : Text
  pub timeout : ℕ

-- NewSTUNClient, with the timeout in nanoseconds.
unfoldable pub new_stun_client : Text → ℕ → StunClient
new_stun_client server_addr timeout = record {
  server_addr = if text_eq server_addr [] then codes "stun.l.google.com:19302" else server_addr;
  timeout = if timeout == 0 then 5 * 1_000_000_000 else timeout;
}

-- What ExternalIP fails at.
pub data StunError : Type 0 where
  step_failed : Step → StunError
  no_address : StunError

unfoldable pub external_ip : Exchange → StunError ⊎ Text
unfolding first_failure
external_ip x =
    elim (first_failure x.fails
      (resolved_local ∷ dialed ∷ deadline_set ∷ resolved_server ∷ written ∷ read ∷ decoded ∷ [])) [
        | some s ↦ inl (step_failed s)
        | none ↦ elim x.xor_address [
          | some (ip, port) ↦ inr ip
          | none ↦ elim x.mapped_address [ some (ip, port) ↦ inr ip | none ↦ inl no_address ]
        ]
      ]
