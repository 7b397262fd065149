-- ===== src/Tests/Domains.antt =====
-- Runs of the resolver of src/domain_resolution/resolver.go on a table that is a list.
use web5_mesh.Base.{
  ℕ, ◌+◌, ◌≡◌, ◌⊎◌, inl, inr, refl, ap, sym, ◌∙◌, Option, none, some, List, [], ◌∷◌, length,
  replicate,
}
use web5_mesh.Base.Classes.{Text, Text_eq}
use web5_mesh.Base.Int.{ℤ, pos, negsuc, ◌+ℤ◌, to_i64, to_u64}
use web5_mesh.Base.Bytes.{codes}
use web5_mesh.Base.Map.{lookup, insert, lookup-insert_self}
use web5_mesh.P2p.Access.{hex, hex_digit}
use web5_mesh.DomainResolution
use web5_mesh.DomainResolution.{Dht, DomainRecord, Resolver, normalize}
use web5_mesh.DomainResolution.Registry
use web5_mesh.DomainResolution.Answers
use web5_mesh.DomainResolution.Cache
use web5_mesh.DomainResolution.Staleness
use web5_mesh.Tests.Samples.{checksum}

abbrev found : Option Text → Text ⊎ Text
found none = inl []
found (some v) = inr v

-- A table in one list.
abbrev table : Dht
table = record {
  State = List (Text × Text);
  Error = Text;
  store_value = λ k v s. (insert k v s, none);
  lookup_value = λ k s. found (lookup k s);
}

-- Numbers in unary.
abbrev print : ℤ → Text
print (pos n) = replicate n 49
print (negsuc n) = 45 ∷ replicate n 49

abbrev scan : Text → Option ℤ
scan s = some (pos (length s))

abbrev empty : Resolver table checksum print scan
empty = record { dht = []; cache = []; ttl = pos 100; deletions = [] }

abbrev noon : ℕ → ℤ
noon n = pos (n + 12)

abbrev evening : ℕ → ℤ
evening n = pos (n + 18)

abbrev now_known : Resolver table checksum print scan
now_known =
    (Registry.register table checksum print scan noon empty (codes "Home.mesh") (codes "did:a")
      (pos 2)).0

resolve-register_example :
    (DomainResolution.resolve table checksum print scan evening
      (record now_known { dht = now_known.dht })
      (codes " home.MESH")).1
    ≡ inr (
        DomainResolution.made_record table checksum print scan
          (evening 1)
          (evening 2)
          (normalize (codes "Home.mesh"))
          (codes "did:a")
          (pos 2))
unfolding Registry.register normalize lookup
resolve-register_example =
    Answers.resolve-register table checksum print scan noon evening empty now_known.dht
      (codes "Home.mesh") (codes " home.MESH") (codes "did:a") (pos 2) refl
      (λ k v h. ap (λ p. found (lookup k p.0)) (sym h) ∙ ap found (lookup-insert_self k v [])) refl
      refl (refl, (refl, (refl, (refl, (refl, tt))))) (refl, (refl, tt)) refl

-- What the resolver answers when it is asked for the first time.
abbrev registered : Resolver table checksum print scan
registered =
    (Registry.register table checksum print scan noon empty (codes "home.mesh") (codes "did:a")
      (pos 2)).0

abbrev answer : DomainRecord
answer = record {
  domain = codes "home.mesh";
  did = codes "did:a";
  public_key = [];
  ip = [];
  port = pos 0;
  ttl = pos 2;
  registered_at = negsuc 999_999_986;
  expires_at = pos 2_000_000_014;
  signature = [];
}

answered :
    (DomainResolution.resolve table checksum print scan noon registered (codes "home.mesh")).1
    ≡ inr answer
unfolding DomainResolution.resolve Registry.register lookup insert hex hex_digit ◌+ℤ◌ to_i64 to_u64
answered = refl

abbrev meanwhile : List (Cache.Call table checksum print scan)
meanwhile =
    Cache.registers evening (codes "home.mesh") (codes "did:b") (pos 2)
    ∷ Cache.deletes 0
    ∷ Cache.shifts []
    ∷ []

resolve-again_example :
    let asked =
      (DomainResolution.resolve table checksum print scan noon registered (codes "home.mesh")).0 in
    (DomainResolution.resolve table checksum print scan evening
      (Cache.run table checksum print scan asked meanwhile)
      (codes " home.MESH")).1
    ≡ inr answer
unfolding Registry.register normalize lookup DomainResolution.seconds ◌+ℤ◌ to_i64
resolve-again_example =
    Staleness.resolve-again table checksum print scan noon evening registered meanwhile
      (codes "home.mesh") (codes " home.MESH") answer refl refl answered (tt, (tt, (tt, tt))) refl
      refl

abbrev calls : List (Cache.Call table checksum print scan)
calls = Cache.registers noon (codes "home.mesh") (codes "did:a") (pos 2) ∷ Cache.deletes 0 ∷ []

ran :
    (DomainResolution.resolve table checksum print scan noon
      (Cache.run table checksum print scan
        (DomainResolution.new table checksum print scan [])
        calls)
      (codes "home.mesh")).1
    ≡ inr answer
unfolding DomainResolution.resolve DomainResolution.new Cache.run lookup insert hex hex_digit ◌+ℤ◌
    to_i64 to_u64
ran = refl

run-new_example : answer.domain ≡ normalize (codes "home.mesh")
run-new_example =
    Cache.run-new table checksum print scan [] calls noon (codes "home.mesh") answer ran
