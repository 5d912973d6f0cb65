-- ===== src/Dht/Sources/Budget.antt =====
-- The learning budget of one source address.
use p2pnas.Prelude.{ℕ, suc, List, [], ◌∷◌, if◌then◌else◌}
use p2pnas.Dht.Addr.{IpAddr, ip_discrete}
use p2pnas.Dht.Sources.{SourceState, allow_learn}

-- How many of the calls are granted to `ip`, when they run in turn.
unfoldable pub grants : IpAddr → SourceState → List (IpAddr × ℕ) → ℕ
grants ip s [] = 0
grants ip s ((from, now) ∷ calls) =
    let rest = grants ip (allow_learn s from now).0 calls in
    elim (ip_discrete from ip) [
      | yes _ ↦ if (allow_learn s from now).1 then suc rest else rest
      | no _ ↦ rest
    ]
