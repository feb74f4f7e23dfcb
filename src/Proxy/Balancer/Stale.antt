-- ===== src/Proxy/Balancer/Stale.antt =====
-- proxy-router.ts, `WeightedRoundRobin.select`: its cache, where the entries change at one version of the
-- table.
use sardeenz.Base.{length, get_elem?, ℕ, ◌%◌, String, ◌≡◌, none, List, ◌∷◌, arith, string_key}
use sardeenz.Base.Dict
use sardeenz.Base.Dict.{get-set}
use sardeenz.Types.{RoutingEntry}
use sardeenz.Proxy.Balancer.{or_zero, Weighted, expand, expanded_for, select_many, select}

-- When nothing is cached for the name: once the weighted balancer has selected among several entries for a
-- version of the table, its next selection among several other entries, at the same version, still goes
-- round the first ones.
pub select_stale :
    (name : String) (a b c d : RoutingEntry) (es fs : List RoutingEntry) (v : ℕ) (w : Weighted)
    → Dict.get name w.cached ≡ none
    → let xs = expand (a ∷ b ∷ es) in
      let w' = (select name (a ∷ b ∷ es) v w).0 in
      (select name (c ∷ d ∷ fs) v w').1
      ≡ get_elem? xs (or_zero (Dict.get name w'.counters) % length xs)
unfolding select select_many expanded_for
select_stale name a b c d es fs v w h =
    ground
      (arith, get-set name name (record { entries = expand (a ∷ b ∷ es); version = v }) w.cached)
