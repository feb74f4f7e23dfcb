-- ===== src/Proxy/Balancer.antt =====
-- proxy-router.ts, `RoundRobinBalancer` and `WeightedRoundRobin`. `selectInstance` and `select` index an array,
-- and give `none` where the source would give `undefined`.
pub mod Fairness
pub mod Stale
use sardeenz.Base.{
  ◌==◌, if◌then◌else◌, length, get_elem?, replicate, ℕ, ◌+◌, ◌%◌, String, Option, none, some, List,
  [], ◌∷◌, ◌++◌, string_key,
}
use sardeenz.Base.Dict
use sardeenz.Base.Text.{is_blank}
use sardeenz.Base.Dict.{Dict}
use sardeenz.Types.{RoutingEntry}
use sardeenz.Models.Store.{ModelInstance}

abbrev pub RoundRobin : Type 0
RoundRobin = Dict String ℕ

abbrev pub or_zero : Option ℕ → ℕ
or_zero none = 0
or_zero (some n) = n

-- An empty list of instances is the source's `throw`, and `none` here.
unfoldable pub select_instance : List ModelInstance → RoundRobin → RoundRobin × Option ModelInstance
select_instance [] m = (m, none)
select_instance (i ∷ []) m = (m, some i)
select_instance (i ∷ j ∷ is) m =
    let instances = i ∷ j ∷ is in
    let current = or_zero (Dict.get i.model_path m) in
    (
      Dict.set i.model_path ((current + 1) % length instances) m,
      get_elem? instances (current % length instances),
    )

unfoldable pub reset_index : Option String → RoundRobin → RoundRobin
reset_index none m = []
reset_index (some path) m = if is_blank path then [] else Dict.delete path m

pub record Cached : Type 0 where
  pub entries : List RoutingEntry
  pub version : ℕ

pub record Weighted : Type 0 where
  pub counters : Dict String ℕ
  pub cached : Dict String Cached

unfoldable pub new_weighted : Weighted
new_weighted = record { counters = []; cached = [] }

-- Each entry as often as it weighs.
unfoldable pub expand : List RoutingEntry → List RoutingEntry
expand [] = []
expand (e ∷ es) = replicate e.weight e ++ expand es

-- The expanded list: the cached one if it is of this version of the table.
unfoldable pub expanded_for : String → List RoutingEntry → ℕ → Weighted → Cached
expanded_for name es version w = elim (Dict.get name w.cached) [
  | none ↦ record { entries = expand es; version = version }
  | some c ↦ if c.version == version then c else record { entries = expand es; version = version }
]

-- Several entries, or none.
unfoldable pub select_many :
    String → List RoutingEntry → ℕ → Weighted → Weighted × Option RoutingEntry
select_many name es version w =
    let c = expanded_for name es version w in
    let idx = or_zero (Dict.get name w.counters) in
    (
      record {
        counters = Dict.set name ((idx + 1) % length c.entries) w.counters;
        cached = Dict.set name c w.cached;
      },
      get_elem? c.entries (idx % length c.entries),
    )

unfoldable pub select : String → List RoutingEntry → ℕ → Weighted → Weighted × Option RoutingEntry
select name (e ∷ []) version w = (w, some e)
select name es version w = select_many name es version w

unfoldable pub reset_weighted : Option String → Weighted → Weighted
reset_weighted none w = new_weighted
reset_weighted (some name) w =
    if is_blank name
    then new_weighted
    else record { counters = Dict.delete name w.counters; cached = Dict.delete name w.cached }
