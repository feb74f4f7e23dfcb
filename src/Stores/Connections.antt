-- ===== src/Stores/Connections.antt =====
-- apps/backend/src/stores/metrics-store.ts: the connections of each instance, which the drain of a move counts.
use sardeenz.Base.{ltb, ℕ, ◌+◌, ◌-◌, String, Bool, Option, none, some, string_key}
use sardeenz.Base.Dict
use sardeenz.Base.Dict.{Dict}

abbrev pub Connections : Type 0
Connections = Dict String ℕ

-- The signed change of a count.
pub data Delta : Type 0 where
  plus minus : ℕ → Delta

-- `Math.max(0, current + delta)`.
unfoldable pub change : Delta → ℕ → ℕ
change (plus n) current = current + n
change (minus n) current = current - n

abbrev or_none : Option ℕ → ℕ
or_none none = 0
or_none (some n) = n

unfoldable pub get_instance_connections : String → Connections → ℕ
get_instance_connections id c = or_none (Dict.get id c)

unfoldable pub update_instance_connections : String → Delta → Connections → Connections
unfolding get_instance_connections change
update_instance_connections id delta c =
    Dict.set id (change delta (get_instance_connections id c)) c

unfoldable pub has_active_connections : String → Connections → Bool
unfolding get_instance_connections
has_active_connections id c = ltb 0 (get_instance_connections id c)

unfoldable pub clear_instance_connections : String → Connections → Connections
clear_instance_connections id c = Dict.delete id c
