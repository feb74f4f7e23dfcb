-- ===== src/Proxy/Breaker.antt =====
-- proxy-router.ts, `CircuitBreaker`. `now` is the clock in milliseconds, and is positive.
pub mod Laws
use sardeenz.Base.{
  ltb, leb, if◌then◌else◌, length, filter, ℕ, ◌+◌, ◌-◌, String, Bool, true, false, ◌&&◌, none, some,
  List, [], ◌∷◌, ◌++◌, string_key,
}
use sardeenz.Base.Dict
use sardeenz.Base.Dict.{Dict}

abbrev pub failure_threshold : ℕ
failure_threshold = 3

abbrev pub window_ms : ℕ
window_ms = 30_000

abbrev pub cooldown_ms : ℕ
cooldown_ms = 15_000

pub record BreakerState : Type 0 where
  pub failures : List ℕ
  pub cooldown_until : ℕ

abbrev pub Breaker : Type 0
Breaker = Dict String BreakerState

-- The two tests of `isOpen` on a state.
abbrev pub in_cooldown : ℕ → BreakerState → Bool
in_cooldown now b = ltb 0 b.cooldown_until && ltb now b.cooldown_until

abbrev pub cooldown_over : ℕ → BreakerState → Bool
cooldown_over now b = ltb 0 b.cooldown_until && leb b.cooldown_until now

unfoldable pub is_open : String → ℕ → Breaker → Breaker × Bool
is_open pod now m = elim (Dict.get pod m) [
  | none ↦ (m, false)
  | some b ↦
      if in_cooldown now b
      then (m, true)
      else if cooldown_over now b
      then (Dict.delete pod m, false)
      else (m, false)
]

-- Failures that are not yet out of the window.
abbrev pub recent : ℕ → List ℕ → List ℕ
recent now ts = filter (λ t. ltb (now - t) window_ms) ts

unfoldable pub failed_state : ℕ → BreakerState → BreakerState
failed_state now b =
    let pruned = recent now (b.failures ++ now ∷ []) in
    if leb failure_threshold (length pruned)
    then record { failures = []; cooldown_until = now + cooldown_ms }
    else record b { failures = pruned }

abbrev pub fresh : BreakerState
fresh = record { failures = []; cooldown_until = 0 }

unfoldable pub record_failure : String → ℕ → Breaker → Breaker
record_failure pod now m = elim (Dict.get pod m) [
  | none ↦ Dict.set pod (failed_state now fresh) m
  | some b ↦ Dict.set pod (failed_state now b) m
]

unfoldable pub record_success : String → Breaker → Breaker
record_success pod m = Dict.delete pod m

unfoldable pub remove_pod : String → Breaker → Breaker
remove_pod pod m = Dict.delete pod m

unfoldable pub clear : Breaker → Breaker
clear m = []
