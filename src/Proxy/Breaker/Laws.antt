-- ===== src/Proxy/Breaker/Laws.antt =====
-- proxy-router.ts, `CircuitBreaker`: when it is open.
use sardeenz.Base.{
  ltb, leb, if◌then◌else◌, Option-cases, same, length, ℕ, ◌+◌, ◌≤◌, ◌<◌, String, ◌≡◌, ◌≢◌, inl, inr,
  Bool, false, not, ◌&&◌, Option, none, some, List, [], ◌∷◌, ◌++◌, arith, string_key,
}
use sardeenz.Base.Dict
use sardeenz.Base.Dict.{get-set, get-delete}
use sardeenz.Proxy.Breaker.{
  Breaker, BreakerState, failure_threshold, cooldown_ms, is_open, recent, failed_state, fresh,
  record_failure, record_success, in_cooldown,
}

abbrev pub open_at : ℕ → Option BreakerState → Bool
open_at now none = false
open_at now (some b) = in_cooldown now b

-- The failures that count against a pod.
abbrev pub failures_of : Option BreakerState → List ℕ
failures_of none = []
failures_of (some b) = b.failures

-- To ask about a pod changes the answer for no pod, now or later.
pub is_open_again :
    (pod other : String) (now later : ℕ) (m : Breaker)
    → now ≤ later
    → (is_open other later (is_open pod now m).0).1 ≡ (is_open other later m).1
unfolding is_open
is_open_again pod other now later m h = ground (arith, get-delete pod other m)

is_open_lem :
    (pod : String) (now : ℕ) (m : Breaker) → (is_open pod now m).1 ≡ open_at now (Dict.get pod m)
unfolding is_open
is_open_lem pod now m = ground arith

get-record_failure :
    (pod other : String) (now : ℕ) (m : Breaker)
    → Dict.get other (record_failure pod now m) ≡ (
        if same pod other
        then some (failed_state now (elim (Dict.get pod m) [ none ↦ fresh | some b ↦ b ]))
        else Dict.get other m)
unfolding record_failure
get-record_failure pod other now m = ground (
  arith,
  get-set pod other (failed_state now (elim (Dict.get pod m) [ none ↦ fresh | some b ↦ b ])) m,
)

-- A failure of a pod whose breaker is closed opens it, until 15 s later, exactly if with the failures that
-- are remembered of the pod at least three fall within the last 30 s.
pub record_failure-is_open :
    (pod : String) (now later : ℕ) (m : Breaker)
    → (is_open pod now m).1 ≡ false
    → now ≤ later
    → (is_open pod later (record_failure pod now m)).1 ≡ (
        leb failure_threshold (length (recent now (failures_of (Dict.get pod m) ++ now ∷ [])))
        && ltb later (now + cooldown_ms))
unfolding failed_state
record_failure-is_open pod now later m h t = ground (
  arith,
  is_open_lem pod now m,
  is_open_lem pod later (record_failure pod now m),
  get-record_failure pod pod now m,
)

-- A failure of one pod leaves the breakers of the others alone.
pub record_failure_others :
    (pod other : String) (now later : ℕ) (m : Breaker)
    → pod ≢ other
    → (is_open other later (record_failure pod now m)).1 ≡ (is_open other later m).1
record_failure_others pod other now later m h = ground (
  arith,
  is_open_lem other later m,
  is_open_lem other later (record_failure pod now m),
  get-record_failure pod other now m,
)

length-recent-snoc :
    (now : ℕ) (ts : List ℕ) → length (recent now (ts ++ now ∷ [])) ≡ length (recent now ts) + 1
length-recent-snoc now [] = ground arith
length-recent-snoc now (t ∷ ts) = ground (arith, length-recent-snoc now ts)

abbrev pub Few : BreakerState → Type 0
Few b = length b.failures < failure_threshold

-- Fewer than three failures are ever remembered of a pod.
pub record_failure-Few :
    (pod : String) (now : ℕ) (m : Breaker)
    → Dict.AllValues Few m
    → Dict.AllValues Few (record_failure pod now m)
unfolding record_failure failed_state
record_failure-Few pod now m h = elim (Option-cases (Dict.get pod m)) [
  | inl e ↦
      rw (e, record_failure)
        (Dict.set-AllValues Few pod (failed_state now fresh) m (ground arith) h)
  | inr (b, e) ↦
      rw (e, record_failure) (Dict.set-AllValues Few pod (failed_state now b) m (ground arith) h)
]

-- A success closes the breaker of its pod and leaves the others alone.
pub record_success-is_open :
    (pod other : String) (now : ℕ) (m : Breaker)
    → (is_open other now (record_success pod m)).1
      ≡ (not (same pod other) && (is_open other now m).1)
unfolding is_open record_success
record_success-is_open pod other now m = ground (arith, get-delete pod other m)
