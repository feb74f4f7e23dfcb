-- ===== src/Benchmarks/Runner.antt =====
-- apps/backend/src/services/benchmark-runner.ts: the run of a benchmark. The two tables of the database that the
-- runner writes are part of the state, and so are the controllers: an `AbortController` is a number, and
-- `aborted` holds those on which `abort` was called. Between two steps of a run the callers of the service may
-- act: the cancellations that come while a run waits are lists of run ids. A write takes effect when it is
-- called, and what comes while it is awaited follows it. A measured scenario has one wait, for its requests; the
-- waits for the writes of its rows are left out. Which requests succeed, and whether a model is found, are the
-- environment's.
pub mod Ends
pub mod Scenarios
use sardeenz.Base.{
  ◌==◌, if◌then◌else◌, any, ℕ, ◌+◌, String, Bool, true, false, not, ◌&&◌, ◌||◌, Option, none, some,
  List, [], ◌∷◌, string_key,
}
use sardeenz.Base.Dict
use sardeenz.Base.Dict.{Dict}

pub data RunStatus : Type 0 where
  pending running completed failed cancelled : RunStatus

pub data ScenarioStatus : Type 0 where
  waiting measured done_with broken : ScenarioStatus

pub record Runner : Type 0 where
  pub runs : Dict String RunStatus
  pub scenarios : Dict String ScenarioStatus
  pub running_benchmarks : Dict String ℕ
  pub aborted : List ℕ
  pub next : ℕ

-- What the runner uses of a `BenchmarkScenario`, and whether `resolveBaseUrl` finds its model.
pub record Scenario : Type 0 where
  pub id : String
  pub warmup_requests : ℕ
  pub has_url : Bool

pub data Mode : Type 0 where
  isolated contention : Mode

-- `updateRunStatus` and `updateScenarioStatus`, of rows that exist.
abbrev pub to_status : RunStatus → RunStatus → RunStatus
to_status status old = status

abbrev pub to_scenario : ScenarioStatus → ScenarioStatus → ScenarioStatus
to_scenario status old = status

unfoldable pub update_run_status : String → RunStatus → Runner → Runner
update_run_status id status r = record r { runs = Dict.modify id (to_status status) r.runs }

unfoldable pub update_scenario_status : String → ScenarioStatus → Runner → Runner
update_scenario_status id status r = record r {
  scenarios = Dict.modify id (to_scenario status) r.scenarios;
}

unfoldable pub is_aborted : ℕ → Runner → Bool
is_aborted c r = any (λ d. d == c) r.aborted

-- `cancelBenchmark`.
unfoldable pub cancel_benchmark : String → Runner → Runner × Bool
cancel_benchmark id r = elim (Dict.get id r.running_benchmarks) [
  | none ↦ (r, false)
  | some c ↦ (
    update_run_status id cancelled (record r {
      aborted = c ∷ r.aborted;
      running_benchmarks = Dict.delete id r.running_benchmarks;
    }),
    true,
  )
]

unfoldable pub is_benchmark_running : String → Runner → Bool
is_benchmark_running id r = Dict.has id r.running_benchmarks

-- What comes in while a run waits.
unfoldable pub cancel_each : List String → Runner → Runner
cancel_each [] r = r
cancel_each (id ∷ ids) r = cancel_each ids (cancel_benchmark id r).0

-- `executeWarmupPhase`, up to its requests: whether the scenario's model is found.
unfoldable pub warmup_begins : Scenario → Bool
warmup_begins s = s.has_url

-- Its end: a scenario with no warm-up requests does not look at the controller.
unfoldable pub warmup_succeeds : ℕ → Scenario → Runner → Bool
warmup_succeeds c s r = warmup_begins s && (s.warmup_requests == 0 || not (is_aborted c r))

unfoldable pub all_warm : ℕ → List Scenario → Runner → Bool
all_warm c [] r = true
all_warm c (s ∷ ss) r = warmup_succeeds c s r && all_warm c ss r

unfoldable pub has_warmup : List Scenario → Bool
has_warmup ss = any (λ s. not (s.warmup_requests == 0)) ss

-- `executeMeasuredPhase`, before its requests and after them.
unfoldable pub measure_begin : Scenario → Runner → Runner
measure_begin s r = update_scenario_status s.id (if s.has_url then measured else broken) r

unfoldable pub measure_end : ℕ → Scenario → Runner → Runner
measure_end c s r =
    if not s.has_url
    then r
    else update_scenario_status s.id (if is_aborted c r then broken else done_with) r

-- A scenario, and the cancellations that come while it is measured.
abbrev pub Measured : Type 0
Measured = Scenario × List String

-- The loop of the isolated mode.
unfoldable pub measure_isolated : ℕ → List Measured → Runner → Runner
measure_isolated c [] r = r
measure_isolated c ((s, acts) ∷ ms) r =
    let rest = measure_isolated c ms (measure_end c s (cancel_each acts (measure_begin s r))) in
    if is_aborted c r then r else rest

-- The parallel mode: every scenario begins, and they end in the order of the list.
unfoldable pub begin_each : List Measured → Runner → Runner
begin_each [] r = r
begin_each ((s, acts) ∷ ms) r = begin_each ms (measure_begin s r)

unfoldable pub end_each : ℕ → List Measured → Runner → Runner
end_each c [] r = r
end_each c ((s, acts) ∷ ms) r = end_each c ms (measure_end c s (cancel_each acts r))

unfoldable pub measure : Mode → ℕ → List Measured → Runner → Runner
measure isolated c ms r = measure_isolated c ms r
measure contention c ms r = end_each c ms (begin_each ms r)

pub record Plan : Type 0 where
  pub run_id : String
  pub mode : Mode
  pub scenarios : List Measured
  -- What comes in while the run is read, while it is marked as running, while the scenarios warm up, while the rows are read
  -- again at the end, and while the last status is written.
  pub loading_acts : List String
  pub starting_acts : List String
  pub warmup_acts : List String
  pub reading_acts : List String
  pub ending_acts : List String

unfoldable pub only_scenarios : List Measured → List Scenario
only_scenarios [] = []
only_scenarios ((s, acts) ∷ ms) = s ∷ only_scenarios ms

-- The last write of the `try` or of its `catch`, the wait for it, and then `finally`.
unfoldable pub finish : String → RunStatus → List String → Runner → Runner
finish id status acts r =
    let r' = cancel_each acts (update_run_status id status r) in
    record r' { running_benchmarks = Dict.delete id r'.running_benchmarks }

-- Whether the warm-up phase goes through, where there is one.
unfoldable pub warms_up : ℕ → List Scenario → Runner → Bool
warms_up c ss r = not (has_warmup ss) || (all_warm c ss r && not (is_aborted c r))

-- `getRunWithDetails` before the last write; where the row is gone nothing is written.
unfoldable pub complete_run : Plan → Runner → Runner
complete_run p r =
    if Dict.has p.run_id r.runs
    then finish p.run_id completed p.ending_acts (cancel_each p.reading_acts r)
    else record r { running_benchmarks = Dict.delete p.run_id r.running_benchmarks }

unfoldable pub after_warmup : ℕ → Plan → Runner → Runner
after_warmup c p r =
    let end = complete_run p (measure p.mode c p.scenarios r) in
    if warms_up c (only_scenarios p.scenarios) r
    then end
    else finish p.run_id failed p.ending_acts r

-- The run as it is marked as running, after the wait for that write.
unfoldable pub begin_run : Plan → Runner → Runner
begin_run p r = cancel_each p.starting_acts (
    update_run_status p.run_id running (record r {
      running_benchmarks = Dict.set p.run_id r.next r.running_benchmarks;
      next = r.next + 1;
    }))

-- The run from its controller on.
unfoldable pub execute : Plan → Runner → Runner
execute p r =
    let begun = begin_run p r in
    after_warmup r.next p
      (if has_warmup (only_scenarios p.scenarios) then cancel_each p.warmup_acts begun else begun)

pub data Refusal : Type 0 where
  not_found not_pending : Refusal

-- `startBenchmark`: the run as `getRunWithDetails` reads it.
unfoldable pub start_of : Plan → Runner → Option RunStatus → Runner × Option Refusal
start_of p r none = (r, some not_found)
start_of p r (some pending) = (execute p r, none)
start_of p r (some running) = (r, some not_pending)
start_of p r (some completed) = (r, some not_pending)
start_of p r (some failed) = (r, some not_pending)
start_of p r (some cancelled) = (r, some not_pending)

unfoldable pub start_benchmark : Plan → Runner → Runner × Option Refusal
start_benchmark p r = start_of p (cancel_each p.loading_acts r) (Dict.get p.run_id r.runs)
