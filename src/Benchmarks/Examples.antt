-- ===== src/Benchmarks/Examples.antt =====
-- benchmark-runner.ts: the theorems at concrete inputs.
use sardeenz.Base.{
  if◌then◌else◌, string_discrete, same, ℕ, String, ◌≡◌, refl, true, false, some, List, [], ◌∷◌,
  string_key,
}
use sardeenz.Base.Dict
use sardeenz.Base.Dict.{map_some}
use sardeenz.Benchmarks.Statistics.{summarize, summary_of}
use sardeenz.Benchmarks.Statistics.Percentiles.{IsOrdered, summarize-IsOrdered}
use sardeenz.Benchmarks.Runner.{
  Runner, Scenario, Plan, pending, broken, isolated, to_scenario, measure, start_benchmark,
  is_aborted, waiting,
}
use sardeenz.Benchmarks.Runner.Ends.{Finishes, start_benchmark_ends}
use sardeenz.Benchmarks.Runner.Scenarios.{
  measure_isolated_cancelled, scenarios-measure_isolated, result,
}

abbrev latencies : List ℕ
latencies = 30 ∷ 10 ∷ 20 ∷ []

sorted_latencies : summarize latencies ≡ some (summary_of 10 (20 ∷ 30 ∷ []))
unfolding summarize sardeenz.Benchmarks.Statistics.summary_of_sorted sardeenz.Base.Sort.sort
sorted_latencies = refl

summarize-IsOrdered_example : IsOrdered (summary_of 10 (20 ∷ 30 ∷ []))
summarize-IsOrdered_example =
    summarize-IsOrdered latencies (summary_of 10 (20 ∷ 30 ∷ [])) sorted_latencies

abbrev first : Scenario
first = record { id = "s1"; warmup_requests = 2; has_url = true }

abbrev second : Scenario
second = record { id = "s2"; warmup_requests = 0; has_url = true }

abbrev runner : Runner
runner = record {
  runs = ("r", pending) ∷ [];
  scenarios = ("s1", waiting) ∷ ("s2", waiting) ∷ [];
  running_benchmarks = [];
  aborted = [];
  next = 4;
}

abbrev plan : Plan
plan = record {
  run_id = "r";
  mode = isolated;
  scenarios = (first, "r" ∷ []) ∷ (second, []) ∷ [];
  loading_acts = [];
  starting_acts = "q" ∷ [];
  warmup_acts = [];
  reading_acts = "r" ∷ [];
  ending_acts = "r" ∷ [];
}

is_pending : Dict.get "r" runner.runs ≡ some pending
unfolding Dict.get string_discrete
is_pending = refl

start_benchmark_ends_example : Finishes plan (start_benchmark plan runner).0
start_benchmark_ends_example = start_benchmark_ends plan runner is_pending

abbrev begun : Runner
begun = record runner { running_benchmarks = ("r", 4) ∷ []; next = 5 }

begun_running : Dict.get "r" begun.running_benchmarks ≡ some 4
unfolding Dict.get string_discrete
begun_running = refl

begun_not_aborted : is_aborted 4 begun ≡ false
unfolding is_aborted
begun_not_aborted = refl

measure_isolated_cancelled_example :
    Dict.get "s1" (measure isolated 4 ((first, "r" ∷ []) ∷ (second, []) ∷ []) begun).scenarios ≡ (
      if same {K = String} "s1" "s1"
      then map_some (to_scenario broken) (Dict.get "s1" begun.scenarios)
      else Dict.get "s1" begun.scenarios)
unfolding string_discrete
measure_isolated_cancelled_example =
    measure_isolated_cancelled "r" 4 first ("r" ∷ []) ((second, []) ∷ []) begun "s1" begun_running
      refl begun_not_aborted refl

scenarios-measure_isolated_example :
    Dict.get "s2" (measure isolated 4 ((first, []) ∷ (second, []) ∷ []) begun).scenarios
    ≡ result "s2" ((first, []) ∷ (second, []) ∷ []) (Dict.get "s2" begun.scenarios)
scenarios-measure_isolated_example =
    scenarios-measure_isolated 4 ((first, []) ∷ (second, []) ∷ []) begun "s2" (refl, (refl, tt))
      begun_not_aborted
