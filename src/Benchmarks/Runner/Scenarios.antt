-- ===== src/Benchmarks/Runner/Scenarios.antt =====
-- benchmark-runner.ts: what becomes of the scenarios of a run.
use sardeenz.Base.{
  if◌then◌else◌, Bool-cases, Option-cases, same, any, All, ℕ, String, ◌≡◌, refl, ap, ◌∙◌, inl, inr,
  true, false, Option, some, List, [], ◌∷◌, arith, string_key,
}
use sardeenz.Base.Dict
use sardeenz.Base.Dict.{get-modify, get-delete, map_some}
use sardeenz.Benchmarks.Runner.{
  Runner, ScenarioStatus, Scenario, Measured, measured, done_with, broken, isolated, to_scenario,
  update_run_status, update_scenario_status, is_aborted, cancel_benchmark, cancel_each,
  measure_begin, measure_end, measure_isolated, measure,
}

-- No cancellation comes in.
abbrev pub Undisturbed : List Measured → Type 0
Undisturbed ms = All (λ m. m.1 ≡ []) ms

-- The status that a scenario of this id ends with: that of the last such scenario of the list.
abbrev pub result : String → List Measured → Option ScenarioStatus → Option ScenarioStatus
result id [] old = old
result id ((s, acts) ∷ ms) old = result id ms (
    if same s.id id
    then map_some (to_scenario (if s.has_url then done_with else broken)) old
    else old)

measure_one : ℕ → Scenario → List String → Runner → Runner
measure_one c s acts r = measure_end c s (cancel_each acts (measure_begin s r))

aborted-measure_one :
    (c : ℕ) (s : Scenario) (r : Runner) → is_aborted c (measure_one c s [] r) ≡ is_aborted c r
unfolding measure_one measure_end measure_begin cancel_each update_scenario_status is_aborted
aborted-measure_one c s r = ground arith

scenarios-measure_one :
    (c : ℕ) (s : Scenario) (r : Runner) (id : String)
    → is_aborted c r ≡ false
    → Dict.get id (measure_one c s [] r).scenarios ≡ (
        if same s.id id
        then map_some
            (to_scenario (if s.has_url then done_with else broken))
            (Dict.get id r.scenarios)
        else Dict.get id r.scenarios)
unfolding measure_one measure_end measure_begin cancel_each update_scenario_status is_aborted
scenarios-measure_one c s r id h = elim (Bool-cases s.has_url) [
  | inl e ↦
      rw (e, h)
        (ground (
          arith,
          get-modify s.id id (to_scenario done_with)
              (Dict.modify s.id (to_scenario measured) r.scenarios),
          get-modify s.id id (to_scenario measured) r.scenarios,
        ))
  | inr e ↦ rw e (ground (arith, get-modify s.id id (to_scenario broken) r.scenarios))
]

-- In the isolated mode, where nothing is cancelled, each scenario whose model is found ends completed,
-- and each other one failed; no other scenario changes.
pub scenarios-measure_isolated :
    (c : ℕ) (ms : List Measured) (r : Runner) (id : String)
    → Undisturbed ms
    → is_aborted c r ≡ false
    → Dict.get id (measure isolated c ms r).scenarios ≡ result id ms (Dict.get id r.scenarios)
unfolding measure measure_isolated measure_one
scenarios-measure_isolated c [] r id u h = refl
scenarios-measure_isolated c ((s, acts) ∷ ms) r id u h =
    rw (u.0, h)
      (scenarios-measure_isolated c ms (measure_one c s [] r) id u.1 (aborted-measure_one c s r ∙ h)
        ∙ ap (result id ms) (scenarios-measure_one c s r id h))

keeps_aborted :
    (id : String) (c : ℕ) (r : Runner)
    → is_aborted c r ≡ true
    → is_aborted c (cancel_benchmark id r).0 ≡ true
unfolding cancel_benchmark update_run_status is_aborted
keeps_aborted id c r h = elim (Option-cases (Dict.get id r.running_benchmarks)) [
  | inl e ↦ rw (e, cancel_benchmark) h
  | inr (d, e) ↦ rw (e, cancel_benchmark) (ground arith)
]

keeps_aborted_each :
    (ids : List String) (c : ℕ) (r : Runner)
    → is_aborted c r ≡ true
    → is_aborted c (cancel_each ids r) ≡ true
unfolding cancel_each
keeps_aborted_each [] c r h = h
keeps_aborted_each (id ∷ ids) c r h =
    keeps_aborted_each ids c (cancel_benchmark id r).0 (keeps_aborted id c r h)

cancel_aborts :
    (id : String) (c : ℕ) (r : Runner)
    → Dict.get id r.running_benchmarks ≡ some c
    → is_aborted c (cancel_benchmark id r).0 ≡ true
unfolding cancel_benchmark update_run_status is_aborted
cancel_aborts id c r h = rw (h, cancel_benchmark) (ground arith)

other_cancel :
    (id j : String) (r : Runner)
    → same id j ≡ false
    → Dict.get j (cancel_benchmark id r).0.running_benchmarks ≡ Dict.get j r.running_benchmarks
unfolding cancel_benchmark update_run_status
other_cancel id j r h = elim (Option-cases (Dict.get id r.running_benchmarks)) [
  | inl e ↦ rw (e, cancel_benchmark) refl
  | inr (d, e) ↦ rw (e, cancel_benchmark) (ground (arith, get-delete id j r.running_benchmarks))
]

cancel_each_aborts :
    (ids : List String) (id : String) (c : ℕ) (r : Runner)
    → any (λ i. same i id) ids ≡ true
    → Dict.get id r.running_benchmarks ≡ some c
    → is_aborted c (cancel_each ids r) ≡ true
unfolding cancel_each
cancel_each_aborts [] id c r h k = cc
cancel_each_aborts (i ∷ ids) id c r h k = elim (Bool-cases (same i id)) [
  | inl e ↦
      let same_id : i ≡ id = ground arith in
      keeps_aborted_each ids c (cancel_benchmark i r).0 (rw same_id (cancel_aborts id c r k))
  | inr e ↦
      cancel_each_aborts ids id c (cancel_benchmark i r).0 (ground arith)
        (other_cancel i id r e ∙ k)
]

scenarios-cancel_benchmark :
    (id : String) (r : Runner) → (cancel_benchmark id r).0.scenarios ≡ r.scenarios
unfolding cancel_benchmark update_run_status
scenarios-cancel_benchmark id r = elim (Option-cases (Dict.get id r.running_benchmarks)) [
  | inl e ↦ rw (e, cancel_benchmark) refl
  | inr (d, e) ↦ rw (e, cancel_benchmark) refl
]

scenarios-cancel_each :
    (ids : List String) (r : Runner) → (cancel_each ids r).scenarios ≡ r.scenarios
unfolding cancel_each
scenarios-cancel_each [] r = refl
scenarios-cancel_each (id ∷ ids) r =
    scenarios-cancel_each ids (cancel_benchmark id r).0 ∙ scenarios-cancel_benchmark id r

stops_if_aborted :
    (c : ℕ) (ms : List Measured) (r : Runner) → is_aborted c r ≡ true → measure_isolated c ms r ≡ r
unfolding measure_isolated
stops_if_aborted c [] r h = refl
stops_if_aborted c ((s, acts) ∷ ms) r h = rw h refl

end_aborted :
    (c : ℕ) (s : Scenario) (r : Runner)
    → s.has_url ≡ true
    → is_aborted c r ≡ true
    → measure_end c s r ≡ update_scenario_status s.id broken r
unfolding measure_end
end_aborted c s r u h = rw (u, h) refl

aborted-update_scenario_status :
    (c : ℕ) (id : String) (status : ScenarioStatus) (r : Runner)
    → is_aborted c (update_scenario_status id status r) ≡ is_aborted c r
unfolding update_scenario_status is_aborted
aborted-update_scenario_status c id status r = refl

running-measure_begin :
    (s : Scenario) (r : Runner) → (measure_begin s r).running_benchmarks ≡ r.running_benchmarks
unfolding measure_begin update_scenario_status
running-measure_begin s r = refl

get-broken :
    (id j : String) (r w : Runner)
    → w.scenarios ≡ Dict.modify id (to_scenario measured) r.scenarios
    → Dict.get j (update_scenario_status id broken w).scenarios ≡ (
        if same id j
        then map_some (to_scenario broken) (Dict.get j r.scenarios)
        else Dict.get j r.scenarios)
unfolding update_scenario_status
get-broken id j r w h = rw h (
    ground (
      arith,
      get-modify id j (to_scenario broken) (Dict.modify id (to_scenario measured) r.scenarios),
      get-modify id j (to_scenario measured) r.scenarios,
    ))

scenarios-measure_begin :
    (s : Scenario) (r : Runner)
    → s.has_url ≡ true
    → (measure_begin s r).scenarios ≡ Dict.modify s.id (to_scenario measured) r.scenarios
unfolding measure_begin update_scenario_status
scenarios-measure_begin s r u = rw u refl

-- In the isolated mode: when a run is cancelled while it measures a scenario whose model is found, that
-- scenario ends failed, and no scenario after it is measured.
pub measure_isolated_cancelled :
    (id : String) (c : ℕ) (s : Scenario) (acts : List String) (ms : List Measured) (r : Runner)
    (j : String)
    → Dict.get id r.running_benchmarks ≡ some c
    → any (λ i. same i id) acts ≡ true
    → is_aborted c r ≡ false
    → s.has_url ≡ true
    → Dict.get j (measure isolated c ((s, acts) ∷ ms) r).scenarios ≡ (
        if same s.id j
        then map_some (to_scenario broken) (Dict.get j r.scenarios)
        else Dict.get j r.scenarios)
unfolding measure measure_isolated
measure_isolated_cancelled id c s acts ms r j k a h u =
    let begun = measure_begin s r in
    let waited = cancel_each acts begun in
    let off : is_aborted c waited ≡ true =
      cancel_each_aborts acts id c begun a (ap (Dict.get id) (running-measure_begin s r) ∙ k) in
    let kept : waited.scenarios ≡ Dict.modify s.id (to_scenario measured) r.scenarios =
      scenarios-cancel_each acts begun ∙ scenarios-measure_begin s r u in
    let last = update_scenario_status s.id broken waited in
    let ended : measure_end c s waited ≡ last = end_aborted c s waited u off in
    let stop : measure_isolated c ms last ≡ last =
      stops_if_aborted c ms last (aborted-update_scenario_status c s.id broken waited ∙ off) in
    rw (h, ended, stop) (get-broken s.id j r waited kept)
