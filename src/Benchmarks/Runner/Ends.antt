-- ===== src/Benchmarks/Runner/Ends.antt =====
-- benchmark-runner.ts: how a run ends.
use sardeenz.Base.{
  Bool-cases, Option-cases, same, same_refl, any, ℕ, ◌+◌, String, ◌≡◌, refl, ◌∙◌, ◌⊎◌, inl, inr,
  true, false, some, List, [], ◌∷◌, arith, string_key,
}
use sardeenz.Base.Dict
use sardeenz.Base.Dict.{get-modify, get-delete}
use sardeenz.Benchmarks.Runner.{
  has_warmup, begin_run, complete_run, Runner, RunStatus, Measured, Mode, Plan, pending, running,
  completed, failed, cancelled, isolated, contention, to_status, update_run_status,
  update_scenario_status, cancel_benchmark, cancel_each, measure_begin, measure_end,
  measure_isolated, begin_each, end_each, measure, finish, warms_up, after_warmup, execute,
  only_scenarios, start_of, start_benchmark, is_benchmark_running,
}

runs-cancel_benchmark :
    (id j : String) (r : Runner) → Dict.has j (cancel_benchmark id r).0.runs ≡ Dict.has j r.runs
unfolding cancel_benchmark update_run_status
runs-cancel_benchmark id j r = elim (Option-cases (Dict.get id r.running_benchmarks)) [
  | inl e ↦ rw (e, cancel_benchmark) refl
  | inr (c, e) ↦
      rw (e, cancel_benchmark) (ground (arith, get-modify id j (to_status cancelled) r.runs))
]

runs-cancel_each :
    (ids : List String) (j : String) (r : Runner)
    → Dict.has j (cancel_each ids r).runs ≡ Dict.has j r.runs
unfolding cancel_each
runs-cancel_each [] j r = refl
runs-cancel_each (id ∷ ids) j r =
    runs-cancel_each ids j (cancel_benchmark id r).0 ∙ runs-cancel_benchmark id j r

runs-measure_isolated :
    (c : ℕ) (ms : List Measured) (j : String) (r : Runner)
    → Dict.has j (measure_isolated c ms r).runs ≡ Dict.has j r.runs
unfolding measure_isolated measure_begin measure_end update_scenario_status
runs-measure_isolated c [] j r = refl
runs-measure_isolated c ((s, acts) ∷ ms) j r = ground (
  arith,
  runs-measure_isolated c ms j (measure_end c s (cancel_each acts (measure_begin s r))),
  runs-cancel_each acts j (measure_begin s r),
)

runs-begin_each :
    (ms : List Measured) (j : String) (r : Runner)
    → Dict.has j (begin_each ms r).runs ≡ Dict.has j r.runs
unfolding begin_each measure_begin update_scenario_status
runs-begin_each [] j r = refl
runs-begin_each ((s, acts) ∷ ms) j r = runs-begin_each ms j (measure_begin s r)

runs-end_each :
    (c : ℕ) (ms : List Measured) (j : String) (r : Runner)
    → Dict.has j (end_each c ms r).runs ≡ Dict.has j r.runs
unfolding end_each measure_end update_scenario_status
runs-end_each c [] j r = refl
runs-end_each c ((s, acts) ∷ ms) j r =
    ground (
      arith,
      runs-end_each c ms j (measure_end c s (cancel_each acts r)),
      runs-cancel_each acts j r,
    )

runs-measure :
    (mode : Mode) (c : ℕ) (ms : List Measured) (j : String) (r : Runner)
    → Dict.has j (measure mode c ms r).runs ≡ Dict.has j r.runs
unfolding measure
runs-measure isolated c ms j r = runs-measure_isolated c ms j r
runs-measure contention c ms j r = runs-end_each c ms j (begin_each ms r) ∙ runs-begin_each ms j r

row_written :
    (id : String) (status : RunStatus) (d : Dict.Dict String RunStatus)
    → Dict.has id d ≡ true
    → Dict.get id (Dict.modify id (to_status status) d) ≡ some status
row_written id status d h =
    ground (arith, get-modify id id (to_status status) d, same_refl {K = String} id)

-- A run that has ended by this status, or was cancelled by one of these calls.
abbrev pub EndsAs : String → RunStatus → List String → Runner → Type 0
EndsAs id status acts r =
    (Dict.get id r.runs ≡ some status)
    ⊎ ((Dict.get id r.runs ≡ some cancelled) × (any (λ j. same j id) acts ≡ true))

cancel_benchmark-EndsAs :
    (j id : String) (status : RunStatus) (r : Runner)
    → Dict.get id r.runs ≡ some status
    → (Dict.get id (cancel_benchmark j r).0.runs ≡ some status)
      ⊎ ((Dict.get id (cancel_benchmark j r).0.runs ≡ some cancelled) × (same j id ≡ true))
unfolding cancel_benchmark update_run_status
cancel_benchmark-EndsAs j id status r h = elim (Option-cases (Dict.get j r.running_benchmarks)) [
  | inl e ↦ rw (e, cancel_benchmark) (inl h)
  | inr (c, e) ↦
      rw (e, cancel_benchmark)
        (elim (Bool-cases (same j id)) [
          | inl s ↦ inr (ground (arith, get-modify j id (to_status cancelled) r.runs))
          | inr s ↦ inl (ground (arith, get-modify j id (to_status cancelled) r.runs))
        ])
]

cancel_each-EndsAs :
    (acts : List String) (id : String) (status : RunStatus) (r : Runner)
    → Dict.get id r.runs ≡ some status
    → EndsAs id status acts (cancel_each acts r)
unfolding cancel_each
cancel_each-EndsAs [] id status r h = inl h
cancel_each-EndsAs (j ∷ js) id status r h =
    let r' = (cancel_benchmark j r).0 in
    elim (cancel_benchmark-EndsAs j id status r h) [
      | inl kept ↦ elim (cancel_each-EndsAs js id status r' kept) [
        | inl e ↦ inl e
        | inr (e, a) ↦ inr (e, ground (arith, a))
      ]
      | inr (gone, hit) ↦ elim (cancel_each-EndsAs js id cancelled r' gone) [
        | inl e ↦ inr (e, ground (arith, hit))
        | inr (e, a) ↦ inr (e, ground (arith, a))
      ]
    ]

-- A run that has ended by this status, or was cancelled by one of these calls, and runs no more.
abbrev pub HasEnded : String → RunStatus → List String → Runner → Type 0
HasEnded id status acts r = EndsAs id status acts r × (is_benchmark_running id r ≡ false)

finish_ends :
    (id : String) (status : RunStatus) (acts : List String) (r : Runner)
    → Dict.has id r.runs ≡ true
    → HasEnded id status acts (finish id status acts r)
unfolding finish update_run_status is_benchmark_running
finish_ends id status acts r h =
    let written = update_run_status id status r in
    (
      cancel_each-EndsAs acts id status written (row_written id status r.runs h),
      ground (
        arith,
        get-delete id id (cancel_each acts written).running_benchmarks,
        same_refl {K = String} id,
      ),
    )

complete_run_ends :
    (p : Plan) (r : Runner)
    → Dict.has p.run_id r.runs ≡ true
    → HasEnded p.run_id completed p.ending_acts (complete_run p r)
unfolding complete_run
complete_run_ends p r h = rw h (
    finish_ends p.run_id completed p.ending_acts (cancel_each p.reading_acts r)
      (runs-cancel_each p.reading_acts p.run_id r ∙ h))

-- The two ways in which a run ends of itself.
abbrev pub Finishes : Plan → Runner → Type 0
Finishes p r =
    HasEnded p.run_id completed p.ending_acts r ⊎ HasEnded p.run_id failed p.ending_acts r

after_warmup_ends :
    (c : ℕ) (p : Plan) (r : Runner)
    → Dict.has p.run_id r.runs ≡ true
    → Finishes p (after_warmup c p r)
unfolding after_warmup
after_warmup_ends c p r h = elim (Bool-cases (warms_up c (only_scenarios p.scenarios) r)) [
  | inl e ↦ rw e (
      inl (
        complete_run_ends p (measure p.mode c p.scenarios r)
          (runs-measure p.mode c p.scenarios p.run_id r ∙ h)))
  | inr e ↦ rw e (inr (finish_ends p.run_id failed p.ending_acts r h))
]

runs-begin_run :
    (p : Plan) (r : Runner)
    → Dict.has p.run_id r.runs ≡ true
    → Dict.has p.run_id (begin_run p r).runs ≡ true
unfolding begin_run update_run_status
runs-begin_run p r h =
    let marked = update_run_status p.run_id running (record r {
      running_benchmarks = Dict.set p.run_id r.next r.running_benchmarks;
      next = r.next + 1;
    }) in
    runs-cancel_each p.starting_acts p.run_id marked
    ∙ ground (arith, row_written p.run_id running r.runs h)

execute_ends : (p : Plan) (r : Runner) → Dict.has p.run_id r.runs ≡ true → Finishes p (execute p r)
unfolding execute
execute_ends p r h =
    let begun = begin_run p r in
    let there = runs-begin_run p r h in
    elim (Bool-cases (has_warmup (only_scenarios p.scenarios))) [
      | inl e ↦ rw e (
          after_warmup_ends r.next p (cancel_each p.warmup_acts begun)
            (runs-cancel_each p.warmup_acts p.run_id begun ∙ there))
      | inr e ↦ rw e (after_warmup_ends r.next p begun there)
    ]

-- A pending run that is started leaves the map of running benchmarks and ends completed or failed, or ends
-- cancelled where its cancellation is among those that come while that last status is being written: those
-- that come while it is read, marked as running, warmed up, measured or read again do not leave it cancelled.
pub start_benchmark_ends :
    (p : Plan) (r : Runner)
    → Dict.get p.run_id r.runs ≡ some pending
    → Finishes p (start_benchmark p r).0
unfolding start_benchmark start_of
start_benchmark_ends p r h =
    rw (h, start_benchmark)
      (execute_ends p (cancel_each p.loading_acts r)
        (runs-cancel_each p.loading_acts p.run_id r ∙ ground arith))
