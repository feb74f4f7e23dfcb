-- ===== src/Logs/Progress.antt =====
-- apps/backend/src/utils/load-progress-tracker.ts. The state keeps the number of the next milestone, one more than
-- the source's `currentMilestone`. The patterns are plain texts that are looked for whatever their case. The
-- quotients of the source are floored at once, where it floors the sum; `expected_duration_ms` is positive.
pub mod Monotone
use sardeenz.Base.{
  ltb, leb, ◌==◌, if◌then◌else◌, length, get_elem?, drop, ℕ, ◌+◌, ◌-◌, ◌*◌, ◌/◌, min, String, Bool,
  ◌&&◌, Option, none, some, List, [], ◌∷◌, map,
}
use sardeenz.Base.Text.{codes, occurs_in}
use sardeenz.Logs.Buffer.{LogEntry}

pub record Milestone : Type 0 where
  pub pattern : String
  pub base_progress : ℕ

abbrev pub loading_milestones : List Milestone
loading_milestones =
    record { pattern = "detected platform"; base_progress = 10 }
    ∷ record { pattern = "Starting to load model"; base_progress = 20 }
    ∷ record { pattern = "Loading weights took"; base_progress = 40 }
    ∷ record { pattern = "Model loading took"; base_progress = 55 }
    ∷ record { pattern = "Available KV cache memory"; base_progress = 70 }
    ∷ record { pattern = "Graph capturing finished"; base_progress = 85 }
    ∷ []

pub record Tracker : Type 0 where
  pub next_milestone : ℕ
  pub current_progress : ℕ
  pub last_milestone_time : ℕ
  pub expected_duration_ms : ℕ

unfoldable pub new : Option ℕ → ℕ → Tracker
new expected now = record {
  next_milestone = 0;
  current_progress = 0;
  last_milestone_time = now;
  expected_duration_ms = elim expected [ none ↦ 180_000 | some n ↦ n ];
}

-- Case folding of the Latin letters, to which the patterns are limited.
abbrev pub fold_case : ℕ → ℕ
fold_case c = if leb 65 c && leb c 90 then c + 32 else c

-- `milestone.pattern.test(content)`.
unfoldable pub matches : Milestone → String → Bool
matches m content = occurs_in (map fold_case (codes m.pattern)) (map fold_case (codes content))

-- The loop from the milestone number `i` on: the first that matches.
unfoldable pub first_match : String → ℕ → List Milestone → Option (ℕ × Milestone)
first_match content i [] = none
first_match content i (m ∷ ms) =
    let rest = first_match content (i + 1) ms in if matches m content then some (i, m) else rest

unfoldable pub process_log_line : ℕ → String → Tracker → Tracker × Option ℕ
process_log_line now content t =
    elim (first_match content t.next_milestone (drop t.next_milestone loading_milestones)) [
      | none ↦ (t, none)
      | some (i, m) ↦ (
        record t {
          next_milestone = i + 1;
          current_progress = m.base_progress;
          last_milestone_time = now;
        },
        some m.base_progress,
      )
    ]

unfoldable pub interpolate : ℕ → Tracker → Option Milestone → Option Milestone → ℕ
interpolate elapsed t none next = min 5 (elapsed * 5 / 10_000)
interpolate elapsed t (some m) none = min 95 (t.current_progress + min 5 (elapsed * 5 / 60_000))
interpolate elapsed t (some m) (some n) =
    let range = n.base_progress - m.base_progress in
    t.current_progress
    + min (range - 1) (elapsed * range * length loading_milestones / t.expected_duration_ms)

-- `LOADING_MILESTONES[currentMilestone]`.
abbrev pub reached : Tracker → Option Milestone
reached t =
    if t.next_milestone == 0 then none else get_elem? loading_milestones (t.next_milestone - 1)

unfoldable pub get_interpolated_progress : ℕ → Tracker → ℕ
get_interpolated_progress now t =
    interpolate (now - t.last_milestone_time) t (reached t)
      (get_elem? loading_milestones t.next_milestone)

abbrev later : Option ℕ → Option ℕ → Option ℕ
later highest none = highest
later highest (some p) = some p

-- The loop, with the highest progress so far.
unfoldable pub process_entries : ℕ → List LogEntry → Option ℕ → Tracker → Tracker × Option ℕ
process_entries now [] highest t = (t, highest)
process_entries now (e ∷ es) highest t =
    let (t', p) = process_log_line now e.content t in process_entries now es (later highest p) t'

unfoldable pub process_existing_logs : ℕ → List LogEntry → Tracker → Tracker × Option ℕ
process_existing_logs now es t = process_entries now es none t

unfoldable pub get_progress_message : ℕ → String
get_progress_message p =
    if ltb p 15
    then "Initializing model load..."
    else if ltb p 30
    then "Preparing to load model weights..."
    else if ltb p 50
    then "Loading model weights..."
    else if ltb p 65
    then "Model weights loaded, allocating memory..."
    else if ltb p 80
    then "Allocating KV cache memory..."
    else if ltb p 95
    then "Capturing CUDA graphs..."
    else if ltb p 100
    then "Finalizing model startup..."
    else "Target model is ready"
