-- ===== src/Logs/Progress/Monotone.antt =====
-- load-progress-tracker.ts: the progress over time.
use sardeenz.Base.{
  ltb, ◌==◌, if◌then◌else◌, Bool-cases, Option-cases, get_elem?, drop, ℕ, zero, suc, ◌+◌, ◌-◌, ◌≤◌,
  ◌<◌, String, ◌≡◌, refl, sym, ap, ◌∙◌, ◌⊎◌, inl, inr, Option, none, some, List, [], ◌∷◌, arith,
}
use sardeenz.Logs.Progress.{
  process_log_line, first_match, Milestone, matches, loading_milestones, get_interpolated_progress,
  new, interpolate, Tracker,
}

-- The base of the milestone that was reached last, and 0 before the first.
abbrev pub base_before : ℕ → ℕ
base_before zero = 0
base_before (suc zero) = 10
base_before (suc (suc zero)) = 20
base_before (suc (suc (suc zero))) = 40
base_before (suc (suc (suc (suc zero)))) = 55
base_before (suc (suc (suc (suc (suc zero))))) = 70
base_before _ = 85

-- The progress is that of the milestone that was reached last.
pub record IsTracker (t : Tracker) : Type 0 where
  pub within : t.next_milestone ≤ 6
  pub current : t.current_progress ≡ base_before t.next_milestone

-- The base of the next milestone, or past the last one the end of the scale.
abbrev pub ceiling : ℕ → ℕ
ceiling n = if ltb n 6 then base_before (n + 1) else 96

new-IsTracker : (expected : Option ℕ) (now : ℕ) → IsTracker (new expected now)
unfolding new
new-IsTracker expected now = record { within = omega arith; current = refl }

interpolate_bounds :
    (n elapsed : ℕ) (t : Tracker)
    → n ≤ 6
    → t.current_progress ≡ base_before n
    → let p =
        interpolate elapsed t
          (if n == 0 then none else get_elem? loading_milestones (n - 1))
          (get_elem? loading_milestones n) in
      (t.current_progress ≤ p) × (p < ceiling n)
unfolding interpolate
interpolate_bounds zero elapsed t h e = ground arith
interpolate_bounds (suc zero) elapsed t h e = ground arith
interpolate_bounds (suc (suc zero)) elapsed t h e = ground arith
interpolate_bounds (suc (suc (suc zero))) elapsed t h e = ground arith
interpolate_bounds (suc (suc (suc (suc zero)))) elapsed t h e = ground arith
interpolate_bounds (suc (suc (suc (suc (suc zero))))) elapsed t h e = ground arith
interpolate_bounds (suc (suc (suc (suc (suc (suc zero)))))) elapsed t h e = ground arith
interpolate_bounds (suc (suc (suc (suc (suc (suc (suc n))))))) elapsed t h e = absurd (omega arith)

-- At any time the progress shown is at least that of the last milestone, and below that of the next; after the
-- last milestone it is at most 95.
pub interpolated_bounds :
    (now : ℕ) (t : Tracker)
    → IsTracker t
    → (t.current_progress ≤ get_interpolated_progress now t)
      × (get_interpolated_progress now t < ceiling t.next_milestone)
unfolding get_interpolated_progress
interpolated_bounds now t h =
    interpolate_bounds t.next_milestone (now - t.last_milestone_time) t h.within h.current

base_before-suc : (n : ℕ) → base_before n ≤ base_before (suc n)
base_before-suc zero = omega arith
base_before-suc (suc zero) = omega arith
base_before-suc (suc (suc zero)) = omega arith
base_before-suc (suc (suc (suc zero))) = omega arith
base_before-suc (suc (suc (suc (suc zero)))) = omega arith
base_before-suc (suc (suc (suc (suc (suc zero))))) = omega arith
base_before-suc (suc (suc (suc (suc (suc (suc n)))))) = omega arith

base_before-le : (k m n : ℕ) → m + k ≡ n → base_before m ≤ base_before n
base_before-le zero m n e = let same_n : m ≡ n = omega arith in rw same_n (omega arith)
base_before-le (suc k) m n e =
    omega (arith, base_before-suc m, base_before-le k (suc m) n (omega arith))

first_match_at :
    (content : String) (ms : List Milestone) (i j : ℕ) (m : Milestone)
    → first_match content i ms ≡ some (j, m)
    → (k : ℕ) × (j ≡ i + k) × (get_elem? ms k ≡ some m)
unfolding first_match
first_match_at content [] i j m h = cc
first_match_at content (a ∷ ms) i j m h = elim (Bool-cases (matches a content)) [
  | inl hit ↦ (0, ground arith, ground arith)
  | inr miss ↦
      let (k, e, g) = first_match_at content ms (i + 1) j m (ground arith) in
      (suc k, omega arith, g)
]

get_elem?-drop {ℓ} :
    {A : Type ℓ} (n k : ℕ) (xs : List A) → get_elem? (drop n xs) k ≡ get_elem? xs (n + k)
get_elem?-drop zero k xs = ap (get_elem? xs) (omega arith)
get_elem?-drop (suc n) k [] = refl
get_elem?-drop (suc n) k (x ∷ xs) =
    let step : suc (n + k) ≡ suc n + k = omega arith in
    get_elem?-drop n k xs ∙ ap (get_elem? (x ∷ xs)) step

milestone_base :
    (j : ℕ) (m : Milestone)
    → get_elem? loading_milestones j ≡ some m
    → (j < 6) × (m.base_progress ≡ base_before (suc j))
milestone_base zero m h = ground arith
milestone_base (suc zero) m h = ground arith
milestone_base (suc (suc zero)) m h = ground arith
milestone_base (suc (suc (suc zero))) m h = ground arith
milestone_base (suc (suc (suc (suc zero)))) m h = ground arith
milestone_base (suc (suc (suc (suc (suc zero))))) m h = ground arith
milestone_base (suc (suc (suc (suc (suc (suc j)))))) m h = cc

-- What one line does.
pub record Advances (now : ℕ) (t : Tracker) (r : Tracker × Option ℕ) : Type 0 where
  pub kept : IsTracker r.0
  pub reported : (r.1 ≡ none) ⊎ (r.1 ≡ some r.0.current_progress)
  pub silent : r.1 ≡ none → r.0 ≡ t
  pub above : (p : ℕ) → r.1 ≡ some p → get_interpolated_progress now t < p

-- A log line leaves the tracker as it was and reports nothing, or it reaches a later milestone and reports a
-- progress above all that was shown before, at any time.
pub process_log_line-Advances :
    (now later : ℕ) (content : String) (t : Tracker)
    → IsTracker t
    → Advances later t (process_log_line now content t)
unfolding process_log_line
process_log_line-Advances now later content t h =
    elim (Option-cases
      (first_match content t.next_milestone (drop t.next_milestone loading_milestones))) [
        | inl e ↦
            rw (e, process_log_line)
              (record { kept = h; reported = inl refl; silent = λ _. refl; above = λ p q. cc })
        | inr ((j, m), e) ↦
            let (k, at, found) =
              first_match_at content (drop t.next_milestone loading_milestones) t.next_milestone j m
                e in
            let here : get_elem? loading_milestones j ≡ some m =
              ap (get_elem? loading_milestones) at
              ∙ sym (get_elem?-drop t.next_milestone k loading_milestones)
              ∙ found in
            let (small, base) = milestone_base j m here in
            let next : j + 1 ≡ suc j = omega arith in
            let risen = base_before-le k (t.next_milestone + 1) (suc j) (omega arith) in
            let (low, high) = interpolated_bounds later t h in
            rw (e, process_log_line)
              (record {
                kept = record { within = omega arith; current = base ∙ ap base_before (sym next) };
                reported = inr refl;
                silent = λ q. cc;
                above = λ p q. ground (arith, base, risen, high);
              })
      ]
