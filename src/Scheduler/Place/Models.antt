-- ===== src/Scheduler/Place/Models.antt =====
-- pod-scheduler.ts, `placeModels` as a whole.
use sardeenz.Base.{
  leb, same, length, any, All, length-map, ℕ, ◌+◌, ◌≤◌, ◌<◌, String, ◌≡◌, refl, ap, ◌∙◌, subst,
  Bool, ◌||◌, List, [], ◌∷◌, map, arith, string_key,
}
use sardeenz.Base.Sort.{sort, sort-All, length-sort, any-sort}
use sardeenz.Cluster.PeerStore.{PeerStore}
use sardeenz.Scheduler.Slots.{GpuSlot, build_gpu_slots}
use sardeenz.Scheduler.Slots.Refs.{build_gpu_slots-Distinct}
use sardeenz.Scheduler.Place.{
  Entry, Profile, Decision, Failure, Outcome, placed, unplaced, Constraints, tp_of, total_available,
  decide_on, fail_with, place_tensor_parallel, place_single, place_entry, place_each, place_models,
  decisions_of, failures_of, in_load_order, no_peers_failure,
}
use sardeenz.Scheduler.Place.Deduct.{Distinct}
use sardeenz.Scheduler.Place.Capacity.{charged, charged_all, place_each-charged}

abbrev pub decision_units : Decision → ℕ
decision_units d = charged (placed d)

abbrev pub decisions_units : List Decision → ℕ
decisions_units [] = 0
decisions_units (d ∷ ds) = decision_units d + decisions_units ds

charged_all-decisions_of : (os : List Outcome) → charged_all os ≡ decisions_units (decisions_of os)
unfolding decisions_of
charged_all-decisions_of [] = refl
charged_all-decisions_of (placed d ∷ os) =
    ap (λ (n : ℕ). charged (placed d) + n) (charged_all-decisions_of os)
charged_all-decisions_of (unplaced f ∷ os) = omega (arith, charged_all-decisions_of os)

length-decisions_of :
    (os : List Outcome) → length (decisions_of os) + length (failures_of os) ≡ length os
unfolding decisions_of failures_of
length-decisions_of [] = omega arith
length-decisions_of (placed d ∷ os) = omega (arith, length-decisions_of os)
length-decisions_of (unplaced f ∷ os) = omega (arith, length-decisions_of os)

module _ (k : Constraints) (profiles : String → List Profile) (es : List Entry) (s : PeerStore)
    (pos : All (λ e. 0 < tp_of e) es) where
  ordered-charged :
      (slots : List GpuSlot)
      → Distinct slots
      → let os = (place_each k profiles (in_load_order es) slots).0 in
        (decisions_units (decisions_of os) ≤ total_available slots)
        × (length (decisions_of os) + length (failures_of os) ≡ length es)
  unfolding in_load_order
  ordered-charged slots d =
      let sorted = sort (λ (a b : Entry). leb a.load_order b.load_order) es in
      let (sum, count) =
        place_each-charged k profiles sorted slots
          (sort-All (λ (a b : Entry). leb a.load_order b.load_order) (λ e. 0 < tp_of e) es pos) d in
      let os = (place_each k profiles sorted slots).0 in
      (
        omega (arith, sum, charged_all-decisions_of os),
        length-decisions_of os
            ∙ count
            ∙ length-sort (λ (a b : Entry). leb a.load_order b.load_order) es,
      )

  from_slots :
      (slots : List GpuSlot)
      → build_gpu_slots s ≡ slots
      → let r = place_models k profiles es s in
        (decisions_units r.0 ≤ total_available (build_gpu_slots s))
        × (length r.0 + length r.1 ≡ length es)
  unfolding place_models
  from_slots [] h =
      rw (h, place_models) (omega arith, omega (arith, length-map no_peers_failure es))
  from_slots (x ∷ xs) h =
      rw (h, place_models)
        (ordered-charged (x ∷ xs) (subst Distinct h (build_gpu_slots-Distinct s)))

-- Where every entry takes at least one GPU, the shares of all models placed on the cluster are together
-- within the memory that its healthy peers report free, and each entry is either placed or failed.
pub place_models-fits :
    (k : Constraints) (profiles : String → List Profile) (es : List Entry) (s : PeerStore)
    → All (λ e. 0 < tp_of e) es
    → let r = place_models k profiles es s in
      (decisions_units r.0 ≤ total_available (build_gpu_slots s))
      × (length r.0 + length r.1 ≡ length es)
place_models-fits k profiles es s pos = from_slots k profiles es s pos (build_gpu_slots s) refl

-- The model paths of a list of outcomes.
abbrev pub has_decision : String → List Decision → Bool
has_decision path ds = any (λ d. same d.model_path path) ds

abbrev pub has_failure : String → List Failure → Bool
has_failure path fs = any (λ f. same f.model_path path) fs

abbrev pub has_entry : String → List Entry → Bool
has_entry path es = any (λ e. same e.model_path path) es

abbrev path_of : Outcome → String
path_of (placed d) = d.model_path
path_of (unplaced f) = f.model_path

place_entry-path :
    (k : Constraints) (e : Entry) (ps : List Profile) (slots : List GpuSlot)
    → path_of (place_entry k e ps slots).0 ≡ e.model_path
unfolding place_entry place_tensor_parallel place_single decide_on fail_with
place_entry-path k e ps slots = ground arith

place_each-paths :
    (k : Constraints) (profiles : String → List Profile) (es : List Entry) (slots : List GpuSlot)
    (path : String)
    → let os = (place_each k profiles es slots).0 in
      (has_decision path (decisions_of os) || has_failure path (failures_of os)) ≡ has_entry path es
unfolding place_each decisions_of failures_of
place_each-paths k profiles [] slots path = refl
place_each-paths k profiles (e ∷ es) slots path =
    split (place_entry k e (profiles e.model_path) slots).0
      (place_each k profiles es (place_entry k e (profiles e.model_path) slots).1).0
      (place_entry-path k e (profiles e.model_path) slots)
      (place_each-paths k profiles es (place_entry k e (profiles e.model_path) slots).1 path)
  where
    split :
        (o : Outcome) (os : List Outcome)
        → path_of o ≡ e.model_path
        → (has_decision path (decisions_of os) || has_failure path (failures_of os))
          ≡ has_entry path es
        → (has_decision path (decisions_of (o ∷ os)) || has_failure path (failures_of (o ∷ os)))
          ≡ has_entry path (e ∷ es)
    split (placed d) os p h = ground arith
    split (unplaced f) os p h = ground arith

has_failure-map :
    (path : String) (es : List Entry)
    → has_failure path (map no_peers_failure es) ≡ has_entry path es
has_failure-map path [] = refl
has_failure-map path (e ∷ es) = ground (arith, has_failure-map path es)

-- A model path is among the decisions or the failures exactly if an entry asks for it.
pub place_models-paths :
    (k : Constraints) (profiles : String → List Profile) (es : List Entry) (s : PeerStore)
    (path : String)
    → let r = place_models k profiles es s in
      (has_decision path r.0 || has_failure path r.1) ≡ has_entry path es
unfolding place_models in_load_order
place_models-paths k profiles es s path = go (build_gpu_slots s) refl
  where
    go :
        (slots : List GpuSlot)
        → build_gpu_slots s ≡ slots
        → let r = place_models k profiles es s in
          (has_decision path r.0 || has_failure path r.1) ≡ has_entry path es
    go [] h = rw (h, place_models) (has_failure-map path es)
    go (x ∷ xs) h =
        rw (h, place_models)
          (place_each-paths k profiles (sort (λ (a b : Entry). leb a.load_order b.load_order) es)
              (x ∷ xs) path
            ∙ any-sort (λ (a b : Entry). leb a.load_order b.load_order)
                (λ e. same e.model_path path) es)
