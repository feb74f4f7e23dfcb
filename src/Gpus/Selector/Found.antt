-- ===== src/Gpus/Selector/Found.antt =====
-- gpu-selector.ts: the GPUs that are chosen are there.
use sardeenz.Base.{
  ltb, leb, ◌==◌, Bool-cases, Option-cases, length, get_elem?, take, All, ℕ, zero, suc, ◌+◌, ◌≤◌,
  ◌≡◌, refl, sym, ap, ◌∙◌, subst, inl, inr, Bool, true, Option, none, some, List, [], ◌∷◌, arith,
}
use sardeenz.Base.Sort.{sort, any-sort}
use sardeenz.Gpus.Selector.Window.{best_window_best, get_elem?-in, length-sorted_by_index}
use sardeenz.Gpus.Selector.{
  GpuStatus, free, sorted_by_index, best_window, most_free, get_recommended_gpu, has_index,
  all_found, validate_gpu_selection, ids_from, get_target_gpus,
}

-- The GPUs have the indices 0, 1, 2 and so on.
abbrev pub IsNumbered : List GpuStatus → Type 0
IsNumbered gpus =
    (k : ℕ) (g : GpuStatus) → get_elem? (sorted_by_index gpus) k ≡ some g → g.index ≡ k

-- Every id is the index of a GPU.
abbrev pub AllFound : List GpuStatus → List ℕ → Type 0
AllFound gpus ids = All (λ id. has_index gpus id ≡ true) ids

all_found-AllFound :
    (gpus : List GpuStatus) (ids : List ℕ) → all_found gpus ids ≡ true → AllFound gpus ids
unfolding all_found
all_found-AllFound gpus [] h = tt
all_found-AllFound gpus (id ∷ ids) h =
    (ground (arith, h), all_found-AllFound gpus ids (ground (arith, h)))

take-AllFound :
    (gpus : List GpuStatus) (n : ℕ) (ids : List ℕ) → AllFound gpus ids → AllFound gpus (take n ids)
take-AllFound gpus zero ids h = tt
take-AllFound gpus (suc n) [] h = tt
take-AllFound gpus (suc n) (id ∷ ids) h = (h.0, take-AllFound gpus n ids h.1)

any-get_elem? :
    (id k : ℕ) (g : GpuStatus) (gpus : List GpuStatus)
    → get_elem? gpus k ≡ some g
    → g.index ≡ id
    → has_index gpus id ≡ true
any-get_elem? id k g [] e i = cc
any-get_elem? id zero g (q ∷ gpus) e i = ground (arith, e, i)
any-get_elem? id (suc k) g (q ∷ gpus) e i = ground (arith, any-get_elem? id k g gpus e i)

found_sorted :
    (gpus : List GpuStatus) (id : ℕ)
    → has_index (sorted_by_index gpus) id ≡ true
    → has_index gpus id ≡ true
unfolding sorted_by_index
found_sorted gpus id h = sym (any-sort (λ a b. leb a.index b.index) (λ g. g.index == id) gpus) ∙ h

ids_from-AllFound :
    (gpus : List GpuStatus) (start n : ℕ)
    → IsNumbered gpus
    → start + n ≤ length gpus
    → AllFound gpus (ids_from start n)
unfolding ids_from
ids_from-AllFound gpus start zero h l = tt
ids_from-AllFound gpus start (suc n) h l =
    let same_length = length-sorted_by_index gpus in
    let (g, at) = get_elem?-in (sorted_by_index gpus) start (omega (arith, l, same_length)) in
    (
      found_sorted gpus start
          (any-get_elem? start start g (sorted_by_index gpus) at (h start g at)),
      ids_from-AllFound gpus (start + 1) n h (omega (arith, l)),
    )

head_found :
    (sorted : List GpuStatus) (id mb : ℕ)
    → (elim sorted as (λ x. Option (ℕ × ℕ)) [ [] ↦ none | g ∷ gs ↦ some (g.index, free g) ])
      ≡ some (id, mb)
    → has_index sorted id ≡ true
head_found [] id mb e = cc
head_found (g ∷ gs) id mb e = ground (arith, e)

most_free-found :
    (gpus : List GpuStatus) (id mb : ℕ) → most_free gpus ≡ some (id, mb) → has_index gpus id ≡ true
unfolding most_free
most_free-found gpus id mb e =
    let by_free : GpuStatus → GpuStatus → Bool = (λ a b. leb (free b) (free a)) in
    sym (any-sort by_free (λ g. g.index == id) gpus) ∙ head_found (sort by_free gpus) id mb e

best_window-found :
    (tp : ℕ) (gpus : List GpuStatus) (id mb : ℕ)
    → IsNumbered gpus
    → 1 ≤ tp
    → best_window tp gpus ≡ some (id, mb)
    → AllFound gpus (ids_from id tp)
unfolding best_window
best_window-found tp gpus id mb h one e = elim (Bool-cases (ltb (length gpus) tp)) [
  | inl few ↦
      let refused : best_window tp gpus ≡ none = rw (few, best_window) refl in
      let clash : none ≡ some (id, mb) = sym refused ∙ e in absurd (cc)
  | inr enough ↦
      let (start, g, is_g, at, inside, most) =
        best_window_best tp gpus one (ground (arith, enough)) in
      let id_start : id ≡ start =
        sym (ap (λ (q : Option (ℕ × ℕ)). elim q [ none ↦ 0 | some r ↦ r.0 ]) (sym is_g ∙ e))
        ∙ h start g at in
      rw id_start (ids_from-AllFound gpus start tp h inside)
]

-- The GPUs that are chosen for a model, whether they were asked for or are recommended, exist, where the GPUs
-- of the pod are numbered without a gap.
pub get_target_gpus-AllFound :
    (gpus : List GpuStatus) (ids : List ℕ) (tp : ℕ) (chosen : List ℕ)
    → IsNumbered gpus
    → get_target_gpus gpus ids tp ≡ some chosen
    → AllFound gpus chosen
unfolding get_target_gpus validate_gpu_selection get_recommended_gpu
get_target_gpus-AllFound gpus [] zero chosen h e = cc
get_target_gpus-AllFound gpus [] (suc zero) chosen h e = elim (Option-cases (most_free gpus)) [
  | inl none_there ↦ absurd (ground (arith, e, none_there))
  | inr ((id, mb), best) ↦
      let one : id ∷ [] ≡ chosen = ground (arith, e, best) in
      subst (AllFound gpus) one (most_free-found gpus id mb best, tt)
]
get_target_gpus-AllFound gpus [] (suc (suc n)) chosen h e =
    elim (Option-cases (best_window (suc (suc n)) gpus)) [
      | inl none_there ↦ absurd (ground (arith, e, none_there))
      | inr ((id, mb), best) ↦
          let window_ids : ids_from id (suc (suc n)) ≡ chosen = ground (arith, e, best) in
          subst (AllFound gpus) window_ids
            (best_window-found (suc (suc n)) gpus id mb h (omega arith) best)
    ]
get_target_gpus-AllFound gpus (id ∷ ids) tp chosen h e =
    elim (Bool-cases (all_found gpus (id ∷ ids))) [
      | inr lost ↦ absurd (ground (arith, e, lost))
      | inl there ↦
          let asked = all_found-AllFound gpus (id ∷ ids) there in
          elim (Bool-cases (ltb 1 tp)) [
            | inl several ↦
                let first_ids : take tp (id ∷ ids) ≡ chosen = ground (arith, e, there, several) in
                subst (AllFound gpus) first_ids (take-AllFound gpus tp (id ∷ ids) asked)
            | inr single ↦
                let first_id : id ∷ [] ≡ chosen = ground (arith, e, there, single) in
                subst (AllFound gpus) first_id (asked.0, tt)
          ]
    ]
