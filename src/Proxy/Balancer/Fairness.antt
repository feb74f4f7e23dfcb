-- ===== src/Proxy/Balancer/Fairness.antt =====
-- proxy-router.ts: a full turn of each balancer.
use mathlib.Core.Path.{ap₂}
use native.Mathlib.Nat.{mod-eq_of_lt}
use sardeenz.Base.{
  length, get_elem?, take, drop, take_all, ℕ, zero, suc, ◌+◌, ◌%◌, ◌≤◌, ◌<◌, String, ◌≡◌, refl, sym,
  ap, ◌∙◌, Option, some, List, [], ◌∷◌, map, arith, string_key,
}
use sardeenz.Base.Dict
use sardeenz.Base.Dict.{get-set}
use sardeenz.Types.{RoutingEntry}
use sardeenz.Models.Store.{ModelInstance}
use sardeenz.Proxy.Balancer.{
  RoundRobin, or_zero, select_instance, Cached, Weighted, new_weighted, expand, expanded_for,
  select_many, select,
}

one_more : (i : ℕ) → i + 1 ≡ suc i
one_more i = omega arith

module _ {ℓ} {A : Type ℓ} where
  -- `k` picks from the index `i` on.
  spin : ℕ → List A → ℕ → List (Option A)
  spin zero xs i = []
  spin (suc k) xs i = get_elem? xs (i % length xs) ∷ spin k xs ((i + 1) % length xs)

  drop_at :
      (i : ℕ) (xs : List A)
      → i < length xs
      → (x : A) × (get_elem? xs i ≡ some x) × (drop i xs ≡ x ∷ drop (suc i) xs)
  drop_at i [] h = elim h [ ]
  drop_at zero (x ∷ xs) h = (x, refl, refl)
  drop_at (suc i) (x ∷ xs) h = drop_at i xs (omega arith)

  -- Picks that do not pass the end give the items in their order.
  spin-take :
      (k : ℕ) (xs : List A) (i : ℕ)
      → i < length xs
      → i + k ≤ length xs
      → spin k xs i ≡ map some (take k (drop i xs))
  unfolding spin
  spin-take zero xs i h l = refl
  spin-take (suc zero) xs i h l =
      let (x, e, f) = drop_at i xs h in rw (mod-eq_of_lt h) (rw (e, f) refl)
  spin-take (suc (suc k)) xs i h l =
      let (x, e, f) = drop_at i xs h in
      let next : suc i < length xs = omega arith in
      let here : i % length xs ≡ i = mod-eq_of_lt h in
      let there : (i + 1) % length xs ≡ suc i =
        ap (λ (n : ℕ). n % length xs) (one_more i) ∙ mod-eq_of_lt next in
      let rest = spin-take (suc k) xs (suc i) next (omega arith) in
      ap₂ ◌∷◌ (ap (get_elem? xs) here ∙ e) (ap (spin (suc k) xs) there ∙ rest)
      ∙ ap (λ (ys : List A). map some (take (suc (suc k)) ys)) (sym f)

  spin_turn : (xs : List A) → 0 < length xs → spin (length xs) xs 0 ≡ map some xs
  spin_turn xs h = spin-take (length xs) xs 0 h (omega arith) ∙ ap (map some) (take_all xs)

-- The picks of `k` selections in a row.
unfoldable pub picks : ℕ → List ModelInstance → RoundRobin → List (Option ModelInstance)
picks zero is m = []
picks (suc k) is m = let (m', p) = select_instance is m in p ∷ picks k is m'

picks-spin :
    (k : ℕ) (i j : ModelInstance) (is : List ModelInstance) (m : RoundRobin)
    → picks k (i ∷ j ∷ is) m ≡ spin k (i ∷ j ∷ is) (or_zero (Dict.get i.model_path m))
unfolding picks spin select_instance
picks-spin zero i j is m = refl
picks-spin (suc k) i j is m =
    let n : ℕ = (or_zero (Dict.get i.model_path m) + 1) % length (i ∷ j ∷ is) in
    let m' = Dict.set i.model_path n m in
    let now_at : or_zero (Dict.get i.model_path m') ≡ n =
      ground (arith, get-set i.model_path i.model_path n m) in
    ap (◌∷◌ (get_elem? (i ∷ j ∷ is) (or_zero (Dict.get i.model_path m) % length (i ∷ j ∷ is))))
      (picks-spin k i j is m' ∙ ap (λ (x : ℕ). spin k (i ∷ j ∷ is) x) now_at)

-- Selecting as often as there are instances, of which there are several, from a new round-robin balancer
-- on, gives each instance once, in their order.
pub picks_turn : (is : List ModelInstance) → 1 < length is → picks (length is) is [] ≡ map some is
unfolding Dict.get
picks_turn [] h = elim h [ ]
picks_turn (i ∷ []) h = absurd (omega arith)
picks_turn (i ∷ j ∷ is) h =
    picks-spin (length (i ∷ j ∷ is)) i j is [] ∙ spin_turn (i ∷ j ∷ is) (omega arith)

unfoldable pub weighted_picks :
    ℕ → String → List RoutingEntry → ℕ → Weighted → List (Option RoutingEntry)
weighted_picks zero name es v w = []
weighted_picks (suc k) name es v w =
    let (w', p) = select name es v w in p ∷ weighted_picks k name es v w'

expanded_again :
    (name : String) (es : List RoutingEntry) (v n : ℕ) (w : Weighted) (c : Cached)
    → c.version ≡ v
    → expanded_for name es v
        (record { counters = Dict.set name n w.counters; cached = Dict.set name c w.cached })
      ≡ c
unfolding expanded_for
expanded_again name es v n w c q = ground (arith, get-set name name c w.cached)

cached_picks :
    (k : ℕ) (name : String) (d e : RoutingEntry) (es : List RoutingEntry) (v : ℕ) (w : Weighted)
    (c : Cached)
    → expanded_for name (d ∷ e ∷ es) v w ≡ c
    → c.version ≡ v
    → weighted_picks k name (d ∷ e ∷ es) v w ≡ spin k c.entries (or_zero (Dict.get name w.counters))
unfolding weighted_picks spin select select_many
cached_picks zero name d e es v w c h q = refl
cached_picks (suc k) name d e es v w c h q =
    let n : ℕ = (or_zero (Dict.get name w.counters) + 1) % length c.entries in
    let w' : Weighted = record {
      counters = Dict.set name n w.counters;
      cached = Dict.set name c w.cached;
    } in
    let now_at : or_zero (Dict.get name w'.counters) ≡ n =
      ground (arith, get-set name name n w.counters) in
    rw h (
      ap (◌∷◌ (get_elem? c.entries (or_zero (Dict.get name w.counters) % length c.entries))) (
        cached_picks k name d e es v w' c (expanded_again name (d ∷ e ∷ es) v n w c q) q
        ∙ ap (λ (x : ℕ). spin k c.entries x) now_at))

-- With several entries that weigh at least one together, a new weighted balancer selects, over as many
-- requests as the entries weigh together at one version of the table, each entry as often as it weighs, in
-- the order of the entries.
pub weighted_picks_turn :
    (name : String) (es : List RoutingEntry) (v : ℕ)
    → 1 < length es
    → 0 < length (expand es)
    → weighted_picks (length (expand es)) name es v new_weighted ≡ map some (expand es)
unfolding new_weighted Dict.get expanded_for
weighted_picks_turn name [] v h p = elim h [ ]
weighted_picks_turn name (d ∷ []) v h p = absurd (omega arith)
weighted_picks_turn name (d ∷ e ∷ es) v h p =
    let xs = expand (d ∷ e ∷ es) in
    cached_picks (length xs) name d e es v new_weighted (record { entries = xs; version = v }) refl
      refl
    ∙ spin_turn xs p
