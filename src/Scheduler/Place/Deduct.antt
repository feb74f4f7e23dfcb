-- ===== src/Scheduler/Place/Deduct.antt =====
-- pod-scheduler.ts: the memory that is taken from the chosen slots.
use sardeenz.Base.{
  ◌==◌, Bool-cases, not_true, length, take, filter, All, All-zip, ℕ, zero, suc, ◌+◌, ◌*◌, ◌≤◌, ◌≡◌,
  refl, ◌∙◌, inl, inr, Bool, true, false, ◌||◌, List, [], ◌∷◌, arith,
}
use sardeenz.Base.Sort.{sort, insert}
use sardeenz.Scheduler.Slots.{GpuSlot}
use sardeenz.Scheduler.Place.{has_ref, is_chosen, deduct, total_available}

-- The slots are different objects.
abbrev pub Distinct : List GpuSlot → Type 0
Distinct [] = Unit
Distinct (x ∷ xs) = (has_ref x.ref xs ≡ false) × Distinct xs

-- Each of the chosen is one of the pool.
abbrev pub Within : List GpuSlot → List GpuSlot → Type 0
Within chosen pool = (r : ℕ) → has_ref r chosen ≡ true → has_ref r pool ≡ true

pub has_ref-filter :
    (p : GpuSlot → Bool) (r : ℕ) (xs : List GpuSlot)
    → has_ref r (filter p xs) ≡ true
    → has_ref r xs ≡ true
has_ref-filter p r [] h = h
has_ref-filter p r (x ∷ xs) h = ground (arith, has_ref-filter p r xs)

pub has_ref-take :
    (n r : ℕ) (xs : List GpuSlot) → has_ref r (take n xs) ≡ true → has_ref r xs ≡ true
has_ref-take zero r xs h = cc
has_ref-take (suc n) r [] h = h
has_ref-take (suc n) r (x ∷ xs) h = ground (arith, has_ref-take n r xs)

pub Distinct-filter :
    (p : GpuSlot → Bool) (xs : List GpuSlot) → Distinct xs → Distinct (filter p xs)
Distinct-filter p [] d = tt
Distinct-filter p (x ∷ xs) d = ground (arith, Distinct-filter p xs d.1, has_ref-filter p x.ref xs)

pub Distinct-take : (n : ℕ) (xs : List GpuSlot) → Distinct xs → Distinct (take n xs)
Distinct-take zero xs d = tt
Distinct-take (suc n) [] d = tt
Distinct-take (suc n) (x ∷ xs) d =
    (not_true _ (λ h. ground (arith, has_ref-take n x.ref xs h)), Distinct-take n xs d.1)

module _ (le : GpuSlot → GpuSlot → Bool) where
  has_ref-insert :
      (r : ℕ) (x : GpuSlot) (ys : List GpuSlot)
      → has_ref r (insert le x ys) ≡ ((x.ref == r) || has_ref r ys)
  unfolding insert
  has_ref-insert r x [] = refl
  has_ref-insert r x (y ∷ ys) = ground (arith, has_ref-insert r x ys)

  pub has_ref-sort : (r : ℕ) (xs : List GpuSlot) → has_ref r (sort le xs) ≡ has_ref r xs
  unfolding sort
  has_ref-sort r [] = refl
  has_ref-sort r (x ∷ xs) = ground (arith, has_ref-insert r x (sort le xs), has_ref-sort r xs)

  Distinct-insert :
      (x : GpuSlot) (ys : List GpuSlot)
      → has_ref x.ref ys ≡ false
      → Distinct ys
      → Distinct (insert le x ys)
  unfolding insert
  Distinct-insert x [] h d = (refl, tt)
  Distinct-insert x (y ∷ ys) h d = ground (arith, Distinct-insert x ys, has_ref-insert y.ref x ys)

  pub Distinct-sort : (xs : List GpuSlot) → Distinct xs → Distinct (sort le xs)
  unfolding sort
  Distinct-sort [] d = tt
  Distinct-sort (x ∷ xs) d =
      Distinct-insert x (sort le xs) (has_ref-sort x.ref xs ∙ d.0) (Distinct-sort xs d.1)

-- `deduct` keeps what tells the slots apart.
has_ref-deduct :
    (u r : ℕ) (chosen xs : List GpuSlot) → has_ref r (deduct u chosen xs) ≡ has_ref r xs
unfolding deduct
has_ref-deduct u r chosen [] = refl
has_ref-deduct u r chosen (x ∷ xs) = ground (arith, has_ref-deduct u r chosen xs)

pub Distinct-deduct :
    (u : ℕ) (chosen xs : List GpuSlot) → Distinct xs → Distinct (deduct u chosen xs)
unfolding deduct
Distinct-deduct u chosen [] d = tt
Distinct-deduct u chosen (x ∷ xs) d =
    ground (arith, Distinct-deduct u chosen xs d.1, has_ref-deduct u x.ref chosen xs)

-- How many slots the chosen are.
hits : List GpuSlot → List GpuSlot → ℕ
hits chosen xs = length (filter (is_chosen chosen) xs)

hits_none : (xs : List GpuSlot) → hits [] xs ≡ 0
unfolding hits
hits_none [] = refl
hits_none (x ∷ xs) = hits_none xs

with_ref : ℕ → List GpuSlot → ℕ
with_ref r xs = length (filter (λ s. r == s.ref) xs)

with_ref_none : (r : ℕ) (xs : List GpuSlot) → has_ref r xs ≡ false → with_ref r xs ≡ 0
unfolding with_ref
with_ref_none r [] h = refl
with_ref_none r (x ∷ xs) h = ground (arith, with_ref_none r xs)

with_ref_one : (r : ℕ) (xs : List GpuSlot) → Distinct xs → has_ref r xs ≡ true → with_ref r xs ≡ 1
unfolding with_ref
with_ref_one r [] d h = cc
with_ref_one r (x ∷ xs) d h =
    ground (arith, with_ref_one r xs d.1, with_ref_none r xs, with_ref_none x.ref xs)

hits-cons :
    (c : GpuSlot) (cs xs : List GpuSlot)
    → has_ref c.ref cs ≡ false
    → hits (c ∷ cs) xs ≡ with_ref c.ref xs + hits cs xs
unfolding hits with_ref
hits-cons c cs [] h = refl
hits-cons c cs (x ∷ xs) h = ground (arith, hits-cons c cs xs h)

hits-length :
    (chosen xs : List GpuSlot)
    → Distinct chosen
    → Distinct xs
    → Within chosen xs
    → hits chosen xs ≡ length chosen
hits-length [] xs d e w = hits_none xs
hits-length (c ∷ cs) xs d e w = omega (
  arith,
  hits-cons c cs xs d.0,
  with_ref_one c.ref xs e (w c.ref (ground arith)),
  hits-length cs xs d.1 e (λ r h. w r (ground arith)),
)

abbrev Enough : ℕ → List GpuSlot → GpuSlot → Type 0
Enough u chosen s = is_chosen chosen s ≡ true → u ≤ s.available

total-deduct :
    (u : ℕ) (chosen xs : List GpuSlot)
    → All (Enough u chosen) xs
    → total_available (deduct u chosen xs) + hits chosen xs * u ≡ total_available xs
unfolding total_available deduct hits
total-deduct u chosen [] h = omega arith
total-deduct u chosen (x ∷ xs) h = elim (Bool-cases (is_chosen chosen x)) [
  | inl e ↦ rw e (omega (arith, total-deduct u chosen xs h.1, h.0 e))
  | inr e ↦ rw e (omega (arith, total-deduct u chosen xs h.1))
]

others_of : (r : ℕ) (xs : List GpuSlot) → has_ref r xs ≡ false → All (λ s. (s.ref == r) ≡ false) xs
others_of r [] h = tt
others_of r (x ∷ xs) h = ground (arith, others_of r xs)

-- What is found by its `ref` among the slots that pass a test is one that passes it.
chosen_pass :
    (p : GpuSlot → Bool) (xs : List GpuSlot)
    → Distinct xs
    → All (λ s. has_ref s.ref (filter p xs) ≡ true → p s ≡ true) xs
chosen_pass p [] d = tt
chosen_pass p (x ∷ xs) d = (
  (λ h. ground (arith, has_ref-filter p x.ref xs)),
  All-zip Passes Other (λ s. has_ref s.ref (filter p (x ∷ xs)) ≡ true → p s ≡ true) xs
      (λ s f o h. ground (arith, f)) (chosen_pass p xs d.1) (others_of x.ref xs d.0),
)
  where
    Passes : GpuSlot → Type 0
    Passes s = has_ref s.ref (filter p xs) ≡ true → p s ≡ true

    Other : GpuSlot → Type 0
    Other s = (s.ref == x.ref) ≡ false

All-unit : (xs : List GpuSlot) → All (λ s. Unit {0}) xs
All-unit [] = tt
All-unit (x ∷ xs) = (tt, All-unit xs)

-- Where the chosen are different slots out of those that pass `p`, and each of these has `u`, exactly
-- `u` for each chosen one goes.
pub total_available-deduct :
    (p : GpuSlot → Bool) (u : ℕ) (chosen xs : List GpuSlot)
    → Distinct chosen
    → Distinct xs
    → Within chosen (filter p xs)
    → ((s : GpuSlot) → p s ≡ true → u ≤ s.available)
    → total_available (deduct u chosen xs) + length chosen * u ≡ total_available xs
total_available-deduct p u chosen xs d e w h =
    rw (← hits-length chosen xs d e (λ r k. has_ref-filter p r xs (w r k))) (
      total-deduct u chosen xs (
        All-zip (λ s. has_ref s.ref (filter p xs) ≡ true → p s ≡ true) (λ s. Unit {0})
          (Enough u chosen) xs (λ s f _ k. h s (f (w s.ref k))) (chosen_pass p xs e) (All-unit xs)))
