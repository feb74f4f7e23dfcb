-- ===== src/Processes/Children/Search.antt =====
-- memory-monitor.ts, `findGpuChildPid`: the search finds a descendant on a GPU if there is one.
use sardeenz.Base.{
  ◌==◌, if◌then◌else◌, Bool-cases, Option-cases, length, find, length-append, ℕ, zero, suc, ◌+◌,
  ◌≤◌, ◌≡◌, refl, subst, inl, inr, Bool, true, false, ◌||◌, none, List, [], ◌∷◌, ◌++◌, arith,
}
use sardeenz.Processes.Children.{search, Process, children_of, is_visited}

-- A process of this id has the other for its parent.
abbrev pub IsChild : List Process → ℕ → ℕ → Type 0
IsChild ps parent pid = is_visited pid (children_of ps parent) ≡ true

pub data Descends (ps : List Process) (root : ℕ) : ℕ → Type 0 where
  itself : Descends ps root root
  below : (a b : ℕ) → Descends ps root a → IsChild ps a b → Descends ps root b

-- The processes whose parent has not been visited.
unfoldable pub waiting : List Process → List ℕ → ℕ
waiting [] visited = 0
waiting (p ∷ ps) visited =
    let rest = waiting ps visited in if is_visited p.parent visited then rest else suc rest

pub waiting-le : (ps : List Process) (visited : List ℕ) → waiting ps visited ≤ length ps
unfolding waiting
waiting-le [] visited = omega arith
waiting-le (p ∷ ps) visited = ground (arith, waiting-le ps visited)

waiting-visit :
    (ps : List Process) (c : ℕ) (visited : List ℕ)
    → is_visited c visited ≡ false
    → length (children_of ps c) + waiting ps (c ∷ visited) ≡ waiting ps visited
unfolding waiting children_of is_visited
waiting-visit [] c visited h = omega arith
waiting-visit (p ∷ ps) c visited h = elim (Bool-cases (p.parent == c)) [
  | inl e ↦
      let k : p.parent ≡ c = ground arith in rw k (ground (arith, waiting-visit ps c visited h))
  | inr e ↦ ground (arith, waiting-visit ps c visited h)
]

is_visited-append :
    (pid : ℕ) (xs ys : List ℕ)
    → is_visited pid (xs ++ ys) ≡ (is_visited pid xs || is_visited pid ys)
unfolding is_visited
is_visited-append pid [] ys = refl
is_visited-append pid (x ∷ xs) ys = ground (arith, is_visited-append pid xs ys)

-- Each child of a visited process is off the GPUs, and visited or in the queue.
abbrev Settled : List Process → (ℕ → Bool) → List ℕ → List ℕ → Type 0
Settled ps on_gpu queue visited =
    (a b : ℕ)
    → is_visited a visited ≡ true
    → IsChild ps a b
    → (on_gpu b ≡ false) × ((is_visited b visited || is_visited b queue) ≡ true)

find-none :
    (on_gpu : ℕ → Bool) (xs : List ℕ) (x : ℕ)
    → find on_gpu xs ≡ none
    → is_visited x xs ≡ true
    → on_gpu x ≡ false
unfolding is_visited
find-none on_gpu [] x h k = cc
find-none on_gpu (y ∷ ys) x h k = elim (Bool-cases (on_gpu y)) [
  | inl e ↦ absurd (ground arith)
  | inr e ↦ elim (Bool-cases (y == x)) [
    | inl d ↦ let q : y ≡ x = ground arith in subst (λ z. on_gpu z ≡ false) q e
    | inr d ↦ find-none on_gpu ys x (ground arith) (ground arith)
  ]
]

in_rest :
    (c b : ℕ) (queue visited : List ℕ)
    → is_visited c visited ≡ true
    → (is_visited b visited || is_visited b (c ∷ queue)) ≡ true
    → (is_visited b visited || is_visited b queue) ≡ true
unfolding is_visited
in_rest c b queue visited v h = elim (Bool-cases (c == b)) [
  | inl e ↦
      let q : c ≡ b = ground arith in
      let k : is_visited b visited ≡ true = subst (λ z. is_visited z visited ≡ true) q v in
      ground arith
  | inr e ↦ ground arith
]

in_children :
    (b c : ℕ) (queue visited kids : List ℕ)
    → is_visited b kids ≡ true
    → (is_visited b (c ∷ visited) || is_visited b (queue ++ kids)) ≡ true
in_children b c queue visited kids h = ground (arith, is_visited-append b queue kids)

in_older :
    (b c : ℕ) (queue visited kids : List ℕ)
    → (is_visited b visited || is_visited b (c ∷ queue)) ≡ true
    → (is_visited b (c ∷ visited) || is_visited b (queue ++ kids)) ≡ true
unfolding is_visited
in_older b c queue visited kids h = ground (arith, is_visited-append b queue kids)

older :
    (c a : ℕ) (visited : List ℕ)
    → (c == a) ≡ false
    → is_visited a (c ∷ visited) ≡ true
    → is_visited a visited ≡ true
unfolding is_visited
older c a visited e h = ground arith

-- What a search that finds nothing has visited.
pub record IsExhausted (ps : List Process) (on_gpu : ℕ → Bool) (queue visited : List ℕ)
    : Type 0 where
  pub all : List ℕ
  pub keeps :
      (x : ℕ) → (is_visited x visited || is_visited x queue) ≡ true → is_visited x all ≡ true
  pub settled : Settled ps on_gpu [] all

module _ (ps : List Process) (on_gpu : ℕ → Bool) where
  nothing_left :
      (visited : List ℕ) → Settled ps on_gpu [] visited → IsExhausted ps on_gpu [] visited
  unfolding is_visited
  nothing_left visited s = record { all = visited; keeps = λ x h. ground arith; settled = s }

  skip-Settled :
      (c : ℕ) (queue visited : List ℕ)
      → is_visited c visited ≡ true
      → Settled ps on_gpu (c ∷ queue) visited
      → Settled ps on_gpu queue visited
  unfolding is_visited
  skip-Settled c queue visited v s a b h k =
      ((s a b h k).0, in_rest c b queue visited v (s a b h k).1)

  visit-Settled :
      (c : ℕ) (queue visited : List ℕ)
      → find on_gpu (children_of ps c) ≡ none
      → Settled ps on_gpu (c ∷ queue) visited
      → Settled ps on_gpu (queue ++ children_of ps c) (c ∷ visited)
  visit-Settled c queue visited f s a b h k = elim (Bool-cases (c == a)) [
    | inl e ↦
        let q : a ≡ c = ground arith in
        let m : is_visited b (children_of ps c) ≡ true =
          subst (λ z. is_visited b (children_of ps z) ≡ true) q k in
        (
          find-none on_gpu (children_of ps c) b f m,
          in_children b c queue visited (children_of ps c) m,
        )
    | inr e ↦
        let old = s a b (older c a visited e h) k in
        (old.0, in_older b c queue visited (children_of ps c) old.1)
  ]

  pub exhaust :
      (fuel : ℕ) (queue visited : List ℕ)
      → length queue + waiting ps visited ≤ fuel
      → Settled ps on_gpu queue visited
      → search fuel ps on_gpu queue visited ≡ none
      → IsExhausted ps on_gpu queue visited
  unfolding search
  exhaust zero [] visited m s h = nothing_left visited s
  exhaust zero (c ∷ queue) visited m s h = absurd (omega arith)
  exhaust (suc fuel) [] visited m s h = nothing_left visited s
  exhaust (suc fuel) (c ∷ queue) visited m s h = elim (Bool-cases (is_visited c visited)) [
    | inl v ↦
        let r =
          exhaust fuel queue visited (omega arith) (skip-Settled c queue visited v s) (rw v at h) in
        record {
          all = r.all;
          keeps = λ x k. r.keeps x (in_rest c x queue visited v k);
          settled = r.settled;
        }
    | inr v ↦ elim (Option-cases (find on_gpu (children_of ps c))) [
      | inr (d, f) ↦ absurd (ground arith)
      | inl f ↦
          let kids = children_of ps c in
          let r =
            exhaust fuel (queue ++ kids) (c ∷ visited)
              (omega (arith, length-append queue kids, waiting-visit ps c visited v))
              (visit-Settled c queue visited f s) (rw (v, f) at h) in
          record {
            all = r.all;
            keeps = λ x k. r.keeps x (in_older x c queue visited kids k);
            settled = r.settled;
          }
    ]
  ]

  pub reaches :
      (root d : ℕ) (v : List ℕ)
      → Settled ps on_gpu [] v
      → is_visited root v ≡ true
      → on_gpu root ≡ false
      → Descends ps root d
      → (is_visited d v ≡ true) × (on_gpu d ≡ false)
  unfolding is_visited
  reaches root d v s r g itself = (r, g)
  reaches root d v s r g (below a b h k) =
      let before = reaches root a v s r g h in
      let found = s a b before.0 k in (ground arith, found.0)
