-- ===== src/Moves/Store/Prune.antt =====
-- move-store.ts, `complete`: what the pruning keeps.
use sardeenz.Base.{
  leb, if◌then◌else◌, Bool-cases, same, length, drop, filter, All, ℕ, zero, suc, ◌≤◌, String, ◌≡◌,
  refl, sym, ap, ◌∙◌, subst, ◌≢◌, inl, inr, Bool, true, false, not, ◌||◌, Option, none, some, List,
  [], ◌∷◌, arith, string_key,
}
use sardeenz.Base.Dict
use sardeenz.Base.Dict.{get-modify, get-delete, Dict}
use sardeenz.Base.Sort.{sort-All, length-sort, insert, sort}
use sardeenz.Moves.Store.{
  get, release_lock, MoveStore, complete, prune_completed_operations, finish, finished, delete_each,
  is_finished, MoveOperation,
}

module _ {ℓ} {A : Type ℓ} (le : A → A → Bool) (p : A → Bool) where
  length-filter-insert :
      (x : A) (ys : List A) → length (filter p (insert le x ys)) ≡ length (filter p (x ∷ ys))
  unfolding insert
  length-filter-insert x [] = refl
  length-filter-insert x (y ∷ ys) = ground (arith, length-filter-insert x ys)

  length-filter-sort : (xs : List A) → length (filter p (sort le xs)) ≡ length (filter p xs)
  unfolding sort
  length-filter-sort [] = refl
  length-filter-sort (x ∷ xs) =
      ground (arith, length-filter-insert x (sort le xs), length-filter-sort xs)

-- An operation of this id is among them.
abbrev names : String → List MoveOperation → Bool
names id [] = false
names id (o ∷ os) = same id o.id || names id os

-- Each operation stands under its own id.
abbrev pub Keyed : Dict String MoveOperation → Type 0
Keyed m = All (λ e. e.1.id ≡ e.0) m

abbrev pub finished_ops : Dict String MoveOperation → List MoveOperation
finished_ops m = filter is_finished (Dict.values m)

abbrev spared : List MoveOperation → List MoveOperation → List MoveOperation
spared os xs = filter (λ o. not (names o.id os)) xs

delete-Keyed : (id : String) (m : Dict String MoveOperation) → Keyed m → Keyed (Dict.delete id m)
unfolding Dict.delete
delete-Keyed id [] h = tt
delete-Keyed id ((j, o) ∷ m) h = ground (arith, delete-Keyed id m h.1)

finished_ops-delete :
    (id : String) (m : Dict String MoveOperation)
    → Keyed m
    → finished_ops (Dict.delete id m) ≡ filter (λ o. not (same o.id id)) (finished_ops m)
unfolding Dict.delete
finished_ops-delete id [] h = refl
finished_ops-delete id ((j, o) ∷ m) h = ground (arith, finished_ops-delete id m h.1)

spared_none : (xs : List MoveOperation) → spared [] xs ≡ xs
spared_none [] = refl
spared_none (x ∷ xs) = ap (◌∷◌ x) (spared_none xs)

spared-cons :
    (o : MoveOperation) (os xs : List MoveOperation)
    → spared os (filter (λ x. not (same x.id o.id)) xs) ≡ spared (o ∷ os) xs
spared-cons o os [] = refl
spared-cons o os (x ∷ xs) = ground (arith, spared-cons o os xs)

finished_ops-delete_each :
    (os : List MoveOperation) (m : Dict String MoveOperation)
    → Keyed m
    → finished_ops (delete_each os m) ≡ spared os (finished_ops m)
unfolding delete_each
finished_ops-delete_each [] m h = sym (spared_none (finished_ops m))
finished_ops-delete_each (o ∷ os) m h =
    finished_ops-delete_each os (Dict.delete o.id m) (delete-Keyed o.id m h)
    ∙ ap (spared os) (finished_ops-delete o.id m h)
    ∙ spared-cons o os (finished_ops m)

names-weaken :
    (z : MoveOperation) (zs ys : List MoveOperation)
    → All (λ o. names o.id zs ≡ true) ys
    → All (λ o. names o.id (z ∷ zs) ≡ true) ys
names-weaken z zs [] h = tt
names-weaken z zs (y ∷ ys) h = (ground arith, names-weaken z zs ys h.1)

names_self : (zs : List MoveOperation) → All (λ o. names o.id zs ≡ true) zs
names_self [] = tt
names_self (z ∷ zs) = (ground arith, names-weaken z zs zs (names_self zs))

spared_few :
    (n : ℕ) (zs ys : List MoveOperation)
    → All (λ o. names o.id zs ≡ true) (drop n ys)
    → length (spared zs ys) ≤ n
spared_few zero zs [] h = omega arith
spared_few zero zs (y ∷ ys) h = ground (arith, spared_few zero zs ys h.1)
spared_few (suc n) zs [] h = omega arith
spared_few (suc n) zs (y ∷ ys) h = ground (arith, spared_few n zs ys h)

modify-Keyed :
    (id : String) (f : MoveOperation → MoveOperation) (m : Dict String MoveOperation)
    → ((o : MoveOperation) → (f o).id ≡ o.id)
    → Keyed m
    → Keyed (Dict.modify id f m)
unfolding Dict.modify
modify-Keyed id f [] k h = tt
modify-Keyed id f ((j, o) ∷ m) k h = ground (arith, k o, modify-Keyed id f m k h.1)

finish-id : (done : Bool) (err : Option String) (o : MoveOperation) → (finish done err o).id ≡ o.id
unfolding finish
finish-id done err o = refl

prune_bound :
    (s : MoveStore)
    → Keyed s.operations
    → length (finished_ops (prune_completed_operations s).operations) ≤ 10
unfolding prune_completed_operations finished
prune_bound s h =
    let le : MoveOperation → MoveOperation → Bool = λ a b. leb b.started_at a.started_at in
    let done = sort le (finished_ops s.operations) in
    let few = spared_few 10 (drop 10 done) done (names_self (drop 10 done)) in
    let same_count =
      length-filter-sort le (λ o. not (names o.id (drop 10 done))) (finished_ops s.operations) in
    let total = length-sort le (finished_ops s.operations) in
    ground (arith, few, same_count, total, finished_ops-delete_each (drop 10 done) s.operations h)

operations-release_lock :
    (move : String) (s : MoveStore) → (release_lock move s).operations ≡ s.operations
unfolding release_lock
operations-release_lock move s = ground arith

-- On a store whose operations stand under their own ids: once an operation is completed, at most ten
-- operations that are completed or failed remain.
pub complete_bound :
    (move : String) (done : Bool) (err : Option String) (s : MoveStore)
    → Keyed s.operations
    → length (finished_ops (complete move done err s).operations) ≤ 10
unfolding complete
complete_bound move done err s h =
    let marked = record s { operations = Dict.modify move (finish done err) s.operations } in
    prune_bound (release_lock move marked) (
      subst Keyed (sym (operations-release_lock move marked))
        (modify-Keyed move (finish done err) s.operations (finish-id done err) h))

get-delete_each :
    (id : String) (os : List MoveOperation) (m : Dict String MoveOperation)
    → Dict.get id (delete_each os m) ≡ (if names id os then none else Dict.get id m)
unfolding delete_each
get-delete_each id [] m = refl
get-delete_each id (o ∷ os) m =
    ground (arith, get-delete_each id os (Dict.delete o.id m), get-delete o.id id m)

-- The operation is finished, and stands in `m` under its own id.
abbrev Done : Dict String MoveOperation → MoveOperation → Type 0
Done m o = (Dict.get o.id m ≡ some o) × (is_finished o ≡ true)

unfinished_unnamed :
    (id : String) (q : MoveOperation) (os : List MoveOperation) (m : Dict String MoveOperation)
    → Dict.get id m ≡ some q
    → is_finished q ≡ false
    → All (Done m) os
    → names id os ≡ false
unfinished_unnamed id q [] m g f h = refl
unfinished_unnamed id q (o ∷ os) m g f h = ground (arith, unfinished_unnamed id q os m g f h.1)

All-drop {ℓ κ} : {A : Type ℓ} (P : A → Type κ) (n : ℕ) (xs : List A) → All P xs → All P (drop n xs)
All-drop P zero xs h = h
All-drop P (suc n) [] h = tt
All-drop P (suc n) (x ∷ xs) h = All-drop P n xs h.1

finished_ops-Done :
    (m r : Dict String MoveOperation)
    → Keyed r
    → All (Dict.Stands m) r
    → All (Done m) (finished_ops r)
finished_ops-Done m [] k h = tt
finished_ops-Done m ((j, o) ∷ r) k h = elim (Bool-cases (is_finished o)) [
  | inl e ↦ rw e ((ap (λ i. Dict.get i m) k.0 ∙ h.0, e), finished_ops-Done m r k.1 h.1)
  | inr e ↦ rw e (finished_ops-Done m r k.1 h.1)
]

-- What is not finished is not pruned.
prune_keeps :
    (id : String) (q : MoveOperation) (s : MoveStore)
    → Keyed s.operations
    → Dict.IsMap s.operations
    → Dict.get id s.operations ≡ some q
    → is_finished q ≡ false
    → Dict.get id (prune_completed_operations s).operations ≡ some q
unfolding prune_completed_operations finished
prune_keeps id q s k u g f =
    let le : MoveOperation → MoveOperation → Bool = λ a b. leb b.started_at a.started_at in
    let done = sort le (finished_ops s.operations) in
    let all_done = All-drop (Done s.operations) 10 done (
      sort-All le (Done s.operations) (finished_ops s.operations)
        (finished_ops-Done s.operations s.operations k (Dict.All-Stands s.operations u))) in
    let unnamed = unfinished_unnamed id q (drop 10 done) s.operations g f all_done in
    ground (arith, unnamed, get-delete_each id (drop 10 done) s.operations)

-- On a store whose operations stand under their own ids, one to an id: completing one operation leaves
-- every other one that is not finished as it was.
pub complete_keeps :
    (move id : String) (q : MoveOperation) (done : Bool) (err : Option String) (s : MoveStore)
    → Keyed s.operations
    → Dict.IsMap s.operations
    → move ≢ id
    → get id s ≡ some q
    → is_finished q ≡ false
    → get id (complete move done err s) ≡ some q
unfolding complete get
complete_keeps move id q done err s k u d g f =
    let marked = record s { operations = Dict.modify move (finish done err) s.operations } in
    let same_ops = operations-release_lock move marked in
    prune_keeps id q (release_lock move marked)
      (subst Keyed (sym same_ops)
        (modify-Keyed move (finish done err) s.operations (finish-id done err) k))
      (subst Dict.IsMap (sym same_ops) (Dict.modify-IsMap move (finish done err) s.operations u))
      (ground (arith, same_ops, get-modify move id (finish done err) s.operations)) f
