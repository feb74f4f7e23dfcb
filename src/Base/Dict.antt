-- ===== src/Base/Dict.antt =====
-- The built-in `Map`: entries in order of insertion, at most one to a key. `set` keeps the place of a
-- key that is there and adds a new one at the end.
use Prim.Native.Nat.{suc}
use mathlib.Core.Path.{◌≡◌, refl, subst}
use mathlib.Core.Logic.{inl, inr}
use mathlib.Core.Bool.{Bool, true, false}
use mathlib.Core.List.{List, [], ◌∷◌, map}
use mathlib.Core.Option.{Option, none, some}
use native.Mathlib.Omega.{arith}
use sardeenz.Base.Tests.{Key, same, if◌then◌else◌, Bool-cases}
use sardeenz.Base.Lists.{length, All}

abbrev pub Dict {ℓ κ} : Type ℓ → Type κ → Type (ℓ ⊔ κ)
Dict K V = List (K × V)

abbrev pub is_some {ℓ} : {A : Type ℓ} → Option A → Bool
is_some none = false
is_some (some _) = true

-- `m.get(key) ?? []`, for an array that is made when first needed.
abbrev pub or_empty {ℓ} : {A : Type ℓ} → Option (List A) → List A
or_empty none = []
or_empty (some xs) = xs

abbrev pub map_some {ℓ κ} : {A : Type ℓ} {B : Type κ} → (A → B) → Option A → Option B
map_some f none = none
map_some f (some a) = some (f a)

module _ {ℓ κ} {K : Type ℓ} {V : Type κ} ⦃k : Key K⦄ where
  -- `m.get(key)`.
  unfoldable pub get : K → Dict K V → Option V
  get key [] = none
  get key ((j, v) ∷ m) = if same j key then some v else get key m

  -- `m.set(key, v)`.
  unfoldable pub set : K → V → Dict K V → Dict K V
  set key v [] = (key, v) ∷ []
  set key v ((j, w) ∷ m) = if same j key then (j, v) ∷ m else (j, w) ∷ set key v m

  -- `m.delete(key)`.
  unfoldable pub delete : K → Dict K V → Dict K V
  delete key [] = []
  delete key ((j, v) ∷ m) = if same j key then delete key m else (j, v) ∷ delete key m

  -- `Object.assign` and field writes on the object that `m.get(key)` gives.
  unfoldable pub modify : K → (V → V) → Dict K V → Dict K V
  modify key f [] = []
  modify key f ((j, v) ∷ m) = if same j key then (j, f v) ∷ m else (j, v) ∷ modify key f m

  -- `m.has(key)`.
  abbrev pub has : K → Dict K V → Bool
  has key m = is_some (get key m)

module _ {ℓ κ} {K : Type ℓ} {V : Type κ} where
  -- `Array.from(m.values())`.
  abbrev pub values : Dict K V → List V
  values = map (λ e. e.1)

  -- `Array.from(m.keys())`.
  abbrev pub keys : Dict K V → List K
  keys = map (λ e. e.0)

module _ {ℓ κ} {K : Type ℓ} {V : Type κ} ⦃k : Key K⦄ where
  pub get-set :
      (key j : K) (v : V) (m : Dict K V)
      → get j (set key v m) ≡ (if same key j then some v else get j m)
  unfolding get set
  get-set key j v [] = refl
  get-set key j v ((i, w) ∷ m) = ground (arith, get-set key j v m)

  pub get-delete :
      (key j : K) (m : Dict K V) → get j (delete key m) ≡ (if same key j then none else get j m)
  unfolding get delete
  get-delete key j [] = ground arith
  get-delete key j ((i, w) ∷ m) = ground (arith, get-delete key j m)

  pub get-modify :
      (key j : K) (f : V → V) (m : Dict K V)
      → get j (modify key f m) ≡ (if same key j then map_some f (get j m) else get j m)
  unfolding get modify
  get-modify key j f [] = ground arith
  get-modify key j f ((i, w) ∷ m) = ground (arith, get-modify key j f m)

  -- No key stands twice.
  abbrev pub IsMap : Dict K V → Type κ
  IsMap [] = Unit
  IsMap ((j, v) ∷ m) = (get j m ≡ none) × IsMap m

  pub set-IsMap : (key : K) (v : V) (m : Dict K V) → IsMap m → IsMap (set key v m)
  unfolding get set
  set-IsMap key v [] h = (refl, tt)
  set-IsMap key v ((j, w) ∷ m) h = ground (arith, get-set key j v m, set-IsMap key v m h.1)

  pub delete-IsMap : (key : K) (m : Dict K V) → IsMap m → IsMap (delete key m)
  unfolding delete
  delete-IsMap key [] h = tt
  delete-IsMap key ((j, w) ∷ m) h = ground (arith, get-delete key j m, delete-IsMap key m h.1)

  pub modify-IsMap : (key : K) (f : V → V) (m : Dict K V) → IsMap m → IsMap (modify key f m)
  unfolding modify
  modify-IsMap key f [] h = tt
  modify-IsMap key f ((j, w) ∷ m) h = ground (arith, get-modify key j f m, modify-IsMap key f m h.1)

  pub length-modify : (key : K) (f : V → V) (m : Dict K V) → length (modify key f m) ≡ length m
  unfolding modify
  length-modify key f [] = refl
  length-modify key f ((j, w) ∷ m) = ground (arith, length-modify key f m)

  pub length-set :
      (key : K) (v : V) (m : Dict K V)
      → length (set key v m) ≡ (if has key m then length m else suc (length m))
  unfolding get set
  length-set key v [] = refl
  length-set key v ((j, w) ∷ m) = ground (arith, length-set key v m)

module _ {ℓ κ μ} {K : Type ℓ} {V : Type κ} (P : V → Type μ) ⦃k : Key K⦄ where
  -- Every value has the property.
  abbrev pub AllValues : Dict K V → Type μ
  AllValues m = All (λ e. P e.1) m

  pub set-AllValues : (key : K) (v : V) (m : Dict K V) → P v → AllValues m → AllValues (set key v m)
  unfolding set
  set-AllValues key v [] p h = (p, tt)
  set-AllValues key v ((j, w) ∷ m) p h = ground (arith, set-AllValues key v m p h.1)

  pub delete-AllValues : (key : K) (m : Dict K V) → AllValues m → AllValues (delete key m)
  unfolding delete
  delete-AllValues key [] h = tt
  delete-AllValues key ((j, w) ∷ m) h = ground (arith, delete-AllValues key m h.1)

  pub modify-AllValues :
      (key : K) (f : V → V) (m : Dict K V)
      → ((v : V) → P v → P (f v))
      → AllValues m
      → AllValues (modify key f m)
  unfolding modify
  modify-AllValues key f [] p h = tt
  modify-AllValues key f ((j, w) ∷ m) p h = ground (arith, p w, modify-AllValues key f m p h.1)

  pub get-AllValues : (key : K) (v : V) (m : Dict K V) → AllValues m → get key m ≡ some v → P v
  unfolding get
  get-AllValues key v [] h e = cc
  get-AllValues key v ((j, w) ∷ m) h e = elim (Bool-cases (same j key)) [
    | inl hit ↦ subst P (ground arith) h.0
    | inr miss ↦ get-AllValues key v m h.1 (ground arith)
  ]

pub map_some_id {ℓ} : {A : Type ℓ} (o : Option A) → map_some (λ a. a) o ≡ o
map_some_id none = refl
map_some_id (some a) = refl

module _ {ℓ κ} {K : Type ℓ} {V : Type κ} ⦃k : Key K⦄ where
  abbrev pub Stands : Dict K V → K × V → Type κ
  Stands m e = get e.0 m ≡ some e.1

  Stands-cons :
      (j : K) (v : V) (m : Dict K V) (e : K × V)
      → get j m ≡ none
      → Stands m e
      → Stands ((j, v) ∷ m) e
  unfolding get
  Stands-cons j v m e h s = ground arith

  All-Stands-cons :
      (j : K) (v : V) (m xs : Dict K V)
      → get j m ≡ none
      → All (Stands m) xs
      → All (Stands ((j, v) ∷ m)) xs
  All-Stands-cons j v m [] h s = tt
  All-Stands-cons j v m (e ∷ xs) h s = (Stands-cons j v m e h s.0, All-Stands-cons j v m xs h s.1)

  -- Each entry is what a lookup of its key finds.
  pub All-Stands : (m : Dict K V) → IsMap m → All (Stands m) m
  unfolding get
  All-Stands [] h = tt
  All-Stands ((j, v) ∷ m) h = (ground arith, All-Stands-cons j v m m h.0 (All-Stands m h.1))
