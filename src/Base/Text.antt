-- ===== src/Base/Text.antt =====
-- The order of texts by which `sort()` goes, as code points. (The source compares code units, which
-- differs only where a text holds characters beyond the basic plane.)
use Prim.Native.Nat.{◌/◌, ◌%◌, zero, suc, ℕ}
use Prim.Native.Char.{code}
use Prim.Native.String.{String, ◌++◌ as append_text}
use Prim.Native.String.append
use mathlib.Core.Path.{◌≡◌, refl, ap, ap₂, ◌∙◌}
use mathlib.Core.Logic.{◌⊎◌, inl, inr}
use mathlib.Core.Bool.{Bool, true, false, ◌&&◌, ◌||◌}
use mathlib.Core.List.{List, [], ◌∷◌}
use mathlib.Core.Option.{none, some}
use native.Mathlib.Omega.{arith}
use text.Mathlib.TextEquality.{Char-path}
use sardeenz.Base.Lists.{get_elem?}
use sardeenz.Base.Tests.{ltb, ◌==◌, if◌then◌else◌}

abbrev pub codes : String → List ℕ
codes String.[] = []
codes (String.◌∷◌ c s) = code c ∷ codes s

-- `!s` on a text.
abbrev pub is_blank : String → Bool
is_blank String.[] = true
is_blank (String.◌∷◌ c s) = false

-- `String(n)`: the decimal digits of a number before `acc`, on fuel; more than the number is enough.
digit_text : ℕ → String
digit_text d =
    elim (get_elem? {A = String} ("0" ∷ "1" ∷ "2" ∷ "3" ∷ "4" ∷ "5" ∷ "6" ∷ "7" ∷ "8" ∷ "9" ∷ [])
      d) [ none ↦ "" | some s ↦ s ]

digit_texts : ℕ → ℕ → String → String
unfolding digit_text
digit_texts zero n acc = acc
digit_texts (suc fuel) n acc =
    let more = append_text (digit_text (n % 10)) acc in
    let rest = digit_texts fuel (n / 10) more in if n / 10 == 0 then more else rest

unfoldable pub decimal_text : ℕ → String
unfolding digit_texts
decimal_text n = digit_texts (suc n) n ""

-- `${host}:${port}`.
unfoldable pub host_port : String → ℕ → String
host_port host port = append_text host (append_text ":" (decimal_text port))

append-nil : (t : String) → append_text "" t ≡ t
append-nil t = λ i. append.nil t i

append-cons : (s t : String) → is_blank s ≡ false → is_blank (append_text s t) ≡ false
append-cons String.[] t h = cc
append-cons (String.◌∷◌ c s) t h = ap is_blank (λ i. append.cons c s t i)

is_blank-append : (s t : String) → is_blank t ≡ false → is_blank (append_text s t) ≡ false
is_blank-append String.[] t h = ap is_blank (append-nil t) ∙ h
is_blank-append (String.◌∷◌ c s) t h = append-cons (String.◌∷◌ c s) t refl

pub is_blank-host_port : (host : String) (port : ℕ) → is_blank (host_port host port) ≡ false
unfolding host_port
is_blank-host_port host port =
    is_blank-append host (append_text ":" (decimal_text port))
      (append-cons ":" (decimal_text port) refl)

unfoldable pub starts_with : List ℕ → List ℕ → Bool
starts_with [] ys = true
starts_with (x ∷ xs) [] = false
starts_with (x ∷ xs) (y ∷ ys) = x == y && starts_with xs ys

unfoldable pub occurs_in : List ℕ → List ℕ → Bool
unfolding starts_with
occurs_in xs [] = starts_with xs []
occurs_in xs (y ∷ ys) = starts_with xs (y ∷ ys) || occurs_in xs ys

-- `text.includes(part)`.
unfoldable pub includes : String → String → Bool
unfolding occurs_in
includes text part = occurs_in (codes part) (codes text)

unfoldable pub le_codes : List ℕ → List ℕ → Bool
le_codes [] bs = true
le_codes (a ∷ as') [] = false
le_codes (a ∷ as') (b ∷ bs) = ltb a b || (a == b && le_codes as' bs)

le_codes_total : (xs ys : List ℕ) → (le_codes xs ys ≡ true) ⊎ (le_codes ys xs ≡ true)
unfolding le_codes
le_codes_total [] ys = inl refl
le_codes_total (x ∷ xs) [] = inr refl
le_codes_total (x ∷ xs) (y ∷ ys) = ground (arith, le_codes_total xs ys)

le_codes_trans :
    (xs ys zs : List ℕ) → le_codes xs ys ≡ true → le_codes ys zs ≡ true → le_codes xs zs ≡ true
unfolding le_codes
le_codes_trans [] ys zs h k = refl
le_codes_trans (x ∷ xs) [] zs h k = cc
le_codes_trans (x ∷ xs) (y ∷ ys) [] h k = cc
le_codes_trans (x ∷ xs) (y ∷ ys) (z ∷ zs) h k = ground (arith, le_codes_trans xs ys zs)

le_codes_antisymm : (xs ys : List ℕ) → le_codes xs ys ≡ true → le_codes ys xs ≡ true → xs ≡ ys
unfolding le_codes
le_codes_antisymm [] [] h k = refl
le_codes_antisymm [] (y ∷ ys) h k = cc
le_codes_antisymm (x ∷ xs) [] h k = cc
le_codes_antisymm (x ∷ xs) (y ∷ ys) h k = ground (arith, le_codes_antisymm xs ys)

unfoldable pub le_text : String → String → Bool
unfolding le_codes
le_text s t = le_codes (codes s) (codes t)

pub codes-injective : (s t : String) → codes s ≡ codes t → s ≡ t
codes-injective String.[] String.[] h = refl
codes-injective String.[] (String.◌∷◌ d t) h = cc
codes-injective (String.◌∷◌ c s) String.[] h = cc
codes-injective (String.◌∷◌ c s) (String.◌∷◌ d t) h =
    ap₂ String.◌∷◌ (Char-path c d (ground arith)) (codes-injective s t (ground arith))

pub le_text_total : (s t : String) → (le_text s t ≡ true) ⊎ (le_text t s ≡ true)
unfolding le_text
le_text_total s t = le_codes_total (codes s) (codes t)

pub le_text_trans : (s t u : String) → le_text s t ≡ true → le_text t u ≡ true → le_text s u ≡ true
unfolding le_text
le_text_trans s t u = le_codes_trans (codes s) (codes t) (codes u)

pub le_text_antisymm : (s t : String) → le_text s t ≡ true → le_text t s ≡ true → s ≡ t
unfolding le_text
le_text_antisymm s t h k = codes-injective s t (le_codes_antisymm (codes s) (codes t) h k)
