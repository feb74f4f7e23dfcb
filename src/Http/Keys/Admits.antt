-- ===== src/Http/Keys/Admits.antt =====
-- inference-auth.ts and the hook of cluster-auth.ts: which requests pass.
use sardeenz.Base.{
  ◌==◌, Bool-cases, ℕ, String, ◌≡◌, refl, sym, ap, ◌∙◌, ◌≢◌, inl, inr, true, false, Option, none,
  some, List, [], ◌∷◌, ◌++◌, arith,
}
use sardeenz.Cluster.Auth.{same_bytes}
use sardeenz.Base.Text.{codes, is_blank}
use sardeenz.Http.Keys.{
  is_bearer, check_parts, check_header, authenticate_inference, secure_compare, split_spaces,
}

same_bytes_eq : (xs ys : List ℕ) → same_bytes xs ys ≡ true → xs ≡ ys
unfolding same_bytes
same_bytes_eq [] [] h = refl
same_bytes_eq [] (y ∷ ys) h = cc
same_bytes_eq (x ∷ xs) [] h = cc
same_bytes_eq (x ∷ xs) (y ∷ ys) h = ground (arith, same_bytes_eq xs ys)

secure_compare_eq : (xs ys : List ℕ) → secure_compare xs ys ≡ true → xs ≡ ys
unfolding secure_compare
secure_compare_eq xs ys h = same_bytes_eq xs ys (ground arith)

shift : (word : List ℕ) (c : ℕ) (cs : List ℕ) → (word ++ (c ∷ [])) ++ cs ≡ word ++ (c ∷ cs)
shift [] c cs = refl
shift (w ∷ ws) c cs = ap (◌∷◌ w) (shift ws c cs)

append_nil : (xs : List ℕ) → xs ++ [] ≡ xs
append_nil [] = refl
append_nil (x ∷ xs) = ap (◌∷◌ x) (append_nil xs)

split_not_nil : (word cs : List ℕ) → split_spaces word cs ≢ []
unfolding split_spaces
split_not_nil word [] h = cc
split_not_nil word (c ∷ cs) h = elim (Bool-cases (c == 32)) [
  | inl e ↦ absurd (ground arith)
  | inr e ↦ split_not_nil (word ++ (c ∷ [])) cs (ground arith)
]

one_part : (word cs x : List ℕ) → split_spaces word cs ≡ x ∷ [] → word ++ cs ≡ x
unfolding split_spaces
one_part word [] x h = append_nil word ∙ ground arith
one_part word (c ∷ cs) x h = elim (Bool-cases (c == 32)) [
  | inl e ↦ absurd (split_not_nil [] cs (ground arith))
  | inr e ↦ sym (shift word c cs) ∙ one_part (word ++ (c ∷ [])) cs x (ground arith)
]

two_parts : (word cs x y : List ℕ) → split_spaces word cs ≡ x ∷ y ∷ [] → word ++ cs ≡ x ++ (32 ∷ y)
unfolding split_spaces
two_parts word [] x y h = cc
two_parts word (c ∷ cs) x y h = elim (Bool-cases (c == 32)) [
  | inl e ↦
      let rest : cs ≡ y = one_part [] cs y (ground arith) in
      let space : c ≡ 32 = ground arith in
      let first : word ≡ x = ground arith in rw (rest, space, first) refl
  | inr e ↦ sym (shift word c cs) ∙ two_parts (word ++ (c ∷ [])) cs x y (ground arith)
]

-- A header of the form `Bearer <key>`.
pub record IsKeyed (key header : List ℕ) : Type 0 where
  pub scheme : List ℕ
  pub bearer : is_bearer scheme ≡ true
  pub parts : header ≡ scheme ++ (32 ∷ key)

check_parts-IsKeyed :
    (key : List ℕ) (ps : List (List ℕ)) (header : List ℕ)
    → split_spaces [] header ≡ ps
    → check_parts key ps ≡ none
    → IsKeyed key header
unfolding check_parts
check_parts-IsKeyed key [] header e h = cc
check_parts-IsKeyed key (x ∷ []) header e h = cc
check_parts-IsKeyed key (x ∷ y ∷ z ∷ zs) header e h = cc
check_parts-IsKeyed key (x ∷ y ∷ []) header e h = elim (Bool-cases (is_bearer x)) [
  | inr b ↦ absurd (ground arith)
  | inl b ↦ elim (Bool-cases (secure_compare y key)) [
    | inr k ↦ absurd (ground arith)
    | inl k ↦ record {
      scheme = x;
      bearer = b;
      parts = two_parts [] header x y e ∙ rw (secure_compare_eq y key k) refl;
    }
  ]
]

check_header-IsKeyed :
    (key : List ℕ) (header : Option String)
    → check_header key header ≡ none
    → (text : String) × (header ≡ some text) × IsKeyed key (codes text)
unfolding check_header
check_header-IsKeyed key none h = cc
check_header-IsKeyed key (some text) h = elim (Bool-cases (is_blank text)) [
  | inl b ↦ absurd (ground arith)
  | inr b ↦ (
    text,
    refl,
    check_parts-IsKeyed key (split_spaces [] (codes text)) (codes text) refl (ground arith),
  )
]

-- Where a key is configured, a request passes only with an authorization header that is the word `bearer`,
-- in any case, one space, and that key.
pub authenticate_inference-IsKeyed :
    (key : String) (header : Option String)
    → is_blank key ≡ false
    → authenticate_inference key header ≡ none
    → (text : String) × (header ≡ some text) × IsKeyed (codes key) (codes text)
unfolding authenticate_inference
authenticate_inference-IsKeyed key header b h =
    check_header-IsKeyed (codes key) header (ground arith)
