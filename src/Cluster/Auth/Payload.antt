-- ===== src/Cluster/Auth/Payload.antt =====
-- cluster-auth.ts: the signed text tells the parts of a request apart.
use sardeenz.Base.{
  ◌==◌, Bool-cases, All, ℕ, zero, suc, ◌+◌, ◌-◌, ◌*◌, ◌/◌, ◌%◌, ◌<◌, String, ◌≡◌, refl, sym, ap,
  ◌∙◌, inl, inr, false, List, [], ◌∷◌, ◌++◌, map, arith,
}
use sardeenz.Base.Text.{codes, codes-injective}
use sardeenz.Cluster.Auth.{upper, digits, decimal, payload}

-- The number that digits stand for, after `n`.
abbrev read : List ℕ → ℕ → ℕ
read [] n = n
read (c ∷ cs) n = read cs (n * 10 + (c - 48))

read-digits : (fuel n : ℕ) (acc : List ℕ) → n < fuel → read (digits fuel n acc) 0 ≡ read acc n
unfolding digits
read-digits zero n acc h = absurd (omega arith)
read-digits (suc fuel) n acc h = elim (Bool-cases (n / 10 == 0)) [
  | inl e ↦
      let small : 0 * 10 + (48 + n % 10 - 48) ≡ n = ground (arith, e) in
      rw (e, digits) (ap (read acc) small)
  | inr e ↦
      let whole : n / 10 * 10 + (48 + n % 10 - 48) ≡ n = omega arith in
      let less : n / 10 < fuel = ground (arith, e, h) in
      rw (e, digits) (read-digits fuel (n / 10) ((48 + n % 10) ∷ acc) less ∙ ap (read acc) whole)
]

decimal-injective : (m n : ℕ) → decimal m ≡ decimal n → m ≡ n
decimal-injective m n e =
    sym (read-digits (suc m) m [] (omega arith))
    ∙ ap (λ cs. read cs 0) e
    ∙ read-digits (suc n) n [] (omega arith)

-- No end of a line is among the codes.
abbrev pub OneLine : List ℕ → Type 0
OneLine cs = All (λ c. (c == 10) ≡ false) cs

digits-OneLine : (fuel n : ℕ) (acc : List ℕ) → OneLine acc → OneLine (digits fuel n acc)
unfolding digits
digits-OneLine zero n acc h = h
digits-OneLine (suc fuel) n acc h = elim (Bool-cases (n / 10 == 0)) [
  | inl e ↦ rw (e, digits) (ground arith, h)
  | inr e ↦ rw (e, digits) (digits-OneLine fuel (n / 10) ((48 + n % 10) ∷ acc) (ground arith, h))
]

upper-OneLine : (cs : List ℕ) → OneLine cs → OneLine (map upper cs)
upper-OneLine [] h = tt
upper-OneLine (c ∷ cs) h = (ground (arith, h.0), upper-OneLine cs h.1)

line_split :
    (xs ys us vs : List ℕ)
    → OneLine xs
    → OneLine us
    → xs ++ (10 ∷ ys) ≡ us ++ (10 ∷ vs)
    → (xs ≡ us) × (ys ≡ vs)
line_split [] ys [] vs h k e = (refl, ground (arith, e))
line_split [] ys (u ∷ us) vs h k e = absurd (ground (arith, e, k.0))
line_split (x ∷ xs) ys [] vs h k e = absurd (ground (arith, e, h.0))
line_split (x ∷ xs) ys (u ∷ us) vs h k e =
    let rest = line_split xs ys us vs h.1 k.1 (ground (arith, e)) in
    (ground (arith, e, rest.0), rest.1)

-- The parts of two requests are the same but for the case of the method.
pub record SameRequest (method method' path path' body body' : String) (ts ts' : ℕ) : Type 0 where
  pub methods : map upper (codes method) ≡ map upper (codes method')
  pub paths : path ≡ path'
  pub bodies : body ≡ body'
  pub times : ts ≡ ts'

pub payload-injective :
    (method method' path path' body body' : String) (ts ts' : ℕ)
    → OneLine (codes method)
    → OneLine (codes method')
    → OneLine (codes path)
    → OneLine (codes path')
    → payload method path ts body ≡ payload method' path' ts' body'
    → SameRequest method method' path path' body body' ts ts'
unfolding payload
payload-injective method method' path path' body body' ts ts' m m' p p' e =
    let first =
      line_split (map upper (codes method)) (codes path ++ (10 ∷ (decimal ts ++ (10 ∷ codes body))))
        (map upper (codes method')) (codes path' ++ (10 ∷ (decimal ts' ++ (10 ∷ codes body'))))
        (upper-OneLine (codes method) m) (upper-OneLine (codes method') m') e in
    let second =
      line_split (codes path) (decimal ts ++ (10 ∷ codes body)) (codes path')
        (decimal ts' ++ (10 ∷ codes body')) p p' first.1 in
    let third =
      line_split (decimal ts) (codes body) (decimal ts') (codes body')
        (digits-OneLine (suc ts) ts [] tt) (digits-OneLine (suc ts') ts' [] tt) second.1 in
    record {
      methods = first.0;
      paths = codes-injective path path' second.0;
      bodies = codes-injective body body' third.1;
      times = decimal-injective ts ts' third.0;
    }
