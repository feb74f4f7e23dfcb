-- ===== src/Cluster/Auth/Signed.antt =====
-- cluster-auth.ts: which requests pass.
use sardeenz.Gpus.Selector.{free}
use sardeenz.Base.{
  ltb, leb, Bool-cases, ℕ, ◌+◌, ◌≤◌, String, ◌≡◌, refl, sym, inl, inr, true, ◌&&◌, List, [], ◌∷◌,
  arith,
}
use sardeenz.Base.Text.{codes}
use sardeenz.Cluster.Auth.{
  replay_window_ms, distance, payload, same_bytes, sign_request, verify_request,
}
use sardeenz.Cluster.Auth.Payload.{OneLine, SameRequest, payload-injective}

same_bytes_refl : (as' : List ℕ) → same_bytes as' as' ≡ true
unfolding same_bytes
same_bytes_refl [] = refl
same_bytes_refl (a ∷ as') = ground (arith, same_bytes_refl as')

same_bytes_eq : (as' bs : List ℕ) → same_bytes as' bs ≡ true → as' ≡ bs
unfolding same_bytes
same_bytes_eq [] [] h = refl
same_bytes_eq [] (b ∷ bs) h = cc
same_bytes_eq (a ∷ as') [] h = cc
same_bytes_eq (a ∷ as') (b ∷ bs) h = ground (arith, h, same_bytes_eq as' bs)

-- A request that is signed with the secret passes exactly from 30 seconds before its time stamp until 30
-- seconds after it.
pub verify_request-sign_request {ℓ} :
    {Signature : Type ℓ} (hmac : String → List ℕ → Signature) (bytes : Signature → List ℕ)
    (now ts : ℕ) (method path body secret : String)
    → verify_request hmac bytes now method path body
        (sign_request hmac bytes method path body secret ts)
        ts
        secret
      ≡ (leb ts (now + 30_000) && leb now (ts + 30_000))
unfolding verify_request sign_request
verify_request-sign_request hmac bytes now ts method path body secret =
    rw (same_bytes_refl (bytes (hmac secret (payload method path ts body)))) (ground arith)

-- Where the HMAC has no collisions under the secret, and methods and paths have one line, a request that
-- passes with a signature made for some request is that request, but for the case of its method, with the same
-- time stamp, and this is at most 30 seconds away.
pub verify_request-SameRequest {ℓ} :
    {Signature : Type ℓ} (hmac : String → List ℕ → Signature) (bytes : Signature → List ℕ)
    (now ts ts' : ℕ) (method method' path path' body body' secret : String)
    → ((p q : List ℕ) → bytes (hmac secret p) ≡ bytes (hmac secret q) → p ≡ q)
    → OneLine (codes method)
    → OneLine (codes method')
    → OneLine (codes path)
    → OneLine (codes path')
    → verify_request hmac bytes now method path body
        (sign_request hmac bytes method' path' body' secret ts')
        ts
        secret
      ≡ true
    → SameRequest method method' path path' body body' ts ts' × (distance now ts ≤ 30_000)
unfolding verify_request sign_request
verify_request-SameRequest hmac bytes now ts ts' method method' path path' body body' secret free m
      m' p p' e =
    elim (Bool-cases (ltb replay_window_ms (distance now ts))) [
      | inl late ↦ absurd (ground (arith, e, late))
      | inr near ↦
          let made = payload method' path' ts' body' in
          let asked = payload method path ts body in
          let pass : same_bytes (bytes (hmac secret made)) (bytes (hmac secret asked)) ≡ true =
            ground (arith, e, near) in
          let same_text =
            free made asked
              (same_bytes_eq (bytes (hmac secret made)) (bytes (hmac secret asked)) pass) in
          (
            payload-injective method method' path path' body body' ts ts' m m' p p' (sym same_text),
            ground (arith, near),
          )
    ]
