-- ===== src/Cluster/Auth.antt =====
-- apps/backend/src/services/cluster-auth.ts: requests between pods are signed. The HMAC of the runtime is a
-- parameter, from a secret and the codes of a payload to the text of a signature, as is the reading of such
-- a text as bytes. Methods are upper-cased as ASCII; `previous` is empty where it is not given.
pub mod Payload
pub mod Signed
mod Examples
use sardeenz.Base.{
  ltb, leb, ◌==◌, if◌then◌else◌, ℕ, zero, suc, ◌+◌, ◌-◌, ◌/◌, ◌%◌, String, Bool, true, false, not,
  ◌&&◌, ◌||◌, List, [], ◌∷◌, ◌++◌, map,
}
use sardeenz.Base.Text.{codes, is_blank}

abbrev pub replay_window_ms : ℕ
replay_window_ms = 30_000

-- `Math.abs(a - b)`.
abbrev pub distance : ℕ → ℕ → ℕ
distance a b = a - b + (b - a)

abbrev pub upper : ℕ → ℕ
upper c = if leb 97 c && leb c 122 then c - 32 else c

-- The decimal digits of a number before `acc`, on fuel: more than the number is enough.
unfoldable pub digits : ℕ → ℕ → List ℕ → List ℕ
digits zero n acc = acc
digits (suc fuel) n acc =
    let rest = digits fuel (n / 10) ((48 + n % 10) ∷ acc) in
    if n / 10 == 0 then (48 + n % 10) ∷ acc else rest

-- `String(n)`.
abbrev pub decimal : ℕ → List ℕ
decimal n = digits (suc n) n []

-- The text that is signed, with 10 for the ends of lines.
unfoldable pub payload : String → String → ℕ → String → List ℕ
payload method path ts body =
    map upper (codes method) ++ (10 ∷ (codes path ++ (10 ∷ (decimal ts ++ (10 ∷ codes body)))))

unfoldable pub same_bytes : List ℕ → List ℕ → Bool
same_bytes [] [] = true
same_bytes [] (b ∷ bs) = false
same_bytes (a ∷ as') [] = false
same_bytes (a ∷ as') (b ∷ bs) = a == b && same_bytes as' bs

module _ {ℓ} {Signature : Type ℓ} (hmac : String → List ℕ → Signature)
    (bytes : Signature → List ℕ) where
  -- The signature for a time stamp.
  unfoldable pub sign_request : String → String → String → String → ℕ → Signature
  sign_request method path body secret ts = hmac secret (payload method path ts body)

  -- `verifyRequest` at the time `now`.
  unfoldable pub verify_request : ℕ → String → String → String → Signature → ℕ → String → Bool
  verify_request now method path body signature ts secret =
      if ltb replay_window_ms (distance now ts)
      then false
      else same_bytes (bytes signature) (bytes (hmac secret (payload method path ts body)))

  unfoldable pub verify_request_dual_secret :
      ℕ → String → String → String → Signature → ℕ → String → String → Bool
  verify_request_dual_secret now method path body signature ts current previous =
      verify_request now method path body signature ts current
      || (not (is_blank previous) && verify_request now method path body signature ts previous)
