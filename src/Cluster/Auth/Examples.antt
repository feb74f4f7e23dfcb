-- ===== src/Cluster/Auth/Examples.antt =====
-- cluster-auth.ts: the theorems at concrete inputs. The HMAC of the examples is the payload itself.
use sardeenz.Base.{leb, ℕ, ◌+◌, ◌≤◌, String, ◌≡◌, refl, true, ◌&&◌, List}
use sardeenz.Cluster.Auth.{distance, sign_request, verify_request, payload, digits, same_bytes}
use sardeenz.Cluster.Auth.Payload.{SameRequest}
use sardeenz.Cluster.Auth.Signed.{verify_request-sign_request, verify_request-SameRequest}

abbrev plain : String → List ℕ → List ℕ
plain secret p = p

abbrev raw : List ℕ → List ℕ
raw bs = bs

verify_request-sign_request_example :
    verify_request plain raw 1000 "post" "/internal" "{}"
      (sign_request plain raw "post" "/internal" "{}" "key" 900)
      900
      "key"
    ≡ (leb 900 (1000 + 30_000) && leb 1000 (900 + 30_000))
verify_request-sign_request_example =
    verify_request-sign_request plain raw 1000 900 "post" "/internal" "{}" "key"

passed :
    verify_request plain raw 1000 "POST" "/internal" "{}"
      (sign_request plain raw "post" "/internal" "{}" "key" 900)
      900
      "key"
    ≡ true
unfolding verify_request sign_request payload digits same_bytes
passed = refl

verify_request-SameRequest_example :
    SameRequest "POST" "post" "/internal" "/internal" "{}" "{}" 900 900
    × (distance 1000 900 ≤ 30_000)
verify_request-SameRequest_example =
    verify_request-SameRequest plain raw 1000 900 900 "POST" "post" "/internal" "/internal" "{}"
      "{}" "key" (λ p q e. e) (refl, (refl, (refl, (refl, tt)))) (refl, (refl, (refl, (refl, tt))))
      (refl, (refl, (refl, (refl, (refl, (refl, (refl, (refl, (refl, tt)))))))))
      (refl, (refl, (refl, (refl, (refl, (refl, (refl, (refl, (refl, tt))))))))) passed
