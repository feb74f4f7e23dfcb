-- ===== src/Http/Keys.antt =====
-- apps/backend/src/plugins/inference-auth.ts: the key of the inference endpoints; and the hook of
-- apps/backend/src/plugins/cluster-auth.ts, which checks the signature of a request between pods. An answer is
-- none where the request goes on, or the code of the error. Texts are compared as code points; upper case is
-- ASCII's.
pub mod Admits
use sardeenz.Base.{
  leb, ◌==◌, if◌then◌else◌, length, ℕ, ◌+◌, ◌-◌, ◌*◌, String, Bool, false, not, ◌&&◌, Option, none,
  some, List, [], ◌∷◌, ◌++◌, map,
}
use sardeenz.Base.Text.{codes, starts_with, is_blank}
use sardeenz.Cluster.Auth.{same_bytes, verify_request_dual_secret}

pub data Denial : Type 0 where
  missing_api_key invalid_auth_format invalid_api_key : Denial

-- `timingSafeEqual` on texts of the same length.
unfoldable pub secure_compare : List ℕ → List ℕ → Bool
secure_compare a b = if not (length a == length b) then false else same_bytes a b

-- `text.split(' ')`.
unfoldable pub split_spaces : List ℕ → List ℕ → List (List ℕ)
split_spaces word [] = word ∷ []
split_spaces word (c ∷ cs) =
    let here = split_spaces [] cs in
    let on = split_spaces (word ++ (c ∷ [])) cs in if c == b' ' then word ∷ here else on

-- `toLowerCase()`.
abbrev pub lower : ℕ → ℕ
lower c = if leb 65 c && leb c 90 then c + 32 else c

unfoldable pub is_bearer : List ℕ → Bool
is_bearer word = same_bytes (map lower word) (codes "bearer")

unfoldable pub check_parts : List ℕ → List (List ℕ) → Option Denial
check_parts key (scheme ∷ token ∷ []) =
    if not (is_bearer scheme)
    then some invalid_auth_format
    else if not (secure_compare token key)
    then some invalid_api_key
    else none
check_parts key [] = some invalid_auth_format
check_parts key (scheme ∷ []) = some invalid_auth_format
check_parts key (scheme ∷ token ∷ more ∷ rest) = some invalid_auth_format

unfoldable pub check_header : List ℕ → Option String → Option Denial
check_header key none = some missing_api_key
check_header key (some header) =
    if is_blank header
    then some missing_api_key
    else check_parts key (split_spaces [] (codes header))

-- With the configured key, which is blank where there is none.
unfoldable pub authenticate_inference : String → Option String → Option Denial
authenticate_inference key header = if is_blank key then none else check_header (codes key) header

-- `parseInt(text, 10)` on a text with no blank and no sign in front; none is `NaN`.
digits_from : ℕ → List ℕ → ℕ
digits_from n [] = n
digits_from n (c ∷ cs) =
    let on = digits_from (n * 10 + (c - 48)) cs in if leb 48 c && leb c 57 then on else n

unfoldable pub parse_int : List ℕ → Option ℕ
unfolding digits_from
parse_int [] = none
parse_int (c ∷ cs) = if leb 48 c && leb c 57 then some (digits_from 0 (c ∷ cs)) else none

pub record Signed : Type 0 where
  pub method : String
  pub url : String
  pub path : String
  pub body : String
  pub signature : Option String
  pub timestamp : Option String

pub data Refused : Type 0 where
  missing_signature missing_timestamp invalid_timestamp invalid_signature : Refused

module _ (hmac : String → List ℕ → String) (bytes : String → List ℕ) where
  unfoldable pub check_time : ℕ → String → Signed → String → Option ℕ → Option Refused
  check_time now secret r signature none = some invalid_timestamp
  check_time now secret r signature (some t) =
      if not
        (verify_request_dual_secret hmac bytes now r.method r.path r.body signature t secret "")
      then some invalid_signature
      else none

  unfoldable pub check_timestamp : ℕ → String → Signed → String → Option String → Option Refused
  check_timestamp now secret r signature none = some missing_timestamp
  check_timestamp now secret r signature (some text) =
      if is_blank text
      then some missing_timestamp
      else check_time now secret r signature (parse_int (codes text))

  unfoldable pub check_signature : ℕ → String → Signed → Option String → Option Refused
  check_signature now secret r none = some missing_signature
  check_signature now secret r (some signature) =
      if is_blank signature
      then some missing_signature
      else check_timestamp now secret r signature r.timestamp

  -- The hook, with the secret of the configuration, which is blank where there is none.
  unfoldable pub cluster_hook : ℕ → String → Signed → Option Refused
  cluster_hook now secret r =
      if not (starts_with (codes "/internal/") (codes r.url))
      then none
      else if is_blank secret
      then none
      else check_signature now secret r r.signature
