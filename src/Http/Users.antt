-- ===== src/Http/Users.antt =====
-- apps/backend/src/plugins/auth.ts and the hook of server.ts that calls it. The verification of a JWT is not
-- part of the program: `verify` and `verify_header` are what it makes of a token and of the authorization
-- header, a user or none. `sent` holds the codes of the replies in order: the first is what the client gets.
pub mod Guard
use sardeenz.Base.{
  ◌==◌, if◌then◌else◌, same, any, ℕ, String, Bool, true, false, not, ◌&&◌, ◌||◌, Option, none, some,
  List, [], ◌∷◌, ◌++◌, string_key,
}
use sardeenz.Base.Text.{codes, starts_with, includes, is_blank}

pub record User : Type 0 where
  pub username : String
  pub roles : List String

pub record Request : Type 0 where
  pub url : String
  pub query_token : Option String
  pub authorization : Option String

pub data Role : Type 0 where
  admin admin_readonly : Role

-- A configuration: whether `authMode` is `none`, and whether `nodeEnv` is `production`.
pub record Config : Type 0 where
  pub no_auth : Bool
  pub production : Bool

-- What the guards leave: `request.user`, and the replies.
pub record Guarded : Type 0 where
  pub user : Option User
  pub sent : List ℕ

abbrev pub untouched : Guarded
untouched = record { user = none; sent = [] }

-- `url.split('?')[0]`.
unfoldable pub path_of : List ℕ → List ℕ
path_of [] = []
path_of (c ∷ cs) = let rest = path_of cs in if c == b'?' then [] else c ∷ rest

unfoldable pub begins_with_one : List String → String → Bool
begins_with_one prefixes url = any (λ p. starts_with (codes p) (path_of (codes url))) prefixes

unfoldable pub is_public_route : String → Bool
is_public_route url = begins_with_one ("/api/health" ∷ "/api/auth" ∷ "/docs" ∷ "/metrics" ∷ []) url

unfoldable pub is_inference_route : String → Bool
is_inference_route url =
    begins_with_one
      ("/v1/" ∷ "/tokenize" ∷ "/detokenize" ∷ "/pooling" ∷ "/classification" ∷ "/score" ∷ "/re-rank"
        ∷ "/api/direct/" ∷ [])
      url

abbrev pub has_role : String → Option User → Bool
has_role role none = false
has_role role (some u) = any (λ r. same r role) u.roles

abbrev wants_readonly : Role → Bool
wants_readonly admin = false
wants_readonly admin_readonly = true

abbrev pub begins : String → String → Bool
begins url prefix = starts_with (codes prefix) (codes url)

-- The routes that the hook of the server leaves to others.
unfoldable pub is_exempt : Config → String → Bool
is_exempt c url =
    is_public_route url
    || is_inference_route url
    || begins url "/internal/"
    || includes url "auth_error="
    || (c.production && not (begins url "/api/"))

module _ (verify : String → Option User) (verify_header : Option String → Option User) where
  -- The user of the token in the query, if it is there and valid.
  unfoldable pub query_user : Option String → Option User
  query_user none = none
  query_user (some t) = if is_blank t then none else verify t

  unfoldable pub signed_in : Option User → Request → Guarded
  signed_in (some u) r = record { user = some u; sent = [] }
  signed_in none r = elim (verify_header r.authorization) [
    | some u ↦ record { user = some u; sent = [] }
    | none ↦ record { user = none; sent = 401 ∷ [] }
  ]

  unfoldable pub authenticate : Config → Request → Guarded
  authenticate c r = if c.no_auth then untouched else signed_in (query_user r.query_token) r

  unfoldable pub optional_authenticate : Config → Request → Guarded
  optional_authenticate c r =
      if c.no_auth then untouched else record { user = verify_header r.authorization; sent = [] }

  -- The guard that `requireRole` returns.
  unfoldable pub require_role : Config → Role → Request → Guarded
  unfolding wants_readonly
  require_role c role r =
      let g = authenticate c r in
      if c.no_auth
      then g
      else if not (has_role "admin" g.user) && not (has_role "admin-readonly" g.user)
      then record g { sent = g.sent ++ 403 ∷ [] }
      else if has_role "admin" g.user || (wants_readonly role && has_role "admin-readonly" g.user)
      then g
      else record g { sent = g.sent ++ 403 ∷ [] }

  -- The hook `onRequest` of the server.
  unfoldable pub gate : Config → Request → Guarded
  gate c r = if c.no_auth || is_exempt c r.url then untouched else authenticate c r

  -- The hook, and then the guard of a route, which is not reached after a reply.
  unfoldable pub guard_route : Guarded → Config → Role → Request → Guarded
  guard_route g c role r = elim g.sent [ [] ↦ require_role c role r | code ∷ codes ↦ g ]
