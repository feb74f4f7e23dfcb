-- ===== src/Http/Users/Guard.antt =====
-- auth.ts and server.ts: who is let through.
use sardeenz.Base.{
  if◌then◌else◌, Option-cases, String, ◌≡◌, refl, inl, inr, Bool, true, false, ◌||◌, Option, none,
  some, [], ◌∷◌, arith, string_key,
}
use sardeenz.Base.Text.{includes}
use sardeenz.Http.Users.{
  untouched, is_exempt, require_role, gate, Guarded, User, Request, Role, admin, admin_readonly,
  Config, has_role, query_user, signed_in, authenticate,
}

module _ (verify : String → Option User) (verify_header : Option String → Option User) where
  -- The user that a request proves to be: of the token in the query, or else of the header.
  abbrev pub proven : Request → Option User
  proven r = elim (query_user verify verify_header r.query_token) [
    | some u ↦ some u
    | none ↦ verify_header r.authorization
  ]

  -- A user with this role, where `admin` may do everything.
  abbrev pub may : Role → Option User → Bool
  may admin u = has_role "admin" u
  may admin_readonly u = has_role "admin" u || has_role "admin-readonly" u

  -- What `authenticate` leaves for a user, or for none.
  abbrev outcome : Option User → Guarded
  outcome none = record { user = none; sent = 401 ∷ [] }
  outcome (some u) = record { user = some u; sent = [] }

  signed_in_lem :
      (q : Option User) (r : Request)
      → signed_in verify verify_header q r
        ≡ outcome (elim q [ some u ↦ some u | none ↦ verify_header r.authorization ])
  unfolding signed_in
  signed_in_lem (some u) r = refl
  signed_in_lem none r = elim (Option-cases (verify_header r.authorization)) [
    | inl e ↦ rw (e, signed_in) refl
    | inr (u, e) ↦ rw (e, signed_in) refl
  ]

  authenticate_lem :
      (c : Config) (r : Request)
      → c.no_auth ≡ false
      → authenticate verify verify_header c r ≡ outcome (proven r)
  unfolding authenticate
  authenticate_lem c r h = rw h (signed_in_lem (query_user verify verify_header r.query_token) r)

  role_outcome :
      (c : Config) (role : Role) (r : Request) (u : Option User)
      → c.no_auth ≡ false
      → authenticate verify verify_header c r ≡ outcome u
      → (require_role verify verify_header c role r).sent
        ≡ (if may role u then [] else elim u [ none ↦ 401 ∷ 403 ∷ [] | some v ↦ 403 ∷ [] ])
  unfolding require_role
  role_outcome c admin r none h e = rw (e, h) refl
  role_outcome c admin_readonly r none h e = rw (e, h) refl
  role_outcome c admin r (some v) h e = rw (e, h) (ground arith)
  role_outcome c admin_readonly r (some v) h e = rw (e, h) (ground arith)

  -- With authentication on, a route that requires a role sends no reply exactly if the request proves a user
  -- who may; it answers 401 to a request that proves none, and sends 403 after it, and 403 to a user who may
  -- not.
  pub sent-require_role :
      (c : Config) (role : Role) (r : Request)
      → c.no_auth ≡ false
      → (require_role verify verify_header c role r).sent ≡ (
          if may role (proven r)
          then []
          else elim (proven r) [ none ↦ 401 ∷ 403 ∷ [] | some v ↦ 403 ∷ [] ])
  sent-require_role c role r h = role_outcome c role r (proven r) h (authenticate_lem c r h)

  gated :
      (off exempt : Bool) (u : Option User)
      → off ≡ false
      → (if off || exempt then untouched else outcome u).sent
        ≡ (if exempt then [] else elim u [ none ↦ 401 ∷ [] | some v ↦ [] ])
  gated off true u h = ground arith
  gated off false none h = rw h refl
  gated off false (some v) h = rw h refl

  -- With authentication on, the hook of the server lets a request through exactly if its route is exempt or
  -- it proves a user.
  pub sent-gate :
      (c : Config) (r : Request)
      → c.no_auth ≡ false
      → (gate verify verify_header c r).sent
        ≡ (if is_exempt c r.url then [] else elim (proven r) [ none ↦ 401 ∷ [] | some v ↦ [] ])
  unfolding gate
  sent-gate c r h = rw (authenticate_lem c r h) (gated c.no_auth (is_exempt c r.url) (proven r) h)

  -- A request whose URL holds the text `auth_error=` passes the hook of the server, whatever its route and
  -- whoever sends it.
  pub gate_auth_error :
      (c : Config) (r : Request)
      → includes r.url "auth_error=" ≡ true
      → (gate verify verify_header c r).sent ≡ []
  unfolding gate is_exempt
  gate_auth_error c r h = rw h (ground arith)
