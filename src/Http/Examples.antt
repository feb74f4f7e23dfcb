-- ===== src/Http/Examples.antt =====
-- The HTTP handlers: the theorems at concrete inputs.
use sardeenz.Base.{
  if◌then◌else◌, string_discrete, same, String, ◌≡◌, refl, true, false, Option, none, some, [], ◌∷◌,
  string_key,
}
use sardeenz.Base.Dict
use sardeenz.Base.Text.{codes}
use sardeenz.Cluster.Samples.{peer_b}
use sardeenz.Cluster.PeerStore.{PeerStore}
use sardeenz.Models.Samples.{serving, both, both-IsManager, get-serving}
use sardeenz.Models.Store
use sardeenz.Models.Manager
use sardeenz.Models.Manager.{unload_model}
use sardeenz.Models.Manager.Methods.{Unloads}
use sardeenz.Http.Users.{User, Request, admin, Config, require_role}
use sardeenz.Http.Users.Guard.{may, proven, sent-require_role}
use sardeenz.Http.Keys.{authenticate_inference}
use sardeenz.Http.Keys.Admits.{IsKeyed, authenticate_inference-IsKeyed}
use sardeenz.Http.ClusterModels.{Pods, operate, unloads, find_pod_for_instance}
use sardeenz.Http.ClusterModels.Reach.{operate_unloads}

-- One token is good, for a user who may read.
abbrev reader : User
reader = record { username = "ada"; roles = "admin-readonly" ∷ [] }

abbrev verify : String → Option User
verify t = if same t "good" then some reader else none

abbrev verify_header : Option String → Option User
verify_header h = none

abbrev on : Config
on = record { no_auth = false; production = false }

abbrev asks : Request
asks = record { url = "/api/models"; query_token = some "good"; authorization = none }

sent-require_role_example : (require_role verify verify_header on admin asks).sent ≡ (
    if may verify verify_header admin (proven verify verify_header asks)
    then []
    else elim (proven verify verify_header asks) [ none ↦ 401 ∷ 403 ∷ [] | some v ↦ 403 ∷ [] ])
sent-require_role_example = sent-require_role verify verify_header on admin asks refl

passes_with_key : authenticate_inference "k1" (some "Bearer k1") ≡ none
unfolding authenticate_inference sardeenz.Http.Keys.check_header sardeenz.Http.Keys.check_parts
    sardeenz.Http.Keys.split_spaces sardeenz.Http.Keys.is_bearer sardeenz.Cluster.Auth.same_bytes
    sardeenz.Http.Keys.secure_compare
passes_with_key = refl

authenticate_inference-IsKeyed_example :
    (text : String) × (some "Bearer k1" ≡ some text) × IsKeyed (codes "k1") (codes text)
authenticate_inference-IsKeyed_example =
    authenticate_inference-IsKeyed "k1" (some "Bearer k1") refl passes_with_key

abbrev seen : PeerStore
seen = ("b", peer_b) ∷ []

abbrev pods : Pods
pods = ("a", Manager.new) ∷ ("b", both) ∷ []

not_here : Store.get "i1" Manager.new.store ≡ none
unfolding Manager.new Store.get Store.new Dict.get
not_here = refl

found_b : find_pod_for_instance "i1" seen ≡ some peer_b
unfolding find_pod_for_instance string_discrete sardeenz.Http.ClusterModels.find_in_peers
    sardeenz.Http.ClusterModels.serves_instance
found_b = refl

manager_b : Dict.get "b" pods ≡ some both
unfolding Dict.get string_discrete
manager_b = refl

operate_unloads_example :
    let r = operate unloads "i1" true true "a" Manager.new seen pods in
    (r.1 ≡ 200)
    × ((pod : String)
        → Dict.get pod r.0
          ≡ (if same "b" pod then some (unload_model "i1" true both).0 else Dict.get pod pods))
    × Unloads serving both (unload_model "i1" true both)
operate_unloads_example =
    operate_unloads serving "a" Manager.new peer_b both seen pods not_here found_b manager_b
      both-IsManager get-serving
