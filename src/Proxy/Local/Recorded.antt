-- ===== src/Proxy/Local/Recorded.antt =====
-- proxy-router.ts: what the store of requests holds of a request.
use sardeenz.Base.{
  if◌then◌else◌, same, same_refl, ℕ, ◌≤◌, max, String, ◌≡◌, refl, ap, ◌∙◌, Bool, true, some, [],
  ◌∷◌, arith, string_key,
}
use sardeenz.Base.Dict
use sardeenz.Base.Dict.{get-modify, get-set}
use sardeenz.Stores.Requests.{
  InferenceRequest, RequestStore, get_by_model, add, push_bounded, completed, failed,
}
use sardeenz.Proxy.Local.{
  Flight, Proxy, take_off, begin_local, answered, settle_end, land, end_request, replace,
  pending_request, ended,
}

get_by_model-add :
    (name : String) (r : InferenceRequest) (s : RequestStore)
    → get_by_model name (add name r s) ≡ push_bounded s.max_size_per_model r (get_by_model name s)
unfolding get_by_model add
get_by_model-add name r s = ground (
  arith,
  get-set name name (push_bounded s.max_size_per_model r (Dict.or_empty (Dict.get name s.requests)))
      s.requests,
  same_refl {K = String} name,
)

get_by_model-modify :
    (name : String) (r : InferenceRequest) (s : RequestStore)
    → get_by_model name (record s { requests = Dict.modify name (replace r) s.requests })
      ≡ replace r (get_by_model name s)
unfolding get_by_model replace
get_by_model-modify name r s =
    ground (arith, get-modify name name (replace r) s.requests, same_refl {K = String} name)

fits_one : (q : InferenceRequest) (max : ℕ) → 2 ≤ max → push_bounded max q [] ≡ q ∷ []
unfolding push_bounded
fits_one q max h = ground arith

fits_two :
    (id : String) (r : InferenceRequest) (max : ℕ)
    → 2 ≤ max
    → r.id ≡ id
    → push_bounded max r (replace r (pending_request id ∷ [])) ≡ r ∷ r ∷ []
unfolding push_bounded replace
fits_two id r max h e =
    let k : same id r.id ≡ true = rw e (same_refl {K = String} id) in rw k (ground arith)

get_by_model-end_request :
    (name : String) (r : InferenceRequest) (s : RequestStore)
    → get_by_model name (end_request name r s)
      ≡ push_bounded s.max_size_per_model r (replace r (get_by_model name s))
unfolding end_request get_by_model replace
get_by_model-end_request name r s =
    get_by_model-add name r (record s { requests = Dict.modify name (replace r) s.requests })
    ∙ ap (push_bounded s.max_size_per_model r) (get_by_model-modify name r s)

-- A request that an instance answers, for a model with none stored before and room for two, is stored
-- twice, as completed or failed both times.
pub land-begin_local :
    (id name instance_id : String) (ok : Bool) (d : ℕ) (p : Proxy)
    → get_by_model name p.requests ≡ []
    → 2 ≤ p.requests.max_size_per_model
    → let r = ended id (if ok then completed else failed) d in
      get_by_model name (land id (answered ok d) (begin_local id name instance_id p)).requests
      ≡ r ∷ r ∷ []
unfolding land begin_local take_off settle_end add
land-begin_local id name instance_id ok d p e h =
    let r = ended id (if ok then completed else failed) d in
    let s = add name (pending_request id) p.requests in
    let f : Flight = record { name = name; instance_id = instance_id } in
    let found : Dict.get id (Dict.set id f p.flights) ≡ some f =
      ground (arith, get-set id id f p.flights, same_refl {K = String} id) in
    let once : get_by_model name s ≡ pending_request id ∷ [] =
      get_by_model-add name (pending_request id) p.requests
      ∙ rw e (fits_one _ p.requests.max_size_per_model h) in
    rw (found, land)
      (get_by_model-end_request name r s
        ∙ rw once (fits_two id r p.requests.max_size_per_model h refl))
