-- ===== src/Stores/Requests/Window.antt =====
-- request-store.ts against an unbounded history.
use sardeenz.Base.{
  ltb, if◌then◌else◌, Bool-cases, same, length, drop, length-append, ℕ, ◌-◌, max, String, ◌≡◌, refl,
  sym, ap, ◌∙◌, inl, inr, List, [], ◌∷◌, ◌++◌, arith, string_key,
}
use sardeenz.Base.Dict
use sardeenz.Base.Dict.{get-set, Dict, get-delete}
use sardeenz.Base.Tail.{last_items, last_items-append, length-last_items-le, drop-zero, drop_nil}
use sardeenz.Stores.Requests.{
  new, InferenceRequest, RequestStore, push_bounded, get_by_model, add, clear_model, clear_all,
}

pub data Write : Type 0 where
  adds : String → InferenceRequest → Write
  clears_model : String → Write
  clears_all : Write

unfoldable pub write : Write → RequestStore → RequestStore
write (adds path r) s = add path r s
write (clears_model path) s = clear_model path s
write clears_all s = clear_all s

unfoldable pub write_all : List Write → RequestStore → RequestStore
write_all [] s = s
write_all (w ∷ ws) s = write_all ws (write w s)

-- The history of a model after one more write.
abbrev pub log_after : String → Write → List InferenceRequest → List InferenceRequest
log_after path (adds p r) log = if same p path then log ++ (r ∷ []) else log
log_after path (clears_model p) log = if same p path then [] else log
log_after path clears_all log = []

-- The requests added for the model since it was last cleared.
abbrev pub log_of : String → List Write → List InferenceRequest → List InferenceRequest
log_of path [] log = log
log_of path (w ∷ ws) log = log_of path ws (log_after path w log)

push_bounded-last_items {ℓ} :
    {A : Type ℓ} (max : ℕ) (x : A) (log : List A)
    → push_bounded max x (last_items max log) ≡ last_items max (log ++ (x ∷ []))
unfolding push_bounded
push_bounded-last_items max x log =
    let kept = last_items max log in
    let few = length-last_items-le max log in
    let one_more = length-append kept (x ∷ []) in
    elim (Bool-cases (ltb max (length (kept ++ (x ∷ []))))) [
      | inl over ↦
          let by_one : 1 ≡ length (kept ++ (x ∷ [])) - max = ground (arith, over, few, one_more) in
          rw (over, push_bounded)
            (ap (λ (n : ℕ). drop n (kept ++ (x ∷ []))) by_one ∙ last_items-append max log (x ∷ []))
      | inr fits ↦
          let none_over : length (kept ++ (x ∷ [])) - max ≡ 0 = ground (arith, fits) in
          rw (fits, push_bounded)
            (sym (drop-zero (length (kept ++ (x ∷ [])) - max) (kept ++ (x ∷ [])) none_over)
              ∙ last_items-append max log (x ∷ []))
    ]

get_by_model-write :
    (w : Write) (s : RequestStore) (path : String) (log : List InferenceRequest)
    → get_by_model path s ≡ last_items s.max_size_per_model log
    → (get_by_model path (write w s) ≡ last_items s.max_size_per_model (log_after path w log))
      × ((write w s).max_size_per_model ≡ s.max_size_per_model)
unfolding write add get_by_model clear_model clear_all Dict.get
get_by_model-write (adds p r) s path log h =
    let max = s.max_size_per_model in
    let pushed = push_bounded max r (get_by_model p s) in
    (
      elim (Bool-cases (same p path)) [
        | inl e ↦
            let at : p ≡ path = ground (arith, e) in
            rw (get-set p path pushed s.requests, e)
              (ap (λ q. push_bounded max r (get_by_model q s)) at
                ∙ ap (push_bounded max r) h
                ∙ push_bounded-last_items max r log)
        | inr e ↦ rw (get-set p path pushed s.requests, e) h
      ],
      refl,
    )
get_by_model-write (clears_model p) s path log h = (
  ground (
    arith,
    h,
    get-delete p path s.requests,
    drop_nil {A = InferenceRequest} (0 - s.max_size_per_model),
  ),
  refl,
)
get_by_model-write clears_all s path log h = (sym (drop_nil (0 - s.max_size_per_model)), refl)

get_by_model-write_all :
    (ws : List Write) (s : RequestStore) (path : String) (log : List InferenceRequest)
    → get_by_model path s ≡ last_items s.max_size_per_model log
    → get_by_model path (write_all ws s) ≡ last_items s.max_size_per_model (log_of path ws log)
unfolding write_all
get_by_model-write_all [] s path log h = h
get_by_model-write_all (w ∷ ws) s path log h =
    let (now, same_max) = get_by_model-write w s path log h in
    let after = log_after path w log in
    get_by_model-write_all ws (write w s) path after
      (now ∙ ap (λ (n : ℕ). last_items n after) (sym same_max))
    ∙ ap (λ (n : ℕ). last_items n (log_of path ws after)) same_max

-- Over any calls on a new store, it holds for each model the last requests, as many as the limit, of those
-- that were added for it since it was last cleared.
pub new-write_all-get_by_model :
    (max : ℕ) (ws : List Write) (path : String)
    → get_by_model path (write_all ws (new max)) ≡ last_items max (log_of path ws [])
unfolding new get_by_model Dict.get
new-write_all-get_by_model max ws path =
    get_by_model-write_all ws (new max) path [] (sym (drop_nil (0 - max)))
