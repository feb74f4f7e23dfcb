-- ===== src/Stores/Requests.antt =====
-- apps/backend/src/stores/request-store.ts. Of a request, the fields that the store reads; the average duration
-- is given as a sum and a count.
pub mod Window
use sardeenz.Base.{
  ltb, if◌then◌else◌, same, length, drop, filter, find, ℕ, ◌+◌, max, String, Bool, true, false,
  Option, none, some, List, [], ◌∷◌, ◌++◌, string_key,
}
use sardeenz.Base.Dict
use sardeenz.Base.Dict.{Dict}
use sardeenz.Base.Tail.{slice_back}

pub data RequestStatus : Type 0 where
  pending forwarded completed failed : RequestStatus

pub record InferenceRequest : Type 0 where
  pub id : String
  pub status : RequestStatus
  pub duration_ms : Option ℕ

pub record RequestStore : Type 0 where
  pub requests : Dict String (List InferenceRequest)
  pub max_size_per_model : ℕ

unfoldable pub new : ℕ → RequestStore
new max = record { requests = []; max_size_per_model = max }

-- `push`, then `shift` where there are more than the limit.
unfoldable pub push_bounded {ℓ} : {A : Type ℓ} → ℕ → A → List A → List A
push_bounded max x xs =
    let pushed = xs ++ (x ∷ []) in if ltb max (length pushed) then drop 1 pushed else pushed

unfoldable pub get_by_model : String → RequestStore → List InferenceRequest
get_by_model path s = Dict.or_empty (Dict.get path s.requests)

unfoldable pub add : String → InferenceRequest → RequestStore → RequestStore
unfolding get_by_model push_bounded
add path r s = record s {
  requests = Dict.set path (push_bounded s.max_size_per_model r (get_by_model path s)) s.requests;
}

abbrev find_in : String → Dict String (List InferenceRequest) → Option InferenceRequest
find_in id [] = none
find_in id ((path, rs) ∷ m) = elim (find (λ r. same r.id id) rs) [
  | some r ↦ some r
  | none ↦ find_in id m
]

unfoldable pub get : String → RequestStore → Option InferenceRequest
get id s = find_in id s.requests

unfoldable pub get_recent : String → ℕ → RequestStore → List InferenceRequest
unfolding get_by_model
get_recent path limit s = slice_back limit (get_by_model path s)

unfoldable pub count : String → RequestStore → ℕ
unfolding get_by_model
count path s = length (get_by_model path s)

unfoldable pub clear_model : String → RequestStore → RequestStore
clear_model path s = record s { requests = Dict.delete path s.requests }

unfoldable pub clear_all : RequestStore → RequestStore
clear_all s = record s { requests = [] }

abbrev is_completed : InferenceRequest → Bool
is_completed r = elim r.status [
  | completed ↦ true
  | pending ↦ false
  | forwarded ↦ false
  | failed ↦ false
]

abbrev is_failed : InferenceRequest → Bool
is_failed r = elim r.status [
  | failed ↦ true
  | pending ↦ false
  | forwarded ↦ false
  | completed ↦ false
]

abbrev duration_sum : List InferenceRequest → ℕ × ℕ
duration_sum [] = (0, 0)
duration_sum (r ∷ rs) =
    let (sum, n) = duration_sum rs in
    elim r.duration_ms [ none ↦ (sum, n) | some d ↦ (d + sum, n + 1) ]

-- Total, completed, failed, and the sum and the number of the durations of the completed.
unfoldable pub get_stats : String → RequestStore → ℕ × ℕ × ℕ × ℕ × ℕ
unfolding get_by_model
get_stats path s =
    let rs = get_by_model path s in
    let done = filter is_completed rs in
    let (sum, n) = duration_sum done in
    (length rs, length done, length (filter is_failed rs), sum, n)
