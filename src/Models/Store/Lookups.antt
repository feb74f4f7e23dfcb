-- ===== src/Models/Store/Lookups.antt =====
-- model-store.ts: what the lookups by path and by name find.
use sardeenz.Base.{
  Option-cases, same, filter, All, String, ◌≡◌, refl, ◌∙◌, inl, inr, Bool, true, false, ◌&&◌, ◌||◌,
  Option, none, some, List, [], ◌∷◌, arith, string_key,
}
use sardeenz.Base.Dict
use sardeenz.Types.{is_running}
use sardeenz.Models.Store.{
  ModelInstance, ModelStore, mem, resolve, serves, get_all_by_path, get_all_by_name,
  get_running_by_path, get_running_by_name, first_running, get_by_path, get,
}
use sardeenz.Models.Store.Index.{IsStore, Owned}

abbrev pub has_id : String → List ModelInstance → Bool
has_id id [] = false
has_id id (i ∷ is) = same i.id id || has_id id is

Owned-get :
    (id : String) (m : Dict.Dict String ModelInstance) (i : ModelInstance)
    → All (λ e. e.1.id ≡ e.0) m
    → Dict.get id m ≡ some i
    → i.id ≡ id
unfolding Dict.get
Owned-get id [] i h e = cc
Owned-get id ((j, q) ∷ m) i h e = ground (arith, Owned-get id m i h.1)

-- The instance is there and passes the test.
abbrev pub passes : (ModelInstance → Bool) → Option ModelInstance → Bool
passes p none = false
passes p (some i) = p i

has_id-resolve :
    (p : ModelInstance → Bool) (id : String) (ids : List String) (s : ModelStore)
    → Owned s
    → has_id id (filter p (resolve ids s)) ≡ (mem id ids && passes p (Dict.get id s.instances))
unfolding resolve
has_id-resolve p id [] s h = refl
has_id-resolve p id (j ∷ ids) s h = elim (Option-cases (Dict.get j s.instances)) [
  | inl e ↦ ground (arith, has_id-resolve p id ids s h)
  | inr (i, e) ↦ ground (arith, has_id-resolve p id ids s h, Owned-get j s.instances i h e)
]

-- In a store whose indexes agree with its instances, an id is among the running instances of a model name
-- exactly if the store's instance of that id has the name, is running and is routable.
pub get_running_by_name_iff :
    (name id : String) (s : ModelStore)
    → IsStore s
    → has_id id (get_running_by_name name s)
      ≡ passes (λ i. same i.model_name name && serves i) (get id s)
unfolding get_running_by_name get_all_by_name get
get_running_by_name_iff name id s h =
    has_id-resolve serves id (Dict.or_empty (Dict.get name s.by_name)) s h.owned
    ∙ (rw (h.indexed.names name id) (ground arith))

-- The same of the running instances of a model path.
pub get_running_by_path_iff :
    (path id : String) (s : ModelStore)
    → IsStore s
    → has_id id (get_running_by_path path s)
      ≡ passes (λ i. same i.model_path path && serves i) (get id s)
unfolding get_running_by_path get_all_by_path get
get_running_by_path_iff path id s h =
    has_id-resolve serves id (Dict.or_empty (Dict.get path s.by_path)) s h.owned
    ∙ (rw (h.indexed.paths path id) (ground arith))

first_running-none :
    (ids : List String) (s : ModelStore)
    → first_running ids s ≡ none
    → All (λ i. is_running i.status ≡ false) (resolve ids s)
unfolding first_running resolve
first_running-none [] s h = tt
first_running-none (id ∷ ids) s h = elim (Option-cases (Dict.get id s.instances)) [
  | inl e ↦ rw (e, resolve) (first_running-none ids s (ground arith))
  | inr (i, e) ↦ rw (e, resolve) (ground (arith, e, first_running-none ids s))
]

first_running-some :
    (ids : List String) (s : ModelStore) (i : ModelInstance)
    → first_running ids s ≡ some i
    → is_running i.status ≡ true
unfolding first_running
first_running-some [] s i h = cc
first_running-some (id ∷ ids) s i h = ground (arith, first_running-some ids s i)

-- Where the instance found for a path is not running, no instance of the path is.
pub get_by_path_prefers_running :
    (path : String) (s : ModelStore) (i : ModelInstance)
    → get_by_path path s ≡ some i
    → is_running i.status ≡ false
    → All (λ j. is_running j.status ≡ false) (get_all_by_path path s)
unfolding get_by_path get_all_by_path
get_by_path_prefers_running path s i h r = go (Dict.or_empty (Dict.get path s.by_path)) refl
  where
    go :
        (ids : List String)
        → Dict.or_empty (Dict.get path s.by_path) ≡ ids
        → All (λ j. is_running j.status ≡ false) (resolve ids s)
    go [] e = unfold resolve in tt
    go (id ∷ ids) e = elim (Option-cases (first_running (id ∷ ids) s)) [
      | inl none_runs ↦ first_running-none (id ∷ ids) s none_runs
      | inr (j, runs) ↦ ground (arith, e, first_running-some (id ∷ ids) s j runs)
    ]
