-- ===== src/Models/Store.antt =====
-- apps/backend/src/stores/model-store.ts. A `Set` of ids is the list of them in order of insertion. The
-- store holds values: the source holds references, and notices a changed path or name in `set` only if
-- it is given another object than the one that it holds. Of a `ModelInstance` the fields are kept that
-- the services read.
pub mod Index
pub mod Lookups
use sardeenz.Base.{
  ltb, ◌==◌, if◌then◌else◌, same, length, filter, ℕ, String, Bool, true, false, ◌&&◌, ◌||◌, Option,
  none, some, List, [], ◌∷◌, ◌++◌, string_key,
}
use sardeenz.Base.Dict
use sardeenz.Base.Dict.{Dict}
use sardeenz.Types.{ModelStatus, is_running}

pub record ModelInstance : Type 0 where
  pub id : String
  pub model_path : String
  pub model_name : String
  pub status : ModelStatus
  pub port : ℕ
  pub process_id : ℕ
  pub engine_core_pid : Option ℕ
  pub max_tokens : ℕ
  pub gpu_ids : List ℕ
  pub tensor_parallel_size : ℕ
  pub sleep_mode_enabled : Bool
  pub sleep_level : Option ℕ
  pub error_message : Option String
  pub routable : Bool

abbrev pub Index : Type 0
Index = Dict String (List String)

pub record ModelStore : Type 0 where
  pub instances : Dict String ModelInstance
  pub by_path : Index
  pub by_name : Index

unfoldable pub new : ModelStore
new = record { instances = []; by_path = []; by_name = [] }

-- `ids.has(id)`.
abbrev pub mem : String → List String → Bool
mem id [] = false
mem id (j ∷ ids) = same j id || mem id ids

-- `ids.add(id)`.
unfoldable pub add_id : String → List String → List String
add_id id ids = if mem id ids then ids else ids ++ id ∷ []

-- `ids.delete(id)`.
unfoldable pub delete_id : String → List String → List String
delete_id id [] = []
delete_id id (j ∷ ids) = if same j id then delete_id id ids else j ∷ delete_id id ids

-- Takes the id from the set of a key, and an emptied set from the index.
unfoldable pub index_remove : String → String → Index → Index
index_remove key id idx = elim (Dict.get key idx) [
  | none ↦ idx
  | some ids ↦
      let rest = delete_id id ids in
      if length rest == 0 then Dict.delete key idx else Dict.set key rest idx
]

-- Adds the id to the set of a key, which is made when missing.
unfoldable pub index_add : String → String → Index → Index
index_add key id idx = Dict.set key (add_id id (Dict.or_empty (Dict.get key idx))) idx

-- The removal from an index whose key has changed.
unfoldable pub reindex :
    Option ModelInstance → (ModelInstance → String) → ModelInstance → Index → Index
reindex none key i idx = idx
reindex (some old) key i idx =
    if same (key old) (key i) then idx else index_remove (key old) i.id idx

abbrev pub path_of : ModelInstance → String
path_of i = i.model_path

abbrev pub name_of : ModelInstance → String
name_of i = i.model_name

unfoldable pub set : ModelInstance → ModelStore → ModelStore
set i s =
    let old = Dict.get i.id s.instances in
    record {
      instances = Dict.set i.id i s.instances;
      by_path = index_add i.model_path i.id (reindex old path_of i s.by_path);
      by_name = index_add i.model_name i.id (reindex old name_of i s.by_name);
    }

unfoldable pub get : String → ModelStore → Option ModelInstance
get id s = Dict.get id s.instances

-- `ids.map((id) => instances.get(id)).filter(defined)`.
unfoldable pub resolve : List String → ModelStore → List ModelInstance
resolve [] s = []
resolve (id ∷ ids) s = elim (Dict.get id s.instances) [
  | none ↦ resolve ids s
  | some i ↦ i ∷ resolve ids s
]

unfoldable pub get_all_by_path : String → ModelStore → List ModelInstance
get_all_by_path path s = resolve (Dict.or_empty (Dict.get path s.by_path)) s

unfoldable pub get_all_by_name : String → ModelStore → List ModelInstance
get_all_by_name name s = resolve (Dict.or_empty (Dict.get name s.by_name)) s

abbrev pub serves : ModelInstance → Bool
serves i = is_running i.status && i.routable

unfoldable pub get_running_by_path : String → ModelStore → List ModelInstance
get_running_by_path path s = filter serves (get_all_by_path path s)

unfoldable pub get_running_by_name : String → ModelStore → List ModelInstance
get_running_by_name name s = filter serves (get_all_by_name name s)

-- The loop over the ids for a running one.
unfoldable pub first_running : List String → ModelStore → Option ModelInstance
first_running [] s = none
first_running (id ∷ ids) s = elim (Dict.get id s.instances) [
  | none ↦ first_running ids s
  | some i ↦ if is_running i.status then some i else first_running ids s
]

unfoldable pub get_by_path : String → ModelStore → Option ModelInstance
get_by_path path s = elim (Dict.or_empty (Dict.get path s.by_path)) [
  | [] ↦ none
  | id ∷ ids ↦ elim (first_running (id ∷ ids) s) [
    | some i ↦ some i
    | none ↦ Dict.get id s.instances
  ]
]

unfoldable pub set_routable : String → Bool → ModelStore → ModelStore × Bool
set_routable id b s = (
  record s { instances = Dict.modify id (λ i. record i { routable = b }) s.instances },
  Dict.has id s.instances,
)

-- `instance?.routable !== false`.
unfoldable pub is_routable : String → ModelStore → Bool
is_routable id s = elim (Dict.get id s.instances) [ none ↦ true | some i ↦ i.routable ]

unfoldable pub has_path : String → ModelStore → Bool
has_path path s = elim (Dict.get path s.by_path) [ none ↦ false | some ids ↦ ltb 0 (length ids) ]

unfoldable pub has : String → ModelStore → Bool
has id s = Dict.has id s.instances

unfoldable pub delete : String → ModelStore → ModelStore × Bool
delete id s = elim (Dict.get id s.instances) [
  | none ↦ (s, false)
  | some i ↦ (
    record {
      instances = Dict.delete id s.instances;
      by_path = index_remove i.model_path id s.by_path;
      by_name = index_remove i.model_name id s.by_name;
    },
    true,
  )
]

unfoldable pub get_all : ModelStore → List ModelInstance
get_all s = Dict.values s.instances

unfoldable pub count : ModelStore → ℕ
count s = length s.instances

unfoldable pub count_unique_paths : ModelStore → ℕ
count_unique_paths s = length s.by_path

unfoldable pub clear : ModelStore → ModelStore
clear s = record { instances = []; by_path = []; by_name = [] }

unfoldable pub get_all_paths : ModelStore → List String
get_all_paths s = Dict.keys s.by_path

unfoldable pub get_all_names : ModelStore → List String
get_all_names s = Dict.keys s.by_name
