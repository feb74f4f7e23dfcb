-- ===== src/Moves/Store.antt =====
-- apps/backend/src/stores/move-store.ts. A refused `create`, which throws in the source, is `false`. A time is
-- the number of milliseconds of its `Date`. A partial record is one of optional fields.
pub mod Prune
pub mod Lock
use sardeenz.Base.{
  ltb, leb, if◌then◌else◌, same, length, drop, filter, find, ℕ, String, Bool, true, false, not,
  ◌&&◌, Option, none, some, List, [], ◌∷◌, string_key,
}
use sardeenz.Base.Dict
use sardeenz.Base.Dict.{Dict}
use sardeenz.Base.Sort.{sort}
use sardeenz.Base.Text.{is_blank}

pub data MovePhase : Type 0 where
  validating spawning switching draining completing failed completed : MovePhase

pub record MoveOperation : Type 0 where
  pub id : String
  pub source_instance_id : String
  pub target_instance_id : String
  pub target_gpu_ids : List ℕ
  pub drain_timeout_ms : ℕ
  pub phase : MovePhase
  pub started_at : ℕ
  pub error : Option String

-- `Partial<MoveOperation>`.
pub record MoveUpdates : Type 0 where
  pub id : Option String
  pub source_instance_id : Option String
  pub target_instance_id : Option String
  pub target_gpu_ids : Option (List ℕ)
  pub drain_timeout_ms : Option ℕ
  pub phase : Option MovePhase
  pub started_at : Option ℕ
  pub error : Option String

pub record MoveStore : Type 0 where
  pub operations : Dict String MoveOperation
  pub active_move : Option String

unfoldable pub new : MoveStore
new = record { operations = []; active_move = none }

-- `phase === 'completed' || phase === 'failed'`.
abbrev pub is_finished : MoveOperation → Bool
is_finished o = elim o.phase [
  | failed ↦ true
  | completed ↦ true
  | validating ↦ false
  | spawning ↦ false
  | switching ↦ false
  | draining ↦ false
  | completing ↦ false
]

unfoldable pub try_acquire_lock : String → MoveStore → MoveStore × Bool
try_acquire_lock move s = elim s.active_move [
  | none ↦ (record s { active_move = some move }, true)
  | some _ ↦ (s, false)
]

-- `this.activeMove === moveId`.
abbrev pub is_active : String → Option String → Bool
is_active move none = false
is_active move (some m) = same m move

unfoldable pub release_lock : String → MoveStore → MoveStore
release_lock move s = if is_active move s.active_move then record s { active_move = none } else s

unfoldable pub create : MoveOperation → MoveStore → MoveStore × Bool
create op s =
    let (s', locked) = try_acquire_lock op.id s in
    if locked
    then (record s' { operations = Dict.set op.id op s'.operations }, true)
    else (s', false)

unfoldable pub get : String → MoveStore → Option MoveOperation
get move s = Dict.get move s.operations

abbrev or_else {ℓ} : {A : Type ℓ} → Option A → A → A
or_else none a = a
or_else (some b) a = b

abbrev or_error : Option String → Option String → Option String
or_error none e = e
or_error (some t) e = some t

unfoldable pub assign : MoveUpdates → MoveOperation → MoveOperation
assign u o = record {
  id = or_else u.id o.id;
  source_instance_id = or_else u.source_instance_id o.source_instance_id;
  target_instance_id = or_else u.target_instance_id o.target_instance_id;
  target_gpu_ids = or_else u.target_gpu_ids o.target_gpu_ids;
  drain_timeout_ms = or_else u.drain_timeout_ms o.drain_timeout_ms;
  phase = or_else u.phase o.phase;
  started_at = or_else u.started_at o.started_at;
  error = or_error u.error o.error;
}

unfoldable pub update : String → MoveUpdates → MoveStore → MoveStore × Bool
update move u s =
    (record s { operations = Dict.modify move (assign u) s.operations }, Dict.has move s.operations)

-- `if (error) op.error = error`.
abbrev noted : Option String → Option String → Option String
noted none e = e
noted (some t) e = if is_blank t then e else some t

unfoldable pub finish : Bool → Option String → MoveOperation → MoveOperation
finish done err o = record o {
  phase = if done then completed else failed;
  error = noted err o.error;
}

-- The finished operations, the latest first.
unfoldable pub finished : Dict String MoveOperation → List MoveOperation
finished m = sort (λ a b. leb b.started_at a.started_at) (filter is_finished (Dict.values m))

unfoldable pub delete_each :
    List MoveOperation → Dict String MoveOperation → Dict String MoveOperation
delete_each [] m = m
delete_each (o ∷ os) m = delete_each os (Dict.delete o.id m)

unfoldable pub prune_completed_operations : MoveStore → MoveStore
prune_completed_operations s =
    let done = finished s.operations in
    if ltb 10 (length done)
    then record s { operations = delete_each (drop 10 done) s.operations }
    else s

-- `done` is the status: `completed`, or else `failed`.
unfoldable pub complete : String → Bool → Option String → MoveStore → MoveStore
complete move done err s =
    prune_completed_operations (
      release_lock move (record s { operations = Dict.modify move (finish done err) s.operations }))

unfoldable pub get_by_source_instance : String → MoveStore → Option MoveOperation
get_by_source_instance instance_id s =
    find (λ o. same o.source_instance_id instance_id && not (is_finished o))
      (Dict.values s.operations)

unfoldable pub get_by_target_instance : String → MoveStore → Option MoveOperation
get_by_target_instance instance_id s =
    find (λ o. same o.target_instance_id instance_id && not (is_finished o))
      (Dict.values s.operations)

unfoldable pub clear : MoveStore → MoveStore
clear s = record { operations = []; active_move = none }
