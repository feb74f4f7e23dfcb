-- ===== src/Models/Manager.antt =====
-- apps/backend/src/services/model-manager.ts: the life of an instance. A method that awaits is two steps, before
-- and after its last await, so that others can run between. An instance is one object: a step that runs on after
-- the store has dropped the instance still holds it, and can put it back; `detached` has these objects. The
-- processes, their health, and the text of an error are the environment's; so are the measures of a loaded
-- model. The mode is vLLM's; the inference simulator is left out.
pub mod Held
pub mod Life
pub mod Methods
pub mod Race
mod Examples
use sardeenz.Base.{
  if◌then◌else◌, ℕ, String, Bool, true, false, ◌&&◌, Option, none, some, List, [], ◌∷◌, string_key,
}
use sardeenz.Base.Dict
use sardeenz.Base.Dict.{Dict}
use sardeenz.Types.{
  is_sleeping, is_running, ModelStatus, starting, running, sleeping, stopping, failed,
}
use sardeenz.Models.Store
use sardeenz.Models.Store.{ModelInstance, ModelStore}
use sardeenz.Logs.Buffer
use sardeenz.Logs.Buffer.{LogBuffer}

pub record Manager : Type 0 where
  pub store : ModelStore
  pub processes : List String
  pub detached : Dict String ModelInstance
  pub logs : LogBuffer

-- `createStatusEvent`.
pub record StatusEvent : Type 0 where
  pub instance_id : String
  pub previous : Option ModelStatus
  pub current : ModelStatus

pub data Reply : Type 0 where
  done : Reply
  awaits : String → Reply
  not_found internal_error : Reply

abbrev pub Step : Type 0
Step = Manager × Reply × List StatusEvent

unfoldable pub new : Manager
new = record { store = Store.new; processes = []; detached = []; logs = Buffer.new none none }

-- Writes to fields of the object, wherever it is held.
unfoldable pub touch : String → (ModelInstance → ModelInstance) → Manager → Manager
touch id f m = record m {
  store = record m.store { instances = Dict.modify id f m.store.instances };
  detached = Dict.modify id f m.detached;
}

-- `modelStore.set(instance)` on the object of this id.
unfoldable pub put : String → Manager → Manager
put id m = elim (Store.get id m.store) [
  | some i ↦ record m { store = Store.set i m.store }
  | none ↦ elim (Dict.get id m.detached) [
    | none ↦ m
    | some i ↦ record m { store = Store.set i m.store; detached = Dict.delete id m.detached }
  ]
]

-- `modelStore.delete(instance.id)`.
unfoldable pub drop_instance : String → Manager → Manager
drop_instance id m = elim (Store.get id m.store) [
  | none ↦ m
  | some i ↦ record m { store = (Store.delete id m.store).0; detached = Dict.set id i m.detached }
]

abbrev pub with_status : ModelStatus → ModelInstance → ModelInstance
with_status s i = record i { status = s }

abbrev pub with_failure : Option String → ModelInstance → ModelInstance
with_failure err i = record i { status = failed; error_message = err }

unfoldable pub set_status : String → ModelStatus → Manager → Manager
set_status id s m = put id (touch id (with_status s) m)

unfoldable pub set_failure : String → Option String → Manager → Manager
set_failure id err m = put id (touch id (with_failure err) m)

abbrev pub add_process : String → Manager → Manager
add_process id m = record m { processes = Store.add_id id m.processes }

abbrev pub delete_process : String → Manager → Manager
delete_process id m = record m { processes = Store.delete_id id m.processes }

abbrev pub has_process : String → Manager → Bool
has_process id m = Store.mem id m.processes

abbrev event : String → Option ModelStatus → ModelStatus → StatusEvent
event id p s = record { instance_id = id; previous = p; current = s }

-- `launchModel` from the spawn on, with the instance it has made; `spawned` says whether the process has a PID.
unfoldable pub launch_model : ModelInstance → Bool → Manager → Step
launch_model i spawned m =
    if spawned
    then (
      record (add_process i.id m) { store = Store.set (with_status starting i) m.store },
      done,
      event i.id none starting ∷ [],
    )
    else (
      record (delete_process i.id m) {
        store = Store.set (with_failure (some "Failed to spawn vLLM process") i) m.store;
      },
      internal_error,
      event i.id (some starting) failed ∷ [],
    )

-- `monitorModelStartup` once the model is ready: before and after it is measured.
unfoldable pub ready_begin : String → Manager → Step
ready_begin id m = elim (Store.get id m.store) [
  | none ↦ (m, done, [])
  | some _ ↦ (touch id (with_status running) m, awaits id, [])
]

unfoldable pub ready_end : String → Manager → Step
ready_end id m = (put id m, done, event id (some starting) running ∷ [])

-- The `catch` of `monitorModelStartup`.
unfoldable pub not_ready : String → Option String → Manager → Step
not_ready id err m = elim (Store.get id m.store) [
  | none ↦ (m, done, [])
  | some _ ↦ (delete_process id (set_failure id err m), done, event id (some starting) failed ∷ [])
]

-- `unloadModel` on an instance that the store has.
unfoldable pub unload_found : ModelInstance → Manager → Step
unload_found i m =
    if has_process i.id m
    then (set_status i.id stopping m, awaits i.id, [])
    else (drop_instance i.id (record m { logs = Buffer.clear i.id m.logs }), done, [])

-- An id that is not known is tried as a path.
unfoldable pub unload_begin : String → Manager → Step
unload_begin id m = elim (Store.get id m.store) [
  | some i ↦ unload_found i m
  | none ↦ elim (Store.get_by_path id m.store) [
    | some i ↦ unload_found i m
    | none ↦ (m, not_found, [])
  ]
]

-- After the kills, which may have failed.
unfoldable pub unload_end : String → Bool → Manager → Step
unload_end id killed m =
    if killed then (delete_process id (drop_instance id m), done, []) else (m, internal_error, [])

unfoldable pub sleep_begin : String → Manager → Reply
sleep_begin id m = elim (Store.get id m.store) [
  | none ↦ not_found
  | some i ↦ if i.sleep_mode_enabled && is_running i.status then awaits id else internal_error
]

-- The object as a step that has awaited holds it.
abbrev pub held : String → Manager → Option ModelInstance
held id m = elim (Store.get id m.store) [ some i ↦ some i | none ↦ Dict.get id m.detached ]

abbrev status_of : Option ModelInstance → Option ModelStatus
status_of none = none
status_of (some i) = some i.status

-- `answered` is `response.ok`.
unfoldable pub sleep_end : String → ℕ → Bool → Manager → Step
sleep_end id level answered m =
    if answered
    then (
      put id (touch id (λ i. record i { status = sleeping; sleep_level = some level }) m),
      done,
      event id (status_of (held id m)) sleeping ∷ [],
    )
    else (m, internal_error, [])

unfoldable pub wake_begin : String → Manager → Reply
wake_begin id m = elim (Store.get id m.store) [
  | none ↦ not_found
  | some i ↦ if is_sleeping i.status then awaits id else internal_error
]

-- The polls of the health that follow end the same way whatever they see.
unfoldable pub wake_end : String → Bool → Manager → Step
wake_end id answered m =
    if answered
    then (
      put id (touch id (λ i. record i { status = running; sleep_level = none }) m),
      done,
      event id (status_of (held id m)) running ∷ [],
    )
    else (m, internal_error, [])

abbrev pub is_stopping : ModelStatus → Bool
is_stopping stopping = true
is_stopping _ = false

-- `handleProcessExit`; the message is made from the logs.
unfoldable pub handle_process_exit : ℕ → String → Option String → Manager → Step
handle_process_exit now id err m = elim (Store.get id m.store) [
  | none ↦ (m, done, [])
  | some i ↦
      if is_stopping i.status
      then (delete_process id (record m { logs = Buffer.clear id m.logs }), done, [])
      else (
        delete_process id
            (record (set_failure id err m) { logs = Buffer.schedule_cleanup now id none m.logs }),
        done,
        event id (some i.status) failed ∷ [],
      )
]

unfoldable pub handle_process_error : ℕ → String → Option String → Manager → Step
handle_process_error now id err m = elim (Store.get id m.store) [
  | none ↦ (m, done, [])
  | some i ↦ (
    delete_process id
        (record (set_failure id err m) { logs = Buffer.schedule_cleanup now id none m.logs }),
    done,
    event id (some i.status) failed ∷ [],
  )
]

-- A method that no other step interrupts goes on from its `await` at once.
abbrev pub goes_on : (String → Manager → Step) → Step → Manager × Reply
goes_on rest (m, awaits id, _) = let (m', r, _) = rest id m in (m', r)
goes_on rest (m, done, _) = (m, done)
goes_on rest (m, not_found, _) = (m, not_found)
goes_on rest (m, internal_error, _) = (m, internal_error)

unfoldable pub unload_model : String → Bool → Manager → Manager × Reply
unload_model id killed m = goes_on (λ j m'. unload_end j killed m') (unload_begin id m)

unfoldable pub sleep_model : String → ℕ → Bool → Manager → Manager × Reply
sleep_model id level answered m = elim (sleep_begin id m) [
  | awaits j ↦ let (m', r, _) = sleep_end j level answered m in (m', r)
  | done ↦ (m, done)
  | not_found ↦ (m, not_found)
  | internal_error ↦ (m, internal_error)
]

unfoldable pub wake_model : String → Bool → Manager → Manager × Reply
wake_model id answered m = elim (wake_begin id m) [
  | awaits j ↦ let (m', r, _) = wake_end j answered m in (m', r)
  | done ↦ (m, done)
  | not_found ↦ (m, not_found)
  | internal_error ↦ (m, internal_error)
]

-- The loop of `cleanup`, with the outcome of each kill.
unfoldable pub unload_each : List ModelInstance → (String → Bool) → Manager → Manager
unload_each [] killed m = m
unload_each (i ∷ is) killed m = unload_each is killed (unload_model i.id (killed i.id) m).0

unfoldable pub cleanup : (String → Bool) → Manager → Manager
cleanup killed m =
    let m' = unload_each (Store.get_all m.store) killed m in
    record m' { logs = Buffer.cleanup m'.logs }
