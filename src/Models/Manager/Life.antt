-- ===== src/Models/Manager/Life.antt =====
-- model-manager.ts: the steps of an instance's life in any order, and whole methods.
use sardeenz.Base.Dict.{get-set, Dict}
use sardeenz.Models.Manager.Held.{
  IsManager, drop_instance-IsManager, put-IsManager, touch-IsManager,
}
use sardeenz.Models.Store.Index.{write-IsStore, new-IsStore}
use sardeenz.Base.{
  if◌then◌else◌, Bool-cases, Option-cases, ℕ, String, ◌≡◌, refl, inl, inr, Bool, true, false, ◌||◌,
  Option, none, some, List, [], ◌∷◌, arith, string_key,
}
use sardeenz.Base.Dict
use sardeenz.Logs.Buffer
use sardeenz.Types.{starting, ModelStatus, running, sleeping, stopping}
use sardeenz.Models.Store
use sardeenz.Models.Store.Index
use sardeenz.Models.Store.{Index, ModelInstance}
use sardeenz.Models.Manager.{
  not_found, awaits, unload_model, goes_on, done, internal_error, Step, is_stopping, delete_process,
  ready_begin, unload_begin, launch_model, handle_process_exit, with_status, set_status, touch,
  set_failure, ready_end, handle_process_error, with_failure, unload_end, unload_found,
  drop_instance, wake_end, sleep_end, has_process, not_ready, Manager, new,
}
use sardeenz.Logs.Buffer.{LogBuffer}

-- The steps, each with what the environment decides.
pub data Action : Type 0 where
  launches : ModelInstance → Bool → Action
  readies_begin readies_end : String → Action
  misses : String → Option String → Action
  unloads_begin : String → Action
  unloads_end : String → Bool → Action
  sleeps_end : String → ℕ → Bool → Action
  wakes_end : String → Bool → Action
  exits errs : ℕ → String → Option String → Action

-- An object of this id exists.
abbrev pub is_known : String → Manager → Bool
is_known id m = Dict.has id m.store.instances || Dict.has id m.detached

-- The id of a launched instance is a new UUID: an id in use launches nothing.
unfoldable pub act : Action → Manager → Manager
act (launches i spawned) m = if is_known i.id m then m else (launch_model i spawned m).0
act (readies_begin id) m = (ready_begin id m).0
act (readies_end id) m = (ready_end id m).0
act (misses id err) m = (not_ready id err m).0
act (unloads_begin id) m = (unload_begin id m).0
act (unloads_end id killed) m = (unload_end id killed m).0
act (sleeps_end id level answered) m = (sleep_end id level answered m).0
act (wakes_end id answered) m = (wake_end id answered m).0
act (exits now id err) m = (handle_process_exit now id err m).0
act (errs now id err) m = (handle_process_error now id err m).0

unfoldable pub act_all : List Action → Manager → Manager
act_all [] m = m
act_all (a ∷ as') m = act_all as' (act a m)

-- Only the processes and the logs differ.
with_rest :
    (ps : List String) (logs : LogBuffer) (m : Manager)
    → IsManager m
    → IsManager (record m { processes = ps; logs = logs })
with_rest ps logs m h = record { store_ok = h.store_ok; owned = h.owned; apart = h.apart }

set_status-IsManager :
    (id : String) (s : ModelStatus) (m : Manager) → IsManager m → IsManager (set_status id s m)
unfolding set_status
set_status-IsManager id s m h =
    put-IsManager id (touch id (with_status s) m)
      (touch-IsManager id (with_status s) m (λ i. (refl, refl, refl)) h)

set_failure-IsManager :
    (id : String) (err : Option String) (m : Manager)
    → IsManager m
    → IsManager (set_failure id err m)
unfolding set_failure
set_failure-IsManager id err m h =
    put-IsManager id (touch id (with_failure err) m)
      (touch-IsManager id (with_failure err) m (λ i. (refl, refl, refl)) h)

stored_new :
    (i : ModelInstance) (ps : List String) (m : Manager)
    → is_known i.id m ≡ false
    → IsManager m
    → IsManager (record m { processes = ps; store = Store.set i m.store })
unfolding Index.write Store.set
stored_new i ps m f h = record {
  store_ok = write-IsStore (Index.sets i) m.store h.store_ok;
  owned = h.owned;
  apart = λ j. ground (arith, f, h.apart j, get-set i.id j i m.store.instances);
}

launch-IsManager :
    (i : ModelInstance) (spawned : Bool) (m : Manager)
    → is_known i.id m ≡ false
    → IsManager m
    → IsManager (launch_model i spawned m).0
unfolding launch_model
launch-IsManager i true m f h =
    stored_new (with_status starting i) (Store.add_id i.id m.processes) m f h
launch-IsManager i false m f h =
    stored_new (with_failure (some "Failed to spawn vLLM process") i)
      (Store.delete_id i.id m.processes) m f h

unload_found-IsManager :
    (i : ModelInstance) (m : Manager) → IsManager m → IsManager (unload_found i m).0
unfolding unload_found
unload_found-IsManager i m h = elim (Bool-cases (has_process i.id m)) [
  | inl e ↦ rw (e, unload_found) (set_status-IsManager i.id stopping m h)
  | inr e ↦
      rw (e, unload_found)
        (drop_instance-IsManager i.id (record m { logs = Buffer.clear i.id m.logs })
          (with_rest m.processes (Buffer.clear i.id m.logs) m h))
]

failed_rest :
    (now : ℕ) (id : String) (err : Option String) (m : Manager)
    → IsManager m
    → IsManager (
        delete_process id
          (record (set_failure id err m) { logs = Buffer.schedule_cleanup now id none m.logs }))
failed_rest now id err m h =
    let m' = set_failure id err m in
    with_rest (Store.delete_id id m'.processes) (Buffer.schedule_cleanup now id none m.logs) m'
      (set_failure-IsManager id err m h)

pub act-IsManager : (a : Action) (m : Manager) → IsManager m → IsManager (act a m)
unfolding act ready_begin ready_end not_ready unload_begin unload_end sleep_end wake_end
    handle_process_exit handle_process_error
act-IsManager (launches i spawned) m h = elim (Bool-cases (is_known i.id m)) [
  | inl e ↦ rw (e, act) h
  | inr e ↦ rw (e, act) (launch-IsManager i spawned m e h)
]
act-IsManager (readies_begin id) m h = elim (Option-cases (Store.get id m.store)) [
  | inl e ↦ rw (e, act, ready_begin) h
  | inr (i, e) ↦
      rw (e, act, ready_begin)
        (touch-IsManager id (with_status running) m (λ j. (refl, refl, refl)) h)
]
act-IsManager (readies_end id) m h = put-IsManager id m h
act-IsManager (misses id err) m h = elim (Option-cases (Store.get id m.store)) [
  | inl e ↦ rw (e, act, not_ready) h
  | inr (i, e) ↦
      let m' = set_failure id err m in
      rw (e, act, not_ready)
        (with_rest (Store.delete_id id m'.processes) m'.logs m' (set_failure-IsManager id err m h))
]
act-IsManager (unloads_begin id) m h = elim (Option-cases (Store.get id m.store)) [
  | inr (i, e) ↦ rw (e, act, unload_begin) (unload_found-IsManager i m h)
  | inl e ↦ elim (Option-cases (Store.get_by_path id m.store)) [
    | inr (i, g) ↦ rw (e, g, act, unload_begin) (unload_found-IsManager i m h)
    | inl g ↦ rw (e, g, act, unload_begin) h
  ]
]
act-IsManager (unloads_end id true) m h =
    with_rest (Store.delete_id id (drop_instance id m).processes) (drop_instance id m).logs
      (drop_instance id m) (drop_instance-IsManager id m h)
act-IsManager (unloads_end id false) m h = h
act-IsManager (sleeps_end id level true) m h =
    put-IsManager id (touch id (λ i. record i { status = sleeping; sleep_level = some level }) m) (
      touch-IsManager id (λ i. record i { status = sleeping; sleep_level = some level }) m
        (λ i. (refl, refl, refl)) h)
act-IsManager (sleeps_end id level false) m h = h
act-IsManager (wakes_end id true) m h =
    put-IsManager id (touch id (λ i. record i { status = running; sleep_level = none }) m) (
      touch-IsManager id (λ i. record i { status = running; sleep_level = none }) m
        (λ i. (refl, refl, refl)) h)
act-IsManager (wakes_end id false) m h = h
act-IsManager (exits now id err) m h = elim (Option-cases (Store.get id m.store)) [
  | inl e ↦ rw (e, act, handle_process_exit) h
  | inr (i, e) ↦ elim (Bool-cases (is_stopping i.status)) [
    | inl s ↦
        rw (e, s, act, handle_process_exit)
          (with_rest (Store.delete_id id m.processes) (Buffer.clear id m.logs) m h)
    | inr s ↦ rw (e, s, act, handle_process_exit) (failed_rest now id err m h)
  ]
]
act-IsManager (errs now id err) m h = elim (Option-cases (Store.get id m.store)) [
  | inl e ↦ rw (e, act, handle_process_error) h
  | inr (i, e) ↦ rw (e, act, handle_process_error) (failed_rest now id err m h)
]

goes_on-IsManager :
    (rest : String → Manager → Step) (s : Step)
    → ((id : String) (m : Manager) → IsManager m → IsManager (rest id m).0)
    → IsManager s.0
    → IsManager (goes_on rest s).0
goes_on-IsManager rest (m, awaits id, es) k h = k id m h
goes_on-IsManager rest (m, done, es) k h = h
goes_on-IsManager rest (m, not_found, es) k h = h
goes_on-IsManager rest (m, internal_error, es) k h = h

pub unload_model-IsManager :
    (id : String) (killed : Bool) (m : Manager)
    → IsManager m
    → IsManager (unload_model id killed m).0
unfolding act unload_model
unload_model-IsManager id killed m h =
    goes_on-IsManager (λ j m'. unload_end j killed m') (unload_begin id m)
      (λ j m' h'. act-IsManager (unloads_end j killed) m' h') (act-IsManager (unloads_begin id) m h)

act_all-IsManager : (as' : List Action) (m : Manager) → IsManager m → IsManager (act_all as' m)
unfolding act_all
act_all-IsManager [] m h = h
act_all-IsManager (a ∷ as') m h = act_all-IsManager as' (act a m) (act-IsManager a m h)

-- Through any interleaving of the steps of launches, startups, unloads, sleeps, wakes and exits of a new
-- manager, the indexes of the model store agree with its instances, and no instance is both in the store
-- and detached from it.
pub new-act_all-IsManager : (as' : List Action) → IsManager (act_all as' new)
unfolding new Store.new Index.write_all Dict.get
new-act_all-IsManager as' =
    act_all-IsManager as' new (record { store_ok = new-IsStore []; owned = tt; apart = λ id. refl })
