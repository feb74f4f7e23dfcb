-- ===== src/Models/Manager/Methods.antt =====
-- model-manager.ts: `unloadModel`, `sleepModel` and `wakeModel` from end to end.
use sardeenz.Models.Store.Index.{mem-delete_id}
use sardeenz.Types.{is_sleeping, is_running, running, stopping}
use sardeenz.Base.Dict.{get-modify, map_some}
use sardeenz.Models.Manager.Held.{
  put-IsManager, get-drop_instance, KeepsNames, touch-IsManager, get-put, get-touch, IsManager,
}
use sardeenz.Base.{
  if◌then◌else◌, Bool-cases, same, same_refl, same_iff, ℕ, String, ◌≡◌, refl, ap, ◌∙◌, inl, inr,
  true, not, ◌&&◌, none, some, [], arith, string_key,
}
use sardeenz.Logs.Buffer
use sardeenz.Models.Store
use sardeenz.Models.Store.{ModelInstance}
use sardeenz.Models.Manager.{
  Step, goes_on, awaits, delete_process, sleeping, wake_end, sleep_end, wake_begin, with_status,
  wake_model, sleep_begin, sleep_model, drop_instance, done, touch, has_process, Reply, put, held,
  unload_found, unload_begin, unload_end, set_status, unload_model, Manager,
}

held-touch :
    (id j : String) (f : ModelInstance → ModelInstance) (m : Manager)
    → held j (touch id f m) ≡ (if same id j then map_some f (held j m) else held j m)
unfolding touch Store.get
held-touch id j f m =
    ground (arith, get-modify id j f m.store.instances, get-modify id j f m.detached)

-- What becomes of the store when fields are written and the object is set again.
pub get-put-touch :
    (id j : String) (f : ModelInstance → ModelInstance) (m : Manager)
    → KeepsNames f
    → IsManager m
    → Store.get j (put id (touch id f m)).store
      ≡ (if same id j then map_some f (held id m) else Store.get j m.store)
get-put-touch id j f m k h = ground (
  arith,
  get-put id j (touch id f m) (touch-IsManager id f m k h),
  held-touch id id f m,
  same_refl id,
  get-touch id j f m,
)

pub processes-put : (id : String) (m : Manager) → (put id m).processes ≡ m.processes
unfolding put
processes-put id m = ground arith

processes-drop_instance : (id : String) (m : Manager) → (drop_instance id m).processes ≡ m.processes
unfolding drop_instance
processes-drop_instance id m = ground arith

-- The outcome of unloading `i`.
pub record Unloads (i : ModelInstance) (m : Manager) (r : Manager × Reply) : Type 0 where
  pub replied : r.1 ≡ done
  pub stored :
      (j : String) → Store.get j r.0.store ≡ (if same i.id j then none else Store.get j m.store)
  pub running_on : (j : String) → has_process j r.0 ≡ (not (same i.id j) && has_process j m)

unload_begin_lem :
    (i : ModelInstance) (m : Manager)
    → Store.get i.id m.store ≡ some i
    → unload_begin i.id m ≡ (
        if has_process i.id m
        then (set_status i.id stopping m, awaits i.id, [])
        else (drop_instance i.id (record m { logs = Buffer.clear i.id m.logs }), done, []))
unfolding unload_begin unload_found
unload_begin_lem i m e = rw (e, unload_begin, unload_found) refl

pub unload_model_lem :
    (i : ModelInstance) (m : Manager)
    → Store.get i.id m.store ≡ some i
    → unload_model i.id true m ≡ (
        if has_process i.id m
        then (delete_process i.id (drop_instance i.id (set_status i.id stopping m)), done)
        else (drop_instance i.id (record m { logs = Buffer.clear i.id m.logs }), done))
unfolding unload_model unload_end
unload_model_lem i m e =
    let rest : Step → Manager × Reply = goes_on (λ j m'. unload_end j true m') in
    elim (Bool-cases (has_process i.id m)) [
      | inl p ↦
          let b : unload_begin i.id m ≡ (set_status i.id stopping m, awaits i.id, []) =
            unload_begin_lem i m e ∙ rw p refl in
          rw p (ap rest b)
      | inr p ↦
          let b : unload_begin i.id m
              ≡ (drop_instance i.id (record m { logs = Buffer.clear i.id m.logs }), done, []) =
            unload_begin_lem i m e ∙ rw p refl in
          rw p (ap rest b)
    ]

-- The processes once an instance has been stopped and dropped.
mem-delete_process :
    (id j : String) (m : Manager)
    → has_process j (delete_process id (drop_instance id (set_status id stopping m)))
      ≡ (has_process j m && not (same id j))
unfolding set_status touch
mem-delete_process id j m =
    let stop = put id (touch id (with_status stopping) m) in
    let same_ps =
      processes-drop_instance id stop ∙ processes-put id (touch id (with_status stopping) m) in
    mem-delete_id id j (drop_instance id stop).processes
    ∙ ap (λ ps. Store.mem j ps && not (same id j)) same_ps

-- Unloading an instance of the store, if its process can be killed, takes it and its process away, and leaves
-- every other instance and process as it was.
pub unload_model-Unloads :
    (i : ModelInstance) (m : Manager)
    → IsManager m
    → Store.get i.id m.store ≡ some i
    → Unloads i m (unload_model i.id true m)
unfolding set_status
unload_model-Unloads i m h e = elim (Bool-cases (has_process i.id m)) [
  | inl p ↦
      let stop = put i.id (touch i.id (with_status stopping) m) in
      rw (unload_model_lem i m e, p)
        (record {
          replied = refl;
          stored = λ j. ground (
            arith,
            get-drop_instance i.id j stop,
            get-put-touch i.id j (with_status stopping) m (λ k. (refl, refl, refl)) h,
          );
          running_on = λ j. mem-delete_process i.id j m ∙ ground arith;
        })
  | inr p ↦
      let m' = record m { logs = Buffer.clear i.id m.logs } in
      rw (unload_model_lem i m e, p)
        (record {
          replied = refl;
          stored = λ j. get-drop_instance i.id j m';
          running_on = λ j. ground (arith, p, processes-drop_instance i.id m', same_iff i.id j);
        })
]

abbrev pub asleep : ℕ → ModelInstance → ModelInstance
asleep level i = record i { status = sleeping; sleep_level = some level }

abbrev awake : ModelInstance → ModelInstance
awake i = record i { status = running; sleep_level = none }

sleep_model_lem :
    (i : ModelInstance) (level : ℕ) (m : Manager)
    → Store.get i.id m.store ≡ some i
    → i.sleep_mode_enabled ≡ true
    → is_running i.status ≡ true
    → sleep_model i.id level true m ≡ (put i.id (touch i.id (asleep level) m), done)
unfolding sleep_model sleep_begin sleep_end
sleep_model_lem i level m e on r = rw (e, on, r, sleep_model, sleep_begin) refl

wake_model_lem :
    (id : String) (i : ModelInstance) (m : Manager)
    → Store.get id m.store ≡ some i
    → is_sleeping i.status ≡ true
    → wake_model id true m ≡ (put id (touch id awake m), done)
unfolding wake_model wake_begin wake_end
wake_model_lem id i m e s = rw (e, s, wake_model, wake_begin) refl

-- A running instance that was loaded with the sleep mode and is put to sleep and woken is as before, and so
-- are the others.
pub wake_model-sleep_model :
    (i : ModelInstance) (level : ℕ) (m : Manager) (j : String)
    → IsManager m
    → Store.get i.id m.store ≡ some i
    → i.sleep_mode_enabled ≡ true
    → i.status ≡ running
    → i.sleep_level ≡ none
    → let slept = sleep_model i.id level true m in
      let woken = wake_model i.id true slept.0 in
      (slept.1 ≡ done) × (woken.1 ≡ done) × (Store.get j woken.0.store ≡ Store.get j m.store)
wake_model-sleep_model i level m j h e on r l =
    let m1 = put i.id (touch i.id (asleep level) m) in
    let kept1 = touch-IsManager i.id (asleep level) m (λ k. (refl, refl, refl)) h in
    let ok1 = put-IsManager i.id (touch i.id (asleep level) m) kept1 in
    let g1 = get-put-touch i.id i.id (asleep level) m (λ k. (refl, refl, refl)) h in
    let e1 : Store.get i.id m1.store ≡ some (asleep level i) =
      ground (arith, g1, e, same_refl i.id) in
    rw
      (
        sleep_model_lem i level m e on (ground (arith, r)),
        wake_model_lem i.id (asleep level i) m1 e1 refl,
      )
      (
        refl,
        refl,
        ground (
          arith,
          e,
          e1,
          r,
          l,
          get-put-touch i.id j (asleep level) m (λ k. (refl, refl, refl)) h,
          get-put-touch i.id j awake m1 (λ k. (refl, refl, refl)) ok1,
        ),
      )
