-- ===== src/Models/Manager/Race.antt =====
-- model-manager.ts: a sleep call that is under way when the instance is unloaded.
use sardeenz.Models.Manager.Methods.{
  asleep, get-put-touch, processes-put, unload_model-Unloads, unload_model_lem,
}
use sardeenz.Types.{stopping}
use sardeenz.Base.Dict.{get-delete, get-set, map_some}
use sardeenz.Models.Manager.Held.{
  drop_instance-IsManager, put-IsManager, KeepsNames, touch-IsManager, IsManager,
}
use sardeenz.Base.{
  Bool-cases, same_refl, ℕ, String, ◌≡◌, refl, ap, ◌∙◌, inl, inr, true, false, none, some, List,
  arith, string_key,
}
use sardeenz.Logs.Buffer
use sardeenz.Models.Store
use sardeenz.Models.Store.{ModelInstance}
use sardeenz.Models.Manager.{
  sleeping, sleep_end, with_status, drop_instance, touch, has_process, put, held, set_status,
  unload_model, Manager,
}

held-drop_instance :
    (id : String) (i : ModelInstance) (m : Manager)
    → Store.get id m.store ≡ some i
    → held id (drop_instance id m) ≡ some i
unfolding drop_instance Store.get Store.delete
held-drop_instance id i m e =
    ground (arith, e, get-delete id id m.store.instances, get-set id id i m.detached, same_refl id)

-- An instance that was dropped is back once its object is written and set.
comes_back :
    (i : ModelInstance) (f : ModelInstance → ModelInstance) (ps : List String) (m : Manager)
    → KeepsNames f
    → IsManager m
    → Store.get i.id m.store ≡ some i
    → let m' = record (drop_instance i.id m) { processes = ps } in
      Store.get i.id (put i.id (touch i.id f m')).store ≡ some (f i)
comes_back i f ps m k h e =
    let m' = record (drop_instance i.id m) { processes = ps } in
    let ok = drop_instance-IsManager i.id m h in
    let ok' : IsManager m' = record {
      store_ok = ok.store_ok;
      owned = ok.owned;
      apart = ok.apart;
    } in
    ground
      (arith, get-put-touch i.id i.id f m' k ok', held-drop_instance i.id i m e, same_refl i.id)

back_asleep :
    (i : ModelInstance) (level : ℕ) (m : Manager)
    → IsManager m
    → Store.get i.id m.store ≡ some i
    → map_some
        (λ j. j.status)
        (Store.get i.id (put i.id (touch i.id (asleep level) (unload_model i.id true m).0)).store)
      ≡ some sleeping
unfolding set_status
back_asleep i level m h e = elim (Bool-cases (has_process i.id m)) [
  | inl p ↦
      let n = set_status i.id stopping m in
      let kept = touch-IsManager i.id (with_status stopping) m (λ k. (refl, refl, refl)) h in
      let ok = put-IsManager i.id (touch i.id (with_status stopping) m) kept in
      let e' : Store.get i.id n.store ≡ some (with_status stopping i) = ground (
        arith,
        e,
        same_refl i.id,
        get-put-touch i.id i.id (with_status stopping) m (λ k. (refl, refl, refl)) h,
      ) in
      let ps = Store.delete_id i.id (drop_instance i.id n).processes in
      rw
        (
          unload_model_lem i m e,
          p,
          comes_back (with_status stopping i) (asleep level) ps n (λ k. (refl, refl, refl)) ok e',
        )
        refl
  | inr p ↦
      let n = record m { logs = Buffer.clear i.id m.logs } in
      let ok : IsManager n = record { store_ok = h.store_ok; owned = h.owned; apart = h.apart } in
      let ps = (drop_instance i.id n).processes in
      rw
        (unload_model_lem i m e, p, comes_back i (asleep level) ps n (λ k. (refl, refl, refl)) ok e)
        refl
]

-- An instance that is unloaded while it is being put to sleep comes back: the store has lost it, and has it
-- again, asleep and without a process, once the sleep call is answered.
pub sleep_end_after_unload :
    (i : ModelInstance) (level : ℕ) (m : Manager)
    → IsManager m
    → Store.get i.id m.store ≡ some i
    → let m' = (unload_model i.id true m).0 in
      (Store.get i.id m'.store ≡ none)
      × (has_process i.id m' ≡ false)
      × (map_some (λ j. j.status) (Store.get i.id (sleep_end i.id level true m').0.store)
          ≡ some sleeping)
      × (has_process i.id (sleep_end i.id level true m').0 ≡ false)
unfolding sleep_end touch
sleep_end_after_unload i level m h e =
    let u = unload_model-Unloads i m h e in
    let m' = (unload_model i.id true m).0 in
    let no_process : has_process i.id m' ≡ false =
      ground (arith, u.running_on i.id, same_refl i.id) in
    (
      ground (arith, u.stored i.id, same_refl i.id),
      no_process,
      back_asleep i level m h e,
      ap (Store.mem i.id) (processes-put i.id (touch i.id (asleep level) m')) ∙ no_process,
    )
