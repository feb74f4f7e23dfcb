-- ===== src/Moves/Mover/Outcome.antt =====
-- model-mover.ts: what the end of a move and a rollback leave of the instances.
use sardeenz.Base.Text.{is_blank}
use sardeenz.Moves.Mover.Ends.{complete_move-frees, IsFree}
use sardeenz.Moves.Store.{MoveOperation}
use sardeenz.Base.{
  if◌then◌else◌, same, String, ◌≡◌, refl, sym, ap, subst, Bool, true, false, Option, none, some,
  arith, string_key,
}
use sardeenz.Base.Dict.{map_some, get-modify}
use sardeenz.Models
use sardeenz.Models.Store.{ModelInstance}
use sardeenz.Models.Manager.{unload_model, done}
use sardeenz.Models.Manager.Held.{IsManager}
use sardeenz.Models.Manager.Life.{unload_model-IsManager}
use sardeenz.Models.Manager.Methods.{Unloads, unload_model-Unloads}
use sardeenz.Models.Store.Index.{modify-IsStore}
use sardeenz.Moves.Store
use sardeenz.Moves.Mover.{Mover}
use sardeenz.Moves.Mover.Run.{
  rollback, unload_target, unload_source, set_phase, complete_move, World, unload, set_routable,
}

-- The instance of this id as the model store has it.
abbrev pub stored : String → Mover → Option ModelInstance
stored id x = Models.Store.get id x.manager.store

abbrev pub with_routable : Bool → ModelInstance → ModelInstance
with_routable b i = record i { routable = b }

pub set_routable-IsManager :
    (id : String) (b : Bool) (x : Mover)
    → IsManager x.manager
    → IsManager (set_routable id b x).manager
unfolding set_routable Models.Store.set_routable
set_routable-IsManager id b x h = record {
  store_ok =
      modify-IsStore id (with_routable b) x.manager.store (λ i. (refl, refl, refl)) h.store_ok;
  owned = h.owned;
  apart =
      λ j. ground (arith, h.apart j, get-modify id j (with_routable b) x.manager.store.instances);
}

stored-set_routable :
    (id j : String) (b : Bool) (x : Mover)
    → stored j (set_routable id b x)
      ≡ (if same id j then map_some (with_routable b) (stored j x) else stored j x)
unfolding set_routable Models.Store.set_routable Models.Store.get
stored-set_routable id j b x = get-modify id j (with_routable b) x.manager.store.instances

pub unload-IsManager :
    (w : World) (id : String) (x : Mover)
    → IsManager x.manager
    → IsManager (unload w id x).0.manager
unfolding unload
unload-IsManager w id x h = unload_model-IsManager id (w.killed id) x.manager h

pub stored-unload :
    (w : World) (i : ModelInstance) (j : String) (x : Mover)
    → IsManager x.manager
    → stored i.id x ≡ some i
    → w.killed i.id ≡ true
    → ((unload w i.id x).1 ≡ true)
      × (stored j (unload w i.id x).0 ≡ (if same i.id j then none else stored j x))
unfolding unload
stored-unload w i j x h e k =
    let u =
      subst (λ b. Unloads i x.manager (unload_model i.id b x.manager)) (sym k)
        (unload_model-Unloads i x.manager h e) in
    (ap (λ r. elim r [ done ↦ true | _ ↦ false ]) u.replied, u.stored j)

-- A move whose source is stored and can be killed ends with the source gone, every other instance as it was,
-- and the lock free.
pub unload_source-stored :
    (w : World) (op : MoveOperation) (i : ModelInstance) (j : String) (x : Mover)
    → IsManager x.manager
    → stored i.id x ≡ some i
    → w.killed i.id ≡ true
    → op.source_instance_id ≡ i.id
    → (stored j (unload_source w op x) ≡ (if same i.id j then none else stored j x))
      × IsFree op.id (unload_source w op x)
unfolding unload_source complete_move set_phase
unload_source-stored w op i j x h e k o =
    let x' = set_phase op.id Store.completing x in
    let (ok, after) = stored-unload w i j x' h e k in
    rw (o, ok, unload_source) (after, complete_move-frees op.id true none (unload w i.id x').0)

-- Routing goes back to the source, and the target is unloaded.
pub reverted :
    (w : World) (source : String) (t : ModelInstance) (j : String) (x : Mover)
    → IsManager x.manager
    → stored t.id x ≡ some t
    → is_blank t.id ≡ false
    → same source t.id ≡ false
    → w.killed t.id ≡ true
    → stored j (unload_target w t.id (set_routable source true x)) ≡ (
        if same t.id j
        then none
        else if same source j
        then map_some (with_routable true) (stored j x)
        else stored j x)
unfolding unload_target
reverted w source t j x h e b d k =
    let x' = set_routable source true x in
    let e' : stored t.id x' ≡ some t =
      ground (arith, stored-set_routable source t.id true x, e, d) in
    rw (b, unload_target)
      (ground (
        arith,
        (stored-unload w t j x' (set_routable-IsManager source true x h) e' k).1,
        stored-set_routable source j true x,
      ))

-- A rollback with a target to unload leaves the source routable and the target gone, every other instance
-- as it was, and the lock free.
pub rollback-stored :
    (w : World) (op : MoveOperation) (t : ModelInstance) (message j : String) (x : Mover)
    → IsManager x.manager
    → stored t.id x ≡ some t
    → op.target_instance_id ≡ t.id
    → is_blank t.id ≡ false
    → same op.source_instance_id t.id ≡ false
    → w.killed t.id ≡ true
    → (stored j (rollback w op message x) ≡ (
        if same t.id j
        then none
        else if same op.source_instance_id j
        then map_some (with_routable true) (stored j x)
        else stored j x))
      × IsFree op.id (rollback w op message x)
unfolding rollback complete_move
rollback-stored w op t message j x h e o b d k =
    let x' = set_routable op.source_instance_id true x in
    rw o (
      reverted w op.source_instance_id t j x h e b d k,
      complete_move-frees op.id false (some message) (unload_target w t.id x'),
    )
