-- ===== src/Moves/Mover/Cancel.antt =====
-- model-mover.ts: what a move that is cancelled while it drains leaves of its instances.
use sardeenz.Base.Text.{is_blank}
use sardeenz.Moves.Store.{MoveOperation}
use sardeenz.Base.{
  ltb, ◌==◌, if◌then◌else◌, Bool-cases, same, same_refl, same_iff, ℕ, zero, suc, ◌+◌, ◌*◌, ◌≤◌, ◌<◌,
  String, ◌≡◌, refl, ap, inl, inr, true, false, none, some, arith, string_key,
}
use sardeenz.Base.Dict.{map_some}
use sardeenz.Models.Store.{ModelInstance}
use sardeenz.Models.Manager.Held.{IsManager}
use sardeenz.Moves.Store
use sardeenz.Moves.Mover.{Mover}
use sardeenz.Stores.Connections.{get_instance_connections}
use sardeenz.Moves.Mover.Run.{
  drained, wait_for_drain, cancel_move, cancelled, revert_to_source, unload_target, unload_source,
  complete_move, World, set_routable,
}
use sardeenz.Moves.Mover.Outcome.{
  stored, with_routable, set_routable-IsManager, unload-IsManager, reverted, unload_source-stored,
}

revert_to_source-stored :
    (w : World) (op : MoveOperation) (t : ModelInstance) (j : String) (x : Mover)
    → IsManager x.manager
    → stored t.id x ≡ some t
    → op.target_instance_id ≡ t.id
    → is_blank t.id ≡ false
    → same op.source_instance_id t.id ≡ false
    → w.killed t.id ≡ true
    → stored j (revert_to_source w op x) ≡ (
        if same t.id j
        then none
        else if same op.source_instance_id j
        then map_some (with_routable true) (stored j x)
        else stored j x)
unfolding revert_to_source complete_move
revert_to_source-stored w op t j x h e o b d k =
    rw o (reverted w op.source_instance_id t j x h e b d k)

unload_target-IsManager :
    (w : World) (target : String) (x : Mover)
    → IsManager x.manager
    → IsManager (unload_target w target x).manager
unfolding unload_target
unload_target-IsManager w target x h = elim (Bool-cases (is_blank target)) [
  | inl b ↦ rw (b, unload_target) h
  | inr b ↦ rw (b, unload_target) (unload-IsManager w target x h)
]

revert_to_source-IsManager :
    (w : World) (op : MoveOperation) (x : Mover)
    → IsManager x.manager
    → IsManager (revert_to_source w op x).manager
unfolding revert_to_source complete_move
revert_to_source-IsManager w op x h =
    unload_target-IsManager w op.target_instance_id (set_routable op.source_instance_id true x)
      (set_routable-IsManager op.source_instance_id true x h)

unload_source-cancel_move :
    (w : World) (op : MoveOperation) (i t : ModelInstance) (x : Mover)
    → IsManager x.manager
    → Store.get op.id x.moves ≡ some op
    → op.phase ≡ Store.draining
    → stored i.id x ≡ some i
    → stored t.id x ≡ some t
    → op.source_instance_id ≡ i.id
    → op.target_instance_id ≡ t.id
    → is_blank t.id ≡ false
    → same i.id t.id ≡ false
    → w.killed i.id ≡ true
    → w.killed t.id ≡ true
    → let y = unload_source w op (cancel_move w false op.id x).0 in
      ((cancel_move w false op.id x).1 ≡ cancelled)
      × (stored i.id y ≡ none)
      × (stored t.id y ≡ none)
unfolding cancel_move
unload_source-cancel_move w op i t x h g p ei et o u b d ki kt =
    let y = revert_to_source w op x in
    let hy = revert_to_source-IsManager w op x h in
    let d' : same op.source_instance_id t.id ≡ false = rw o d in
    let i' = with_routable true i in
    let e' : stored i.id y ≡ some i' = ground (
      arith,
      revert_to_source-stored w op t i.id x h et u b d' kt,
      same_iff t.id i.id,
      same_refl i.id,
      ei,
      d,
      o,
    ) in
    let gone = revert_to_source-stored w op t t.id x h et u b d' kt in
    let ends = unload_source-stored w op i' in
    rw (g, p, cancel_move)
      (
        refl,
        ground (arith, (ends i.id y hy e' ki o).0, same_refl i.id),
        ground (arith, (ends t.id y hy e' ki o).0, d, gone, same_refl t.id),
      )

-- Where nothing else happens from a poll of the drain on, its wait ends in the state that it has then.
drain_still :
    (w : World) (source : String) (timeout fuel k elapsed : ℕ) (x : Mover)
    → ((n : ℕ) (z : Mover) → w.after_count (suc n) z ≡ z)
    → timeout ≤ elapsed + 500 * fuel
    → wait_for_drain w source timeout (suc fuel) (suc k) elapsed x ≡ some x
unfolding wait_for_drain
drain_still w source timeout zero k elapsed x still h =
    let late : ltb elapsed timeout ≡ false = ground (arith, h) in rw late refl
drain_still w source timeout (suc fuel) k elapsed x still h =
    let ih =
      drain_still w source timeout fuel (suc k) (elapsed + 500 + w.count_late (suc k)) x still
        (omega (arith, h)) in
    rw (still k x) (ground (arith, ih))

-- A move that waits for its drain, with requests left, and is cancelled in its first wait, unloads its target
-- then; the wait goes on all the same, and when it has ended the move unloads its source too: neither instance
-- is left. Nothing else happens meanwhile, and the fuel is for one poll more than the timeout has half seconds.
pub drained-cancel_move :
    (w : World) (fuel : ℕ) (op : MoveOperation) (i t : ModelInstance) (x : Mover)
    → IsManager x.manager
    → Store.get op.id x.moves ≡ some op
    → op.phase ≡ Store.draining
    → stored i.id x ≡ some i
    → stored t.id x ≡ some t
    → op.source_instance_id ≡ i.id
    → op.target_instance_id ≡ t.id
    → is_blank t.id ≡ false
    → same i.id t.id ≡ false
    → w.killed i.id ≡ true
    → w.killed t.id ≡ true
    → 0 < op.drain_timeout_ms
    → op.drain_timeout_ms ≤ 500 * fuel
    → 0 < get_instance_connections op.source_instance_id x.connections
    → w.after_count 0 x ≡ (cancel_move w false op.id x).0
    → ((n : ℕ) (z : Mover) → w.after_count (suc n) z ≡ z)
    → let end =
        drained w op
          (wait_for_drain w op.source_instance_id op.drain_timeout_ms (suc (suc fuel)) 0 0 x) in
      (y : Mover) × (end ≡ some y)
      × ((cancel_move w false op.id x).1 ≡ cancelled)
      × (stored i.id y ≡ none)
      × (stored t.id y ≡ none)
unfolding wait_for_drain
drained-cancel_move w fuel op i t x h g p ei et o u b d ki kt pos long busy cancels still =
    let x' = (cancel_move w false op.id x).0 in
    let (replied, source_gone, target_gone) =
      unload_source-cancel_move w op i t x h g p ei et o u b d ki kt in
    let rest =
      drain_still w op.source_instance_id op.drain_timeout_ms fuel 0 (0 + 500 + w.count_late 0) x'
        still (omega (arith, long)) in
    let early : ltb 0 op.drain_timeout_ms ≡ true = ground (arith, pos) in
    let left : (get_instance_connections op.source_instance_id x.connections == 0) ≡ false =
      ground (arith, busy) in
    (
      unload_source w op x',
      rw (early, left, cancels) (ap (drained w op) rest),
      replied,
      source_gone,
      target_gone,
    )
