-- ===== src/Cluster/Lease/Leadership.antt =====
-- leader-election.ts, `KubernetesLeaderElection`: when a pod leads.
use sardeenz.Base.Text.{is_blank}
use sardeenz.Base.{
  same, ℕ, ◌<◌, String, ◌≡◌, refl, ◌⊎◌, inl, Bool, true, false, not, ◌&&◌, ◌||◌, none, some, List,
  [], ◌∷◌, arith, string_key,
}
use sardeenz.Cluster.Lease.{
  Reply, lease, not_found, conflict, Election, new, is_expired, is_held_by, become_leader,
  set_follower, lose_on_error, refresh_leader_info, confirmed, taken, act_on, try_acquire_or_renew,
  stop,
}

-- The server's answer to the write of this attempt was a lease.
abbrev pub was_written : Reply → Bool
was_written (lease l) = true
was_written _ = false

-- The lease that was read lets the pod write: there is none, it is its own, it has run out, or it has
-- no holder.
abbrev pub may_write : ℕ → Reply → String → Bool
may_write now (lease l) pod =
    is_held_by l.holder pod
    || (is_expired now l || (elim l.holder [ none ↦ true | some h ↦ is_blank h ]))
may_write now not_found pod = true
may_write now _ pod = false

abbrev pub is_conflict : Reply → Bool
is_conflict conflict = true
is_conflict _ = false

-- The lease that was read is another pod's.
abbrev pub not_own : Reply → String → Bool
not_own (lease l) pod = not (is_held_by l.holder pod)
not_own _ pod = false

-- A pod that does not lead before an attempt leads after it exactly if the lease that it read let it
-- write and the server answered its write with a lease.
pub try_acquire_or_renew_wins :
    (now : ℕ) (read written reread : Reply) (e : Election)
    → e.is_leader ≡ false
    → (try_acquire_or_renew now read written reread e).0.is_leader
      ≡ (may_write now read e.pod_id && was_written written)
unfolding try_acquire_or_renew act_on confirmed taken become_leader set_follower lose_on_error
    refresh_leader_info
try_acquire_or_renew_wins now (lease l) written reread e h = ground arith
try_acquire_or_renew_wins now _ written reread e h = ground arith

-- The lease that is read again has another pod as its holder.
abbrev pub names_other : Reply → String → Bool
names_other (lease l) pod = elim l.holder [
  | none ↦ false
  | some h ↦ not (is_blank h) && not (same h pod)
]
names_other _ pod = false

-- A pod that leads before an attempt leads after it exactly if the lease that it read let it write, and either
-- the server answered its write with a lease, or the lease was another's, or nobody's, the write met a
-- conflict, and the lease as it was then read, where that was answered at all, had no other pod as its holder.
pub try_acquire_or_renew_keeps :
    (now : ℕ) (read written reread : Reply) (e : Election)
    → e.is_leader ≡ true
    → (try_acquire_or_renew now read written reread e).0.is_leader ≡ (
        may_write now read e.pod_id
        && (was_written written
            || (not_own read e.pod_id
                && (is_conflict written && not (names_other reread e.pod_id)))))
unfolding try_acquire_or_renew act_on confirmed taken become_leader set_follower lose_on_error
    refresh_leader_info
try_acquire_or_renew_keeps now (lease l) written reread e h = ground arith
try_acquire_or_renew_keeps now _ written reread e h = ground arith

-- What befalls an election: an attempt with the answers to its calls, or `stop`.
pub data Event : Type 0 where
  attempt : ℕ → Reply → Reply → Reply → Event
  stopped : Event

unfoldable pub step : Election → Event → Election
step e (attempt now read written reread) = (try_acquire_or_renew now read written reread e).0
step e stopped = stop e

unfoldable pub run : Election → List Event → Election
run e [] = e
run e (ev ∷ evs) = run (step e ev) evs

pub record IsLeaseElection (pod : String) (e : Election) : Type 0 where
  pub self : e.pod_id ≡ pod
  pub own : (e.is_leader ≡ false) ⊎ ((e.leader_id ≡ some pod) × (0 < e.term))

step-IsLeaseElection :
    (pod : String) (e : Election) (ev : Event)
    → IsLeaseElection pod e
    → IsLeaseElection pod (step e ev)
unfolding step stop try_acquire_or_renew act_on confirmed taken become_leader set_follower
    lose_on_error refresh_leader_info
step-IsLeaseElection pod e (attempt now (lease l) written reread) h = ground arith
step-IsLeaseElection pod e (attempt now _ written reread) h = ground arith
step-IsLeaseElection pod e stopped h = ground arith

run-IsLeaseElection :
    (pod : String) (e : Election) (evs : List Event)
    → IsLeaseElection pod e
    → IsLeaseElection pod (run e evs)
unfolding run
run-IsLeaseElection pod e [] h = h
run-IsLeaseElection pod e (ev ∷ evs) h =
    run-IsLeaseElection pod (step e ev) evs (step-IsLeaseElection pod e ev h)

-- Over any attempts, answers of the server and stops: while the pod leads it holds itself as the
-- leader, in a positive term.
pub new-IsLeaseElection :
    (pod : String) (evs : List Event) → IsLeaseElection pod (run (new pod) evs)
unfolding new
new-IsLeaseElection pod evs =
    run-IsLeaseElection pod (new pod) evs (record { self = refl; own = inl refl })
