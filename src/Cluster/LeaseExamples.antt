-- ===== src/Cluster/LeaseExamples.antt =====
-- leader-election.ts, `KubernetesLeaderElection`: the theorems at concrete inputs.
use sardeenz.Cluster.Lease.Leadership.{
  IsLeaseElection, try_acquire_or_renew_keeps, is_conflict, names_other, not_own, may_write,
  new-IsLeaseElection, try_acquire_or_renew_wins, was_written,
}
use sardeenz.Base.{
  string_discrete, ne_of_same, String, ◌≡◌, refl, ◌≢◌, true, false, not, ◌&&◌, ◌||◌, some, [], ◌∷◌,
  arith, string_key,
}
use sardeenz.Cluster.Lease.{
  become_leader, set_follower, act_on, lease, conflict, taken, try_acquire_or_renew, confirmed,
  other_error, Lease, Election,
}
use sardeenz.Cluster.Lease
use sardeenz.Cluster.Lease.Leadership

abbrev old_lease : Lease
old_lease = record {
  holder = some "z";
  renew_time = some 1_000;
  duration_s = some 15;
  transitions = some 3;
}

abbrev won_lease : Lease
won_lease = record {
  holder = some "a";
  renew_time = some 90_000;
  duration_s = some 15;
  transitions = some 4;
}

abbrev follows : Election
follows = record { pod_id = "a"; term = 3; leader_id = some "z"; is_leader = false }

abbrev leads : Election
leads = record { pod_id = "a"; term = 2; leader_id = some "a"; is_leader = true }

z_not_a : ◌≢◌ {A = String} "z" "a"
unfolding string_discrete
z_not_a = ne_of_same {K = String} "z" "a" refl

still :
    (try_acquire_or_renew 90_000 (lease won_lease) (lease won_lease) conflict leads).0.is_leader
    ≡ true
unfolding try_acquire_or_renew act_on confirmed taken become_leader set_follower string_discrete
still = ground arith

try_acquire_or_renew_wins_example :
    (try_acquire_or_renew 90_000 (lease old_lease) (lease won_lease) conflict follows).0.is_leader
    ≡ (may_write 90_000 (lease old_lease) "a" && was_written (lease won_lease))
try_acquire_or_renew_wins_example =
    try_acquire_or_renew_wins 90_000 (lease old_lease) (lease won_lease) conflict follows refl

new-IsLeaseElection_example : IsLeaseElection "a" (
    Leadership.run (Lease.new "a") (
      Leadership.attempt 90_000 (lease old_lease) (lease won_lease) conflict
      ∷ Leadership.stopped
      ∷ []))
new-IsLeaseElection_example = new-IsLeaseElection "a" (
    Leadership.attempt 90_000 (lease old_lease) (lease won_lease) conflict
    ∷ Leadership.stopped
    ∷ [])

-- The take-over of a lease that has run out meets a conflict, and the lease cannot be read again.
try_acquire_or_renew_keeps_example :
    (try_acquire_or_renew 90_000 (lease old_lease) conflict other_error leads).0.is_leader ≡ (
      may_write 90_000 (lease old_lease) "a"
      && (was_written conflict
          || (not_own (lease old_lease) "a"
              && (is_conflict conflict && not (names_other other_error "a")))))
try_acquire_or_renew_keeps_example =
    try_acquire_or_renew_keeps 90_000 (lease old_lease) conflict other_error leads refl
