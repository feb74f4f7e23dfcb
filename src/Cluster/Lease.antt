-- ===== src/Cluster/Lease.antt =====
-- apps/backend/src/services/leader-election.ts, `KubernetesLeaderElection`. The Kubernetes API is not part
-- of the program: a call of it is answered by a `Reply`, which the model takes as an argument for each
-- call in turn. `now` is the clock in milliseconds, and times in a lease are such numbers too.
pub mod Leadership
use sardeenz.Base.Text.{is_blank}
use sardeenz.Base.{
  ltb, ◌==◌, if◌then◌else◌, same, ℕ, ◌+◌, ◌-◌, ◌*◌, String, Bool, true, false, not, ◌||◌, Option,
  none, some, List, [], ◌∷◌, string_key,
}

pub record Lease : Type 0 where
  pub holder : Option String
  pub renew_time : Option ℕ
  pub duration_s : Option ℕ
  pub transitions : Option ℕ

pub data Reply : Type 0 where
  lease : Lease → Reply
  not_found conflict other_error : Reply

pub record Election : Type 0 where
  pub pod_id : String
  pub term : ℕ
  pub leader_id : Option String
  pub is_leader : Bool

pub record Notice : Type 0 where
  pub leader_id : String
  pub term : ℕ

abbrev pub lease_duration_seconds : ℕ
lease_duration_seconds = 15

abbrev or_num : Option ℕ → ℕ → ℕ
or_num none d = d
or_num (some n) d = n

unfoldable pub new : String → Election
new pod = record { pod_id = pod; term = 0; leader_id = none; is_leader = false }

-- The lease that `createLease` sends.
abbrev pub created_lease : String → ℕ → Lease
created_lease pod now = record {
  holder = some pod;
  renew_time = some now;
  duration_s = some lease_duration_seconds;
  transitions = some 0;
}

abbrev pub renewed_lease : ℕ → Lease → Lease
renewed_lease now l = record l { renew_time = some now }

abbrev pub acquired_lease : String → ℕ → Lease → Lease
acquired_lease pod now l = record {
  holder = some pod;
  renew_time = some now;
  duration_s = some lease_duration_seconds;
  transitions = some (or_num l.transitions 0 + 1);
}

abbrev pub is_expired : ℕ → Lease → Bool
is_expired now l = elim l.renew_time [
  | none ↦ true
  | some t ↦ ltb (or_num l.duration_s lease_duration_seconds * 1000) (now - t)
]

unfoldable pub become_leader : Lease → Election → Election × List Notice
become_leader l e =
    let new_term = or_num l.transitions 0 + 1 in
    if not e.is_leader || not (e.term == new_term)
    then (
      record e { is_leader = true; term = new_term; leader_id = some e.pod_id },
      record { leader_id = e.pod_id; term = new_term } ∷ [],
    )
    else (e, [])

unfoldable pub set_follower : String → Election → Election × List Notice
set_follower leader e = (
  record e { is_leader = false; leader_id = some leader },
  if e.is_leader then record { leader_id = leader; term = e.term } ∷ [] else [],
)

-- The `catch` of the whole attempt.
unfoldable pub lose_on_error : Election → Election × List Notice
lose_on_error e = (if e.is_leader then record e { is_leader = false } else e, [])

unfoldable pub refresh_leader_info : Reply → Election → Election × List Notice
refresh_leader_info (lease l) e = elim l.holder [
  | none ↦ (e, [])
  | some h ↦ if is_blank h || same h e.pod_id then (e, []) else set_follower h e
]
refresh_leader_info _ e = (e, [])

-- After `createNamespacedLease` or the renewal.
unfoldable pub confirmed : Reply → Election → Election × List Notice
confirmed (lease l) e = become_leader l e
confirmed _ e = lose_on_error e

-- After the attempt to take the lease over; `reread` answers the read that follows a conflict.
unfoldable pub taken : Reply → Reply → Election → Election × List Notice
taken (lease l) reread e = become_leader l e
taken conflict reread e = refresh_leader_info reread e
taken _ reread e = lose_on_error e

-- `holder === this.podId`.
abbrev pub is_held_by : Option String → String → Bool
is_held_by none pod = false
is_held_by (some h) pod = same h pod

-- The branches on the lease that was read, with the answers to the calls that follow.
unfoldable pub act_on : ℕ → Lease → Reply → Reply → Election → Election × List Notice
act_on now l replaced reread e =
    if is_held_by l.holder e.pod_id then confirmed replaced e else elim l.holder [
      | none ↦ taken replaced reread e
      | some h ↦
          if is_expired now l || is_blank h then taken replaced reread e else set_follower h e
    ]

-- One attempt; `read`, `written` and `reread` answer its calls in their order.
unfoldable pub try_acquire_or_renew : ℕ → Reply → Reply → Reply → Election → Election × List Notice
try_acquire_or_renew now (lease l) written reread e = act_on now l written reread e
try_acquire_or_renew now not_found written reread e = confirmed written e
try_acquire_or_renew now _ written reread e = lose_on_error e

unfoldable pub stop : Election → Election
stop e = record e { is_leader = false }
