-- ===== src/Cluster/RoutingStore/Tables.antt =====
-- cluster-routing-store.ts: the table over all histories of writes.
use sardeenz.Base.{
  ◌==◌, Bool-cases, Option-cases, length, ℕ, ◌≤◌, String, ◌≡◌, refl, ◌≢◌, inl, inr, false, Option,
  List, [], ◌∷◌, ◌++◌, arith, string_key,
}
use sardeenz.Base.Dict
use sardeenz.Base.Dict.{IsMap, AllValues, set-IsMap, delete-IsMap, set-AllValues, delete-AllValues}
use sardeenz.Types.{PeerInfo, PeerModelEntry, RoutingEntry, is_running, is_unavailable}
use sardeenz.Cluster.RoutingStore.{
  RoutingStore, Entries, new, set_local_pod_id, entry_of, push_entry, add_models, add_peers,
  rebuild_from_peers, others, drop_pod, remove_entries_for_pod, add_entry, put_entries,
  remove_entry, swap_entry, clear,
}
use sardeenz.Cluster.RoutingStore.Lookups.{get-drop_pod-none}

-- The public methods that write.
pub data Write : Type 0 where
  sets_local : String → Write
  rebuilds : List PeerInfo → ℕ → Write
  removes_pod : String → Write
  adds : String → RoutingEntry → Write
  removes : String → String → Write
  swaps : String → String → RoutingEntry → Write
  clears : Write

unfoldable pub write : Write → RoutingStore → RoutingStore
write (sets_local pod) s = set_local_pod_id pod s
write (rebuilds peers now) s = rebuild_from_peers peers now s
write (removes_pod pod) s = remove_entries_for_pod pod s
write (adds name e) s = add_entry name e s
write (removes name pod) s = remove_entry name pod s
write (swaps name source target) s = swap_entry name source target s
write clears s = clear s

unfoldable pub write_all : List Write → RoutingStore → RoutingStore
write_all [] s = s
write_all (w ∷ ws) s = write_all ws (write w s)

abbrev pub NonEmpty : List RoutingEntry → Type 0
NonEmpty es = es ≢ []

-- One list to a model name, and none is empty.
pub record IsTable (t : Entries) : Type 0 where
  pub keyed : IsMap t
  pub filled : AllValues NonEmpty t

snoc_NonEmpty : (es : List RoutingEntry) (e : RoutingEntry) → NonEmpty (es ++ e ∷ [])
snoc_NonEmpty [] e h = cc
snoc_NonEmpty (x ∷ es) e h = cc

push_entry-IsTable :
    (name : String) (e : RoutingEntry) (t : Entries) → IsTable t → IsTable (push_entry name e t)
unfolding push_entry
push_entry-IsTable name e t h = elim (Option-cases (Dict.get name t)) [
  | inl p ↦
      rw (p, push_entry)
        (record {
          keyed = set-IsMap name (e ∷ []) t h.keyed;
          filled = set-AllValues NonEmpty name (e ∷ []) t (snoc_NonEmpty [] e) h.filled;
        })
  | inr (es, p) ↦
      rw (p, push_entry)
        (record {
          keyed = set-IsMap name (es ++ e ∷ []) t h.keyed;
          filled = set-AllValues NonEmpty name (es ++ e ∷ []) t (snoc_NonEmpty es e) h.filled;
        })
]

put_entries-IsTable :
    (name : String) (es : List RoutingEntry) (t : Entries)
    → IsTable t
    → IsTable (put_entries name es t)
unfolding put_entries
put_entries-IsTable name [] t h = record {
  keyed = delete-IsMap name t h.keyed;
  filled = delete-AllValues NonEmpty name t h.filled;
}
put_entries-IsTable name (e ∷ es) t h = record {
  keyed = set-IsMap name (e ∷ es) t h.keyed;
  filled = set-AllValues NonEmpty name (e ∷ es) t (λ p. cc) h.filled;
}

add_models-IsTable :
    (l : Option String) (now : ℕ) (p : PeerInfo) (ms : List PeerModelEntry) (t : Entries)
    → IsTable t
    → IsTable (add_models l now p ms t)
unfolding add_models
add_models-IsTable l now p [] t h = h
add_models-IsTable l now p (m ∷ ms) t h = elim (Bool-cases (is_running m.status)) [
  | inl e ↦
      rw e
        (add_models-IsTable l now p ms _ (push_entry-IsTable m.model_name (entry_of l now p m) t h))
  | inr e ↦ rw e (add_models-IsTable l now p ms t h)
]

add_peers-IsTable :
    (l : Option String) (now : ℕ) (ps : List PeerInfo) (t : Entries)
    → IsTable t
    → IsTable (add_peers l now ps t)
unfolding add_peers
add_peers-IsTable l now [] t h = h
add_peers-IsTable l now (p ∷ ps) t h = elim (Bool-cases (is_unavailable p.status)) [
  | inl e ↦ rw e (add_peers-IsTable l now ps t h)
  | inr e ↦ rw e (add_peers-IsTable l now ps _ (add_models-IsTable l now p p.models t h))
]

drop_pod-IsMap : (pod : String) (t : Entries) → IsMap t → IsMap (drop_pod pod t).0
unfolding drop_pod
drop_pod-IsMap pod [] h = tt
drop_pod-IsMap pod ((name, es) ∷ t) h =
    ground (arith, drop_pod-IsMap pod t h.1, get-drop_pod-none pod name t h.0)

drop_pod-filled :
    (pod : String) (t : Entries) → AllValues NonEmpty t → AllValues NonEmpty (drop_pod pod t).0
unfolding drop_pod
drop_pod-filled pod [] h = tt
drop_pod-filled pod ((name, es) ∷ t) h = ground (arith, drop_pod-filled pod t h.1)

drop_pod_unchanged :
    (pod : String) (t : Entries) → (drop_pod pod t).1 ≡ false → (drop_pod pod t).0 ≡ t
unfolding drop_pod
drop_pod_unchanged pod [] h = refl
drop_pod_unchanged pod ((name, es) ∷ t) h = ground (arith, drop_pod_unchanged pod t)

pub write-IsTable : (w : Write) (s : RoutingStore) → IsTable s.entries → IsTable (write w s).entries
unfolding write set_local_pod_id rebuild_from_peers remove_entries_for_pod add_entry remove_entry
    swap_entry clear
write-IsTable (sets_local pod) s h = h
write-IsTable (rebuilds peers now) s h =
    add_peers-IsTable s.local_pod_id now peers [] (record { keyed = tt; filled = tt })
write-IsTable (removes_pod pod) s h = record {
  keyed = drop_pod-IsMap pod s.entries h.keyed;
  filled = drop_pod-filled pod s.entries h.filled;
}
write-IsTable (adds name e) s h = push_entry-IsTable name e s.entries h
write-IsTable (removes name pod) s h = elim (Option-cases (Dict.get name s.entries)) [
  | inl p ↦ rw (p, remove_entry) h
  | inr (es, p) ↦ elim (Bool-cases (length (others pod es) == length es)) [
    | inl q ↦ rw (p, remove_entry) (rw q h)
    | inr q ↦ rw (p, remove_entry) (rw q (put_entries-IsTable name (others pod es) s.entries h))
  ]
]
write-IsTable (swaps name source target) s h =
    put_entries-IsTable name _ _ (push_entry-IsTable name target s.entries h)
write-IsTable clears s h = record { keyed = tt; filled = tt }

write_all-IsTable :
    (ws : List Write) (s : RoutingStore) → IsTable s.entries → IsTable (write_all ws s).entries
unfolding write_all
write_all-IsTable [] s h = h
write_all-IsTable (w ∷ ws) s h = write_all-IsTable ws (write w s) (write-IsTable w s h)

-- After any sequence of writes to a new store the table holds one list to a model name, none empty.
pub new-write_all-IsTable : (ws : List Write) → IsTable (write_all ws new).entries
unfolding new
new-write_all-IsTable ws = write_all-IsTable ws new (record { keyed = tt; filled = tt })

-- A write never lowers the version.
pub version-write-le : (w : Write) (s : RoutingStore) → s.version ≤ (write w s).version
unfolding write set_local_pod_id rebuild_from_peers remove_entries_for_pod add_entry remove_entry
    swap_entry clear
version-write-le (sets_local pod) s = omega arith
version-write-le _ s = ground arith

-- A write that leaves the version as it was has left the table as it was, so that the version tells
-- whether what was computed from the table is still good.
pub entries-write_of_version :
    (w : Write) (s : RoutingStore)
    → (write w s).version ≡ s.version
    → (write w s).entries ≡ s.entries
unfolding write set_local_pod_id rebuild_from_peers remove_entries_for_pod add_entry remove_entry
    swap_entry clear
entries-write_of_version (sets_local pod) s h = refl
entries-write_of_version (removes_pod pod) s h = ground (arith, drop_pod_unchanged pod s.entries)
entries-write_of_version _ s h = ground arith
