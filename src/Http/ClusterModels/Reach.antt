-- ===== src/Http/ClusterModels/Reach.antt =====
-- routes/cluster/models.ts: an operation reaches the instance on whatever pod it is.
use sardeenz.Base.{
  if◌then◌else◌, same, same_iff, String, ◌≡◌, refl, Bool, true, none, some, arith, string_key,
}
use sardeenz.Base.Dict
use sardeenz.Base.Dict.{get-set}
use sardeenz.Types.{PeerInfo}
use sardeenz.Cluster.PeerStore.{PeerStore}
use sardeenz.Models.Store
use sardeenz.Models.Store.{ModelInstance}
use sardeenz.Models.Manager.{
  Manager, not_found, unload_model, sleep_model, wake_model, unload_begin, sleep_begin, wake_begin,
}
use sardeenz.Models.Manager.Held.{IsManager}
use sardeenz.Models.Manager.Methods.{Unloads, unload_model-Unloads}
use sardeenz.Http.ClusterModels.{
  Operation, unloads, sleeps, wakes, perform, Pods, internal_code, perform_at, forward_operation,
  operate_remote, operate, find_pod_for_instance,
}

remote_lem :
    (op : Operation) (id : String) (ok : Bool) (self : String) (m : Manager) (owner : PeerInfo)
    (mo : Manager) (peers : PeerStore) (pods : Pods)
    → Store.get id m.store ≡ none
    → find_pod_for_instance id peers ≡ some owner
    → Dict.get owner.pod_id pods ≡ some mo
    → operate op id ok true self m peers pods
      ≡ perform_at op id ok internal_code owner.pod_id mo pods
unfolding operate operate_remote forward_operation
remote_lem op id ok self m owner mo peers pods n f g =
    rw (n, f, g, operate, operate_remote, forward_operation) refl

-- A pod is told to unload an instance that it does not have, and its view names the pod that does, which
-- answers and can stop the process: the instance and its process are gone from that pod, the other
-- instances there and all other pods are as before, and the reply is 200.
pub operate_unloads :
    (i : ModelInstance) (self : String) (m : Manager) (owner : PeerInfo) (mo : Manager)
    (peers : PeerStore) (pods : Pods)
    → Store.get i.id m.store ≡ none
    → find_pod_for_instance i.id peers ≡ some owner
    → Dict.get owner.pod_id pods ≡ some mo
    → IsManager mo
    → Store.get i.id mo.store ≡ some i
    → let r = operate unloads i.id true true self m peers pods in
      (r.1 ≡ 200)
      × ((pod : String)
          → Dict.get pod r.0 ≡ (
              if same owner.pod_id pod
              then some (unload_model i.id true mo).0
              else Dict.get pod pods))
      × Unloads i mo (unload_model i.id true mo)
unfolding perform_at perform internal_code
operate_unloads i self m owner mo peers pods n f g h e =
    let u = unload_model-Unloads i mo h e in
    rw (remote_lem unloads i.id true self m owner mo peers pods n f g)
      (rw u.replied refl, λ pod. get-set owner.pod_id pod (unload_model i.id true mo).0 pods, u)

perform_absent :
    (op : Operation) (id : String) (ok : Bool) (m : Manager)
    → Store.get id m.store ≡ none
    → Store.get_by_path id m.store ≡ none
    → perform op id ok m ≡ (m, not_found)
unfolding perform unload_model sleep_model wake_model unload_begin sleep_begin wake_begin
perform_absent unloads id ok m h k = rw (h, k, unload_model, unload_begin) refl
perform_absent (sleeps level) id ok m h k = rw (h, sleep_model, sleep_begin) refl
perform_absent wakes id ok m h k = rw (h, wake_model, wake_begin) refl

same_pods :
    (pod j : String) (m : Manager) (pods : Pods)
    → Dict.get pod pods ≡ some m
    → Dict.get j (Dict.set pod m pods) ≡ Dict.get j pods
same_pods pod j m pods h = ground (arith, get-set pod j m pods, same_iff pod j)

-- Where the view is out of date and the pod that it names no longer has the instance, an operation is
-- answered with 404, and no pod changes.
pub operate_stale :
    (op : Operation) (id : String) (ok : Bool) (self : String) (m : Manager) (owner : PeerInfo)
    (mo : Manager) (peers : PeerStore) (pods : Pods)
    → Store.get id m.store ≡ none
    → find_pod_for_instance id peers ≡ some owner
    → Dict.get owner.pod_id pods ≡ some mo
    → Store.get id mo.store ≡ none
    → Store.get_by_path id mo.store ≡ none
    → let r = operate op id ok true self m peers pods in
      (r.1 ≡ 404) × ((pod : String) → Dict.get pod r.0 ≡ Dict.get pod pods)
unfolding perform_at internal_code
operate_stale op id ok self m owner mo peers pods n f g h k =
    rw (remote_lem op id ok self m owner mo peers pods n f g, perform_absent op id ok mo h k)
      (refl, λ pod. same_pods owner.pod_id pod mo pods g)
