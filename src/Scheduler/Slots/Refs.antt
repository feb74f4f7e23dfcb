-- ===== src/Scheduler/Slots/Refs.antt =====
-- pod-scheduler.ts: the references of the slots.
use sardeenz.Base.{
  not_true, length, ℕ, ◌+◌, ◌≤◌, ◌<◌, ◌≡◌, refl, ◌∙◌, true, false, ◌||◌, List, [], ◌∷◌, ◌++◌, arith,
}
use sardeenz.Types.{PeerInfo, PeerGpuInfo}
use sardeenz.Cluster.PeerStore.{PeerStore, get_healthy_peers}
use sardeenz.Scheduler.Slots.{GpuSlot, peer_slots, slots_from, build_gpu_slots}
use sardeenz.Scheduler.Place.{has_ref}
use sardeenz.Scheduler.Place.Deduct.{Distinct}

ref_below :
    (r n : ℕ) (p : PeerInfo) (gs : List PeerGpuInfo)
    → has_ref r (peer_slots n p gs) ≡ true
    → (n ≤ r) × (r < n + length gs)
unfolding peer_slots
ref_below r n p [] h = cc
ref_below r n p (g ∷ gs) h = ground (arith, ref_below r (n + 1) p gs)

peer_slots-Distinct : (n : ℕ) (p : PeerInfo) (gs : List PeerGpuInfo) → Distinct (peer_slots n p gs)
unfolding peer_slots
peer_slots-Distinct n p [] = tt
peer_slots-Distinct n p (g ∷ gs) =
    (not_true _ (λ h. ground (arith, ref_below n (n + 1) p gs h)), peer_slots-Distinct (n + 1) p gs)

has_ref-append :
    (r : ℕ) (xs ys : List GpuSlot) → has_ref r (xs ++ ys) ≡ (has_ref r xs || has_ref r ys)
has_ref-append r [] ys = refl
has_ref-append r (x ∷ xs) ys = ground (arith, has_ref-append r xs ys)

ref_above : (r n : ℕ) (ps : List PeerInfo) → has_ref r (slots_from n ps) ≡ true → n ≤ r
unfolding slots_from
ref_above r n [] h = cc
ref_above r n (p ∷ ps) h = ground (
  arith,
  has_ref-append r (peer_slots n p p.gpus) (slots_from (n + length p.gpus) ps),
  ref_below r n p p.gpus,
  ref_above r (n + length p.gpus) ps,
)

Distinct-append :
    (xs ys : List GpuSlot)
    → Distinct xs
    → Distinct ys
    → ((r : ℕ) → has_ref r xs ≡ true → has_ref r ys ≡ false)
    → Distinct (xs ++ ys)
Distinct-append [] ys d e f = e
Distinct-append (x ∷ xs) ys d e f = (
  has_ref-append x.ref xs ys ∙ ground (arith, d.0, f x.ref),
  Distinct-append xs ys d.1 e (λ r h. f r (ground arith)),
)

slots_from-Distinct : (n : ℕ) (ps : List PeerInfo) → Distinct (slots_from n ps)
unfolding slots_from
slots_from-Distinct n [] = tt
slots_from-Distinct n (p ∷ ps) =
    Distinct-append (peer_slots n p p.gpus) (slots_from (n + length p.gpus) ps)
      (peer_slots-Distinct n p p.gpus) (slots_from-Distinct (n + length p.gpus) ps)
      (λ r h.
        not_true _
          (λ k. ground (arith, ref_below r n p p.gpus h, ref_above r (n + length p.gpus) ps k)))

pub build_gpu_slots-Distinct : (s : PeerStore) → Distinct (build_gpu_slots s)
unfolding build_gpu_slots
build_gpu_slots-Distinct s = slots_from-Distinct 0 (get_healthy_peers s)
