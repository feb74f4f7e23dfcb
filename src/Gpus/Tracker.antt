-- ===== src/Gpus/Tracker.antt =====
-- apps/backend/src/utils/sim-gpu-tracker.ts. Memory is counted in whole MiB. An exception is a constructor of
-- `Allocation`. Of the report in the form of nvidia-smi, the constant fields are left out.
pub mod Ledger
pub mod Release
use sardeenz.Base.{
  ltb, if◌then◌else◌, ℕ, zero, suc, ◌+◌, ◌-◌, ◌*◌, String, Option, none, some, List, [], ◌∷◌, ◌++◌,
  map, string_key, nat_key,
}
use sardeenz.Base.Dict
use sardeenz.Base.Dict.{Dict, map_some}

pub record SimulatedGpu : Type 0 where
  pub index : ℕ
  pub total_memory_mb : ℕ
  pub used_memory_mb : ℕ
  pub models : Dict String ℕ

abbrev pub Tracker : Type 0
Tracker = Dict ℕ SimulatedGpu

-- The loop of `initialize` from the GPU `i` on, for `n` GPUs.
unfoldable pub gpus_from : ℕ → ℕ → ℕ → Tracker
gpus_from i zero gb = []
gpus_from i (suc n) gb =
    (i, record { index = i; total_memory_mb = gb * 1024; used_memory_mb = 0; models = [] })
    ∷ gpus_from (i + 1) n gb

unfoldable pub initialize : ℕ → ℕ → Tracker → Tracker
initialize count gb t = gpus_from 0 count gb

pub data Allocation : Type 0 where
  allocated no_gpu : Allocation
  insufficient : ℕ → Allocation

abbrev pub with_model : String → ℕ → SimulatedGpu → SimulatedGpu
with_model id mb g = record g {
  models = Dict.set id mb g.models;
  used_memory_mb = g.used_memory_mb + mb;
}

unfoldable pub allocate : ℕ → String → ℕ → Tracker → Tracker × Allocation
allocate index id mb t = elim (Dict.get index t) [
  | none ↦ (t, no_gpu)
  | some g ↦
      if ltb g.total_memory_mb (g.used_memory_mb + mb)
      then (t, insufficient (g.total_memory_mb - g.used_memory_mb))
      else (Dict.modify index (with_model id mb) t, allocated)
]

-- The body of the loop of `deallocate`.
unfoldable pub release : String → SimulatedGpu → SimulatedGpu
release id g = elim (Dict.get id g.models) [
  | none ↦ g
  | some mb ↦ record g { used_memory_mb = g.used_memory_mb - mb; models = Dict.delete id g.models }
]

unfoldable pub deallocate : String → Tracker → Tracker
deallocate id [] = []
deallocate id ((i, g) ∷ t) = (i, release id g) ∷ deallocate id t

unfoldable pub get_available_memory_mb : ℕ → Tracker → Option ℕ
get_available_memory_mb index t =
    map_some (λ g. g.total_memory_mb - g.used_memory_mb) (Dict.get index t)

-- Index, total and used memory of each GPU.
unfoldable pub get_nvidia_smi_gpus : Tracker → List (ℕ × ℕ × ℕ)
get_nvidia_smi_gpus t = map (λ g. (g.index, g.total_memory_mb, g.used_memory_mb)) (Dict.values t)

abbrev processes_of : SimulatedGpu → List (ℕ × String × ℕ)
processes_of g = map (λ e. (g.index, e.0, e.1)) g.models

unfoldable pub get_nvidia_smi_processes : Tracker → List (ℕ × String × ℕ)
get_nvidia_smi_processes [] = []
get_nvidia_smi_processes ((i, g) ∷ t) = processes_of g ++ get_nvidia_smi_processes t

unfoldable pub reset : Tracker → Tracker
reset t = []
