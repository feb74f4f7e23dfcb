-- ===== src/Scheduler/Reconcile/Plans.antt =====
-- pod-scheduler.ts, `reconcile`: what a plan does to the models that are loaded and wanted.
use sardeenz.Base.{
  same, filter, any, String, ◌≡◌, refl, ap, ◌∙◌, Bool, not, ◌&&◌, ◌||◌, List, [], ◌∷◌, map, arith,
  string_key,
}
use sardeenz.Cluster.PeerStore.{PeerStore, get_healthy_peers}
use sardeenz.Scheduler.Place.{Entry, Profile}
use sardeenz.Scheduler.Place.Models.{place_models-paths, has_decision, has_failure, has_entry}
use sardeenz.Scheduler.Reconcile.{
  constraints_of, paths_of, Preset, LoadedModel, current_models, has_path, entries_of,
  missing_entries, reconcile,
}

abbrev pub has_model : String → List LoadedModel → Bool
has_model path ms = any (λ m. same m.model_path path) ms

has_entry-missing :
    (path : String) (unchanged : List LoadedModel) (es : List Entry)
    → has_entry path (missing_entries unchanged es)
      ≡ (has_entry path es && not (has_path path (map (λ m. m.model_path) unchanged)))
unfolding missing_entries
has_entry-missing path unchanged [] = refl
has_entry-missing path unchanged (e ∷ es) = ground (arith, has_entry-missing path unchanged es)

has_path-models :
    (path : String) (ms : List LoadedModel)
    → has_path path (map (λ m. m.model_path) ms) ≡ has_model path ms
has_path-models path [] = refl
has_path-models path (m ∷ ms) = ground (arith, has_path-models path ms)

has_path-entries :
    (path : String) (es : List Entry) → has_path path (paths_of es) ≡ has_entry path es
has_path-entries path [] = refl
has_path-entries path (e ∷ es) = ground (arith, has_path-entries path es)

has_model-filter :
    (path : String) (f : String → Bool) (ms : List LoadedModel)
    → has_model path (filter (λ m. f m.model_path) ms) ≡ (has_model path ms && f path)
has_model-filter path f [] = refl
has_model-filter path f (m ∷ ms) = ground (arith, has_model-filter path f ms)

-- A model path is to be loaded, or reported as failed, exactly if the preset has it and no loaded model
-- that stays has it.
pub reconcile_loads :
    (profiles : String → List Profile) (preset : Preset) (s : PeerStore) (path : String)
    → let plan = reconcile profiles preset s in
      (has_decision path plan.to_load || has_failure path plan.failures)
      ≡ (has_entry path (entries_of preset) && not (has_model path plan.unchanged))
unfolding reconcile
reconcile_loads profiles preset s path =
    let es = entries_of preset in
    let unchanged = (reconcile profiles preset s).unchanged in
    place_models-paths (constraints_of preset) profiles (missing_entries unchanged es) s path
    ∙ has_entry-missing path unchanged es
    ∙ ap (λ (b : Bool). has_entry path es && not b) (has_path-models path unchanged)

-- A loaded model is to be unloaded exactly if its path is not in the preset, and stays exactly if it is.
pub reconcile_unloads :
    (profiles : String → List Profile) (preset : Preset) (s : PeerStore) (path : String)
    → let plan = reconcile profiles preset s in
      let current = current_models (get_healthy_peers s) in
      (has_model path plan.to_unload
        ≡ (has_model path current && not (has_entry path (entries_of preset))))
      × (has_model path plan.unchanged
          ≡ (has_model path current && has_entry path (entries_of preset)))
unfolding reconcile
reconcile_unloads profiles preset s path =
    let current = current_models (get_healthy_peers s) in
    let desired = paths_of (entries_of preset) in
    (
      has_model-filter path (λ q. not (has_path q desired)) current
          ∙ ap (λ (b : Bool). has_model path current && not b)
              (has_path-entries path (entries_of preset)),
      has_model-filter path (λ q. has_path q desired) current
          ∙ ap (λ (b : Bool). has_model path current && b)
              (has_path-entries path (entries_of preset)),
    )
