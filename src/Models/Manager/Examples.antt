-- ===== src/Models/Manager/Examples.antt =====
-- model-manager.ts: the theorems at concrete inputs.
use sardeenz.Base.{◌≡◌, refl, true, false, none, some, List, [], ◌∷◌}
use sardeenz.Base.Dict.{map_some}
use sardeenz.Types.{sleeping}
use sardeenz.Models.Store
use sardeenz.Models.Samples.{serving, resting, both, both-IsManager, get-serving}
use sardeenz.Models.Manager.{
  new, unload_model, sleep_model, wake_model, sleep_end, has_process, done,
}
use sardeenz.Models.Manager.Held.{IsManager}
use sardeenz.Models.Manager.Life.{
  Action, launches, readies_begin, readies_end, unloads_begin, unloads_end, sleeps_end, exits,
  act_all, new-act_all-IsManager,
}
use sardeenz.Models.Manager.Methods.{Unloads, unload_model-Unloads, wake_model-sleep_model}
use sardeenz.Models.Manager.Race.{sleep_end_after_unload}

-- The second instance exits while it is unloaded, and the sleep call on it is answered at the end.
abbrev life : List Action
life =
    launches serving true
    ∷ readies_begin "i1"
    ∷ launches resting true
    ∷ readies_end "i1"
    ∷ unloads_begin "i2"
    ∷ exits 5 "i2" (some "exit")
    ∷ unloads_end "i2" true
    ∷ sleeps_end "i2" 1 true
    ∷ []

new-act_all-IsManager_example : IsManager (act_all life new)
new-act_all-IsManager_example = new-act_all-IsManager life

unload_model-Unloads_example : Unloads serving both (unload_model "i1" true both)
unload_model-Unloads_example = unload_model-Unloads serving both both-IsManager get-serving

wake_model-sleep_model_example :
    let slept = sleep_model "i1" 1 true both in
    let woken = wake_model "i1" true slept.0 in
    (slept.1 ≡ done) × (woken.1 ≡ done) × (Store.get "i2" woken.0.store ≡ Store.get "i2" both.store)
wake_model-sleep_model_example =
    wake_model-sleep_model serving 1 both "i2" both-IsManager get-serving refl refl refl

sleep_end_after_unload_example :
    let m' = (unload_model "i1" true both).0 in
    (Store.get "i1" m'.store ≡ none)
    × (has_process "i1" m' ≡ false)
    × (map_some (λ j. j.status) (Store.get "i1" (sleep_end "i1" 2 true m').0.store) ≡ some sleeping)
    × (has_process "i1" (sleep_end "i1" 2 true m').0 ≡ false)
sleep_end_after_unload_example = sleep_end_after_unload serving 2 both both-IsManager get-serving
