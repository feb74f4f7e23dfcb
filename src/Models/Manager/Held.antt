-- ===== src/Models/Manager/Held.antt =====
-- model-manager.ts: the objects that the store and the steps under way hold.
use sardeenz.Base.{
  if◌then◌else◌, Option-cases, same, All, String, ◌≡◌, ap, ◌∙◌, subst, inl, inr, false, ◌&&◌, none,
  some, [], ◌∷◌, arith, string_key,
}
use sardeenz.Base.Dict
use sardeenz.Base.Dict.{get-set, get-delete, get-modify, map_some, Dict}
use sardeenz.Models.Store
use sardeenz.Models.Store.Index
use sardeenz.Models.Store.{Index, ModelInstance}
use sardeenz.Models.Manager.{touch, held, drop_instance, put, Manager}
use sardeenz.Models.Store.Index.{
  delete-Owned, deletes, set-Owned, sets, write-IsStore, modify-Owned, modify-IsStore, IsStore,
}

-- The store is well-formed, and no object is both in it and detached.
pub record IsManager (m : Manager) : Type 0 where
  pub store_ok : IsStore m.store
  pub owned : All (λ e. e.1.id ≡ e.0) m.detached
  pub apart : (id : String) → (Dict.has id m.store.instances && Dict.has id m.detached) ≡ false

-- A change of fields that are not the id, the path or the name.
abbrev pub KeepsNames : (ModelInstance → ModelInstance) → Type 0
KeepsNames f =
    (i : ModelInstance)
    → ((f i).id ≡ i.id) × ((f i).model_path ≡ i.model_path) × ((f i).model_name ≡ i.model_name)

pub touch-IsManager :
    (id : String) (f : ModelInstance → ModelInstance) (m : Manager)
    → KeepsNames f
    → IsManager m
    → IsManager (touch id f m)
unfolding touch
touch-IsManager id f m k h = record {
  store_ok = modify-IsStore id f m.store k h.store_ok;
  owned = modify-Owned id f m.detached (λ i. (k i).0) h.owned;
  apart = λ j.
      ground (arith, h.apart j, get-modify id j f m.store.instances, get-modify id j f m.detached);
}

owned_id :
    (id : String) (i : ModelInstance) (d : Dict String ModelInstance)
    → All (λ e. e.1.id ≡ e.0) d
    → Dict.get id d ≡ some i
    → i.id ≡ id
unfolding Dict.get
owned_id id i [] h e = cc
owned_id id i ((j, q) ∷ d) h e = ground (arith, owned_id id i d h.1)

put_stored :
    (i : ModelInstance) (m : Manager)
    → Dict.get i.id m.store.instances ≡ some i
    → IsManager m
    → IsManager (record m { store = Store.set i m.store })
unfolding Index.write Store.set
put_stored i m e h = record {
  store_ok = write-IsStore (sets i) m.store h.store_ok;
  owned = h.owned;
  apart = λ j. ground (arith, h.apart j, get-set i.id j i m.store.instances);
}

put_detached :
    (i : ModelInstance) (m : Manager)
    → IsManager m
    → IsManager (record m { store = Store.set i m.store; detached = Dict.delete i.id m.detached })
unfolding Index.write Store.set
put_detached i m h = record {
  store_ok = write-IsStore (sets i) m.store h.store_ok;
  owned = delete-Owned i.id m.detached h.owned;
  apart = λ j.
      ground (arith, h.apart j, get-set i.id j i m.store.instances, get-delete i.id j m.detached);
}

pub put-IsManager : (id : String) (m : Manager) → IsManager m → IsManager (put id m)
unfolding put Store.get
put-IsManager id m h = elim (Option-cases (Dict.get id m.store.instances)) [
  | inr (i, e) ↦
      let own = owned_id id i m.store.instances h.store_ok.owned e in
      rw (e, put) (put_stored i m (ap (λ k. Dict.get k m.store.instances) own ∙ e) h)
  | inl e ↦ elim (Option-cases (Dict.get id m.detached)) [
    | inl g ↦ rw (e, g, put) h
    | inr (i, g) ↦
        let own = owned_id id i m.detached h.owned g in
        rw (e, g, put)
          (subst
            (λ k.
              IsManager
                (record m { store = Store.set i m.store; detached = Dict.delete k m.detached }))
            own (put_detached i m h))
  ]
]

pub drop_instance-IsManager :
    (id : String) (m : Manager) → IsManager m → IsManager (drop_instance id m)
unfolding drop_instance Store.get Index.write Store.delete
drop_instance-IsManager id m h = elim (Option-cases (Dict.get id m.store.instances)) [
  | inl e ↦ rw (e, drop_instance) h
  | inr (i, e) ↦
      let own = owned_id id i m.store.instances h.store_ok.owned e in
      let gone = write-IsStore (deletes id) m.store h.store_ok in
      rw (e, drop_instance)
        (record {
          store_ok = gone;
          owned =
              subst (λ k. All (λ x. x.1.id ≡ x.0) (Dict.set k i m.detached)) own
                (set-Owned i m.detached h.owned);
          apart = λ j.
              ground
                (arith, h.apart j, get-delete id j m.store.instances, get-set id j i m.detached);
        })
]

pub get-touch :
    (id j : String) (f : ModelInstance → ModelInstance) (m : Manager)
    → Store.get j (touch id f m).store
      ≡ (if same id j then map_some f (Store.get j m.store) else Store.get j m.store)
unfolding touch Store.get
get-touch id j f m = get-modify id j f m.store.instances

pub get-put :
    (id j : String) (m : Manager)
    → IsManager m
    → Store.get j (put id m).store ≡ (if same id j then held id m else Store.get j m.store)
unfolding put Store.get Store.set
get-put id j m h = elim (Option-cases (Dict.get id m.store.instances)) [
  | inr (i, e) ↦
      let own = owned_id id i m.store.instances h.store_ok.owned e in
      ground (arith, own, get-set i.id j i m.store.instances)
  | inl e ↦ elim (Option-cases (Dict.get id m.detached)) [
    | inl g ↦ ground arith
    | inr (i, g) ↦
        let own = owned_id id i m.detached h.owned g in
        ground (arith, own, get-set i.id j i m.store.instances)
  ]
]

pub get-drop_instance :
    (id j : String) (m : Manager)
    → Store.get j (drop_instance id m).store ≡ (if same id j then none else Store.get j m.store)
unfolding drop_instance Store.get Store.delete
get-drop_instance id j m = ground (arith, get-delete id j m.store.instances)
