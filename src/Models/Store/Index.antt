-- ===== src/Models/Store/Index.antt =====
-- model-store.ts: the two indexes against the instances.
use sardeenz.Base.{
  Option-cases, same, All, length_zero, String, ◌≡◌, refl, sym, ◌∙◌, inl, inr, Bool, false, not,
  ◌&&◌, ◌||◌, Option, none, some, List, [], ◌∷◌, ◌++◌, arith, string_key, string_key,
}
use sardeenz.Base.Dict
use sardeenz.Base.Dict.{get-set, get-delete, get-modify}
use sardeenz.Models.Store.{
  ModelInstance, Index, ModelStore, new, mem, add_id, delete_id, index_remove, index_add, reindex,
  path_of, name_of, set, set_routable, delete, clear,
}

-- The instance is there under this key.
abbrev pub keyed_by : (ModelInstance → String) → String → Option ModelInstance → Bool
keyed_by key k none = false
keyed_by key k (some i) = same (key i) k

abbrev pub in_index : String → String → Index → Bool
in_index k id idx = mem id (Dict.or_empty (Dict.get k idx))

-- An id stands under a key exactly if the instance of that id has that key, and each instance stands
-- under its own id.
pub record IsIndexed (s : ModelStore) : Type 0 where
  pub paths :
      (k id : String) → in_index k id s.by_path ≡ keyed_by path_of k (Dict.get id s.instances)
  pub names :
      (k id : String) → in_index k id s.by_name ≡ keyed_by name_of k (Dict.get id s.instances)

mem-append : (id : String) (xs ys : List String) → mem id (xs ++ ys) ≡ (mem id xs || mem id ys)
mem-append id [] ys = refl
mem-append id (x ∷ xs) ys = ground (arith, mem-append id xs ys)

mem-add_id : (id j : String) (ids : List String) → mem j (add_id id ids) ≡ (same id j || mem j ids)
unfolding add_id
mem-add_id id j ids = ground (arith, mem-append j ids (id ∷ []))

pub mem-delete_id :
    (id j : String) (ids : List String) → mem j (delete_id id ids) ≡ (mem j ids && not (same id j))
unfolding delete_id
mem-delete_id id j [] = refl
mem-delete_id id j (x ∷ ids) = ground (arith, mem-delete_id id j ids)

in_index-index_add :
    (key id k j : String) (idx : Index)
    → in_index k j (index_add key id idx) ≡ ((same key k && same id j) || in_index k j idx)
unfolding index_add
in_index-index_add key id k j idx =
    let ids = Dict.or_empty (Dict.get key idx) in
    ground (arith, get-set key k (add_id id ids) idx, mem-add_id id j ids)

in_index-index_remove :
    (key id k j : String) (idx : Index)
    → in_index k j (index_remove key id idx) ≡ (in_index k j idx && not (same key k && same id j))
unfolding index_remove
in_index-index_remove key id k j idx =
    let rest = delete_id id (Dict.or_empty (Dict.get key idx)) in
    ground (
      arith,
      get-set key k rest idx,
      get-delete key k idx,
      mem-delete_id id j (Dict.or_empty (Dict.get key idx)),
      length_zero rest,
    )

in_index-reindex :
    (old : Option ModelInstance) (key : ModelInstance → String) (i : ModelInstance) (k j : String)
    (idx : Index)
    → in_index k j (reindex old key i idx) ≡ (
        in_index k j idx
        && not (same i.id j && (keyed_by key k old && not (keyed_by key (key i) old))))
unfolding reindex
in_index-reindex none key i k j idx = ground arith
in_index-reindex (some old) key i k j idx =
    ground (arith, in_index-index_remove (key old) i.id k j idx)

module _ (key : ModelInstance → String) (idx : Index) (i : ModelInstance) (s : ModelStore)
    (h : (k id : String) → in_index k id idx ≡ keyed_by key k (Dict.get id s.instances)) where
  set_indexed :
      (k id : String)
      → in_index k id (index_add (key i) i.id (reindex (Dict.get i.id s.instances) key i idx))
        ≡ keyed_by key k (Dict.get id (Dict.set i.id i s.instances))
  set_indexed k id =
      let old = Dict.get i.id s.instances in
      ground (
        arith,
        in_index-index_add (key i) i.id k id (reindex old key i idx),
        in_index-reindex old key i k id idx,
        get-set i.id id i s.instances,
        h k id,
      )

  delete_indexed :
      (j : String) (k id : String)
      → Dict.get j s.instances ≡ some i
      → in_index k id (index_remove (key i) j idx)
        ≡ keyed_by key k (Dict.get id (Dict.delete j s.instances))
  delete_indexed j k id e =
      ground (arith, in_index-index_remove (key i) j k id idx, get-delete j id s.instances, h k id)

abbrev pub Owned : ModelStore → Type 0
Owned s = All (λ e. e.1.id ≡ e.0) s.instances

-- The methods that write.
pub data Write : Type 0 where
  sets : ModelInstance → Write
  deletes : String → Write
  routes : String → Bool → Write
  clears : Write

unfoldable pub write : Write → ModelStore → ModelStore
write (sets i) s = set i s
write (deletes id) s = (delete id s).0
write (routes id b) s = (set_routable id b s).0
write clears s = clear s

unfoldable pub write_all : List Write → ModelStore → ModelStore
write_all [] s = s
write_all (w ∷ ws) s = write_all ws (write w s)

keyed_by-modify :
    (key : ModelInstance → String) (f : ModelInstance → ModelInstance) (id k j : String)
    (m : Dict.Dict String ModelInstance)
    → ((i : ModelInstance) → key (f i) ≡ key i)
    → keyed_by key k (Dict.get j (Dict.modify id f m)) ≡ keyed_by key k (Dict.get j m)
keyed_by-modify key f id k j m h = elim (Option-cases (Dict.get j m)) [
  | inl e ↦ ground (arith, get-modify id j f m)
  | inr (i, e) ↦ ground (arith, get-modify id j f m, h i)
]

write-IsIndexed : (w : Write) (s : ModelStore) → IsIndexed s → IsIndexed (write w s)
unfolding write set delete set_routable clear Dict.get
write-IsIndexed (sets i) s h = record {
  paths = set_indexed path_of s.by_path i s h.paths;
  names = set_indexed name_of s.by_name i s h.names;
}
write-IsIndexed (deletes id) s h = elim (Option-cases (Dict.get id s.instances)) [
  | inl e ↦ rw (e, write, delete) h
  | inr (i, e) ↦
      rw (e, write, delete)
        (record {
          paths = λ k j. delete_indexed path_of s.by_path i s h.paths id k j e;
          names = λ k j. delete_indexed name_of s.by_name i s h.names id k j e;
        })
]
write-IsIndexed (routes id b) s h = record {
  paths = λ k j.
      h.paths k j
      ∙ sym
          (keyed_by-modify path_of (λ i. record i { routable = b }) id k j s.instances (λ i. refl));
  names = λ k j.
      h.names k j
      ∙ sym
          (keyed_by-modify name_of (λ i. record i { routable = b }) id k j s.instances (λ i. refl));
}
write-IsIndexed clears s h = record { paths = λ k j. refl; names = λ k j. refl }

pub set-Owned :
    (i : ModelInstance) (m : Dict.Dict String ModelInstance)
    → All (λ e. e.1.id ≡ e.0) m
    → All (λ e. e.1.id ≡ e.0) (Dict.set i.id i m)
unfolding Dict.set
set-Owned i [] h = (refl, tt)
set-Owned i ((j, q) ∷ m) h = ground (arith, set-Owned i m h.1)

pub delete-Owned :
    (id : String) (m : Dict.Dict String ModelInstance)
    → All (λ e. e.1.id ≡ e.0) m
    → All (λ e. e.1.id ≡ e.0) (Dict.delete id m)
unfolding Dict.delete
delete-Owned id [] h = tt
delete-Owned id ((j, q) ∷ m) h = ground (arith, delete-Owned id m h.1)

pub modify-Owned :
    (id : String) (f : ModelInstance → ModelInstance) (m : Dict.Dict String ModelInstance)
    → ((i : ModelInstance) → (f i).id ≡ i.id)
    → All (λ e. e.1.id ≡ e.0) m
    → All (λ e. e.1.id ≡ e.0) (Dict.modify id f m)
unfolding Dict.modify
modify-Owned id f [] k h = tt
modify-Owned id f ((j, q) ∷ m) k h = ground (arith, k q, modify-Owned id f m k h.1)

write-Owned : (w : Write) (s : ModelStore) → Owned s → Owned (write w s)
unfolding write set delete set_routable clear
write-Owned (sets i) s h = set-Owned i s.instances h
write-Owned (deletes id) s h = ground (arith, delete-Owned id s.instances h)
write-Owned (routes id b) s h =
    modify-Owned id (λ i. record i { routable = b }) s.instances (λ i. refl) h
write-Owned clears s h = tt

-- The indexes agree with the instances, and each instance stands under its own id.
pub record IsStore (s : ModelStore) : Type 0 where
  pub indexed : IsIndexed s
  pub owned : Owned s

pub write-IsStore : (w : Write) (s : ModelStore) → IsStore s → IsStore (write w s)
write-IsStore w s h = record {
  indexed = write-IsIndexed w s h.indexed;
  owned = write-Owned w s h.owned;
}

-- A write to fields of an instance that are not its id, path or name.
pub modify-IsStore :
    (id : String) (f : ModelInstance → ModelInstance) (s : ModelStore)
    → ((i : ModelInstance)
        → ((f i).id ≡ i.id) × ((f i).model_path ≡ i.model_path) × ((f i).model_name ≡ i.model_name))
    → IsStore s
    → IsStore (record s { instances = Dict.modify id f s.instances })
modify-IsStore id f s k h = record {
  indexed = record {
    paths = λ p j.
        h.indexed.paths p j ∙ sym (keyed_by-modify path_of f id p j s.instances (λ i. (k i).1));
    names = λ p j.
        h.indexed.names p j ∙ sym (keyed_by-modify name_of f id p j s.instances (λ i. (k i).2));
  };
  owned = modify-Owned id f s.instances (λ i. (k i).0) h.owned;
}

write_all-IsStore : (ws : List Write) (s : ModelStore) → IsStore s → IsStore (write_all ws s)
unfolding write_all
write_all-IsStore [] s h = h
write_all-IsStore (w ∷ ws) s h = write_all-IsStore ws (write w s) (write-IsStore w s h)

-- After any sequence of writes to a new store, an id stands under a path, and under a name, exactly if
-- the instance of that id has that path, or that name; and each instance stands under its own id.
pub new-IsStore : (ws : List Write) → IsStore (write_all ws new)
unfolding new Dict.get
new-IsStore ws =
    write_all-IsStore ws new
      (record { indexed = record { paths = λ k j. refl; names = λ k j. refl }; owned = tt })
