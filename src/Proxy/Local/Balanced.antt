-- ===== src/Proxy/Local/Balanced.antt =====
-- proxy-router.ts and routes/proxy.ts: the connections of an instance are the requests in flight to it.
use sardeenz.Base.{
  ltb, if◌then◌else◌, Bool-cases, Option-cases, same, ℕ, suc, String, ◌≡◌, refl, ap, ◌∙◌, subst,
  inl, inr, none, some, List, [], ◌∷◌, arith, string_key,
}
use sardeenz.Base.Dict
use sardeenz.Base.Dict.{Dict, get-set, IsMap, set-IsMap, delete-IsMap}
use sardeenz.Stores.Connections.{
  Connections, Delta, plus, minus, change, update_instance_connections, get_instance_connections,
}
use sardeenz.Stores.Metrics.{MetricsStore, update_connections, record_request}
use sardeenz.Stores.Requests
use sardeenz.Stores.Connections.{has_active_connections}
use sardeenz.Proxy.Local.{
  pending_request, Flight, Proxy, connect, take_off, begin_local, begin_audio, End, streamed,
  refused, threw, answered, released, settle_end, land,
}

-- How many flights go to an instance.
unfoldable pub in_flight : String → Dict String Flight → ℕ
in_flight i [] = 0
in_flight i ((id, f) ∷ m) = if same f.instance_id i then suc (in_flight i m) else in_flight i m

in_flight-set :
    (i id : String) (f : Flight) (m : Dict String Flight)
    → Dict.get id m ≡ none
    → in_flight i (Dict.set id f m)
      ≡ (if same f.instance_id i then suc (in_flight i m) else in_flight i m)
unfolding in_flight Dict.get Dict.set
in_flight-set i id f [] h = refl
in_flight-set i id f ((j, g) ∷ m) h = ground (arith, in_flight-set i id f m)

in_flight-absent :
    (i id : String) (m : Dict String Flight)
    → Dict.get id m ≡ none
    → in_flight i (Dict.delete id m) ≡ in_flight i m
unfolding in_flight Dict.get Dict.delete
in_flight-absent i id [] h = refl
in_flight-absent i id ((j, g) ∷ m) h = ground (arith, in_flight-absent i id m)

in_flight-delete :
    (i id : String) (f : Flight) (m : Dict String Flight)
    → IsMap m
    → Dict.get id m ≡ some f
    → in_flight i m ≡ (
        if same f.instance_id i
        then suc (in_flight i (Dict.delete id m))
        else in_flight i (Dict.delete id m))
unfolding in_flight Dict.get Dict.delete
in_flight-delete i id f [] k h = cc
in_flight-delete i id f ((j, g) ∷ m) k h = elim (Bool-cases (same j id)) [
  | inl e ↦
      let same_key : j ≡ id = ground arith in
      let gone : Dict.get id m ≡ none = subst (λ x. Dict.get x m ≡ none) same_key k.0 in
      let same_flight : g ≡ f = ground arith in
      rw (e, same_flight, in_flight-absent i id m gone) refl
  | inr e ↦ rw e (ground (arith, in_flight-delete i id f m k.1 (ground arith)))
]

get_instance_connections-update :
    (i j : String) (d : Delta) (c : Connections)
    → get_instance_connections i (update_instance_connections j d c)
      ≡ (if same j i then change d (get_instance_connections j c) else get_instance_connections i c)
unfolding get_instance_connections update_instance_connections
get_instance_connections-update i j d c =
    ground (arith, get-set j i (change d (get_instance_connections j c)) c)

-- The connections of a proxy's instance.
abbrev pub connections_of : String → Proxy → ℕ
connections_of i p = get_instance_connections i p.metrics.instance_connections

pub record IsBalanced (p : Proxy) : Type 0 where
  pub ids_ok : IsMap p.flights
  pub equal : (i : String) → connections_of i p ≡ in_flight i p.flights

pub data Act : Type 0 where
  begins begins_audio : String → String → String → Act
  lands : String → End → Act

unfoldable pub act : Act → Proxy → Proxy
act (begins id name i) p = begin_local id name i p
act (begins_audio id name i) p = begin_audio id name i p
act (lands id end) p = land id end p

unfoldable pub act_all : List Act → Proxy → Proxy
act_all [] p = p
act_all (a ∷ as') p = act_all as' (act a p)

-- A request that begins has an id that no request in flight has.
abbrev pub IsNew : Act → Proxy → Type 0
IsNew (begins id name i) p = Dict.get id p.flights ≡ none
IsNew (begins_audio id name i) p = Dict.get id p.flights ≡ none
IsNew (lands id end) p = Unit

unfoldable pub AllNew : List Act → Proxy → Type 0
AllNew [] p = Unit
AllNew (a ∷ as') p = IsNew a p × AllNew as' (act a p)

instances-connect :
    (d : Delta) (name i : String) (m : MetricsStore)
    → (connect d name i m).instance_connections
      ≡ update_instance_connections i d m.instance_connections
unfolding connect update_connections
instances-connect d name i m = refl

take_off-IsBalanced :
    (id name i : String) (p : Proxy)
    → Dict.get id p.flights ≡ none
    → IsBalanced p
    → IsBalanced (take_off id name i p)
unfolding take_off change
take_off-IsBalanced id name i p n h =
    let f : Flight = record { name = name; instance_id = i } in
    record {
      ids_ok = set-IsMap id f p.flights h.ids_ok;
      equal = λ j.
          ap (get_instance_connections j) (instances-connect (plus 1) name i p.metrics)
          ∙ ground (
            arith,
            get_instance_connections-update j i (plus 1) p.metrics.instance_connections,
            in_flight-set j id f p.flights n,
            h.equal i,
            h.equal j,
          );
    }

settled :
    (id name : String) (end : End) (p : Proxy)
    → ((settle_end id name end p).metrics.instance_connections ≡ p.metrics.instance_connections)
      × ((settle_end id name end p).flights ≡ p.flights)
unfolding settle_end record_request
settled id name (streamed d) p = (refl, refl)
settled id name (refused d) p = (refl, refl)
settled id name (threw d) p = (refl, refl)
settled id name (answered ok d) p = (refl, refl)
settled id name released p = (refl, refl)

landed-IsBalanced :
    (id : String) (f : Flight) (p : Proxy) (m : MetricsStore)
    → Dict.get id p.flights ≡ some f
    → m.instance_connections ≡ p.metrics.instance_connections
    → IsBalanced p
    → IsBalanced (record p {
      metrics = connect (minus 1) f.name f.instance_id m;
      flights = Dict.delete id p.flights;
    })
unfolding change
landed-IsBalanced id f p m n e h = record {
  ids_ok = delete-IsMap id p.flights h.ids_ok;
  equal = λ j.
      ap (get_instance_connections j) (instances-connect (minus 1) f.name f.instance_id m)
      ∙ (rw e (
          ground (
            arith,
            get_instance_connections-update j f.instance_id (minus 1)
                p.metrics.instance_connections,
            in_flight-delete j id f p.flights h.ids_ok n,
            h.equal f.instance_id,
            h.equal j,
          )));
}

land-IsBalanced : (id : String) (end : End) (p : Proxy) → IsBalanced p → IsBalanced (land id end p)
unfolding land
land-IsBalanced id end p h = elim (Option-cases (Dict.get id p.flights)) [
  | inl e ↦ rw (e, land) h
  | inr (f, e) ↦
      let s = settled id f.name end p in
      let b = landed-IsBalanced id f p (settle_end id f.name end p).metrics e s.0 h in
      rw (e, land, s.1) (record { ids_ok = b.ids_ok; equal = b.equal })
]

act-IsBalanced : (a : Act) (p : Proxy) → IsNew a p → IsBalanced p → IsBalanced (act a p)
unfolding act begin_local begin_audio
act-IsBalanced (begins id name i) p n h =
    let added : Proxy = record p { requests = Requests.add name (pending_request id) p.requests } in
    take_off-IsBalanced id name i added n (record { ids_ok = h.ids_ok; equal = h.equal })
act-IsBalanced (begins_audio id name i) p n h = take_off-IsBalanced id name i p n h
act-IsBalanced (lands id end) p n h = land-IsBalanced id end p h

act_all-IsBalanced :
    (as' : List Act) (p : Proxy) → AllNew as' p → IsBalanced p → IsBalanced (act_all as' p)
unfolding act_all AllNew
act_all-IsBalanced [] p n h = h
act_all-IsBalanced (a ∷ as') p n h = act_all-IsBalanced as' (act a p) n.1 (act-IsBalanced a p n.0 h)

-- From a proxy with no request in flight and no connection counted, through any history of requests with
-- ids of their own that begin and end in any order and any way: an instance has active connections
-- exactly if some request to it is in flight, and as many as there are such requests.
pub act_all-connections :
    (as' : List Act) (p : Proxy) (i : String)
    → p.flights ≡ []
    → p.metrics.instance_connections ≡ []
    → AllNew as' p
    → let p' = act_all as' p in
      (connections_of i p' ≡ in_flight i p'.flights)
      × (has_active_connections i p'.metrics.instance_connections ≡ ltb 0 (in_flight i p'.flights))
unfolding has_active_connections get_instance_connections in_flight Dict.get
act_all-connections as' p i f c n =
    let h = act_all-IsBalanced as' p n (record { ids_ok = rw f tt; equal = λ j. rw (f, c) refl }) in
    (h.equal i, ap (ltb 0) (h.equal i))
