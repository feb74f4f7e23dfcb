-- ===== src/Logs/Bus/Delivery.antt =====
-- event-bus.ts against the set of those that have subscribed.
use sardeenz.Base.Dict.{get-delete, Dict, get-set}
use sardeenz.Base.{
  ◌==◌, if◌then◌else◌, Bool-cases, same, length, filter, any, ℕ, suc, ◌+◌, ◌≤◌, String, ◌≡◌, refl,
  inl, inr, Bool, true, false, not, ◌&&◌, List, [], ◌∷◌, ◌++◌, arith, string_key,
}
use sardeenz.Base.Dict
use sardeenz.Logs.Bus.{
  wants, new, SseEvent, SseEventType, emit_event, add_to_set, connections_to, EventBus, subscribe,
  unsubscribe, cleanup,
}

-- How often a connection stands in a list of them.
unfoldable pub times : ℕ → List ℕ → ℕ
times c [] = 0
times c (d ∷ ds) = if d == c then suc (times c ds) else times c ds

times-append : (c : ℕ) (xs ys : List ℕ) → times c (xs ++ ys) ≡ times c xs + times c ys
unfolding times
times-append c [] ys = omega arith
times-append c (x ∷ xs) ys = ground (arith, times-append c xs ys)

times-absent : (c : ℕ) (xs : List ℕ) → any (λ d. d == c) xs ≡ false → times c xs ≡ 0
unfolding times
times-absent c [] h = refl
times-absent c (x ∷ xs) h = ground (arith, times-absent c xs)

times-present : (c : ℕ) (xs : List ℕ) → any (λ d. d == c) xs ≡ true → 1 ≤ times c xs
unfolding times
times-present c [] h = cc
times-present c (x ∷ xs) h = ground (arith, times-present c xs)

times-filter :
    (c : ℕ) (p : ℕ → Bool) (xs : List ℕ) → times c (filter p xs) ≡ (if p c then times c xs else 0)
unfolding times
times-filter c p [] = ground arith
times-filter c p (x ∷ xs) = elim (Bool-cases (x == c)) [
  | inl e ↦ let same_one : x ≡ c = ground arith in rw same_one (ground (arith, times-filter c p xs))
  | inr e ↦ ground (arith, times-filter c p xs)
]

-- What changes who has subscribed to what.
pub data Write : Type 0 where
  subscribes unsubscribes : String → ℕ → Write
  cleans : Write

unfoldable pub write : Write → EventBus → EventBus
write (subscribes id c) b = subscribe id c b
write (unsubscribes id c) b = unsubscribe id c b
write cleans b = cleanup b

unfoldable pub write_all : List Write → EventBus → EventBus
write_all [] b = b
write_all (w ∷ ws) b = write_all ws (write w b)

-- Whether a connection has subscribed to an instance after a write, by whether it had before.
unfoldable pub after : String → ℕ → Write → Bool → Bool
after id c (subscribes j d) had = if same j id && d == c then true else had
after id c (unsubscribes j d) had = if same j id && d == c then false else had
after id c cleans had = false

unfoldable pub after_all : String → ℕ → List Write → Bool → Bool
after_all id c [] had = had
after_all id c (w ∷ ws) had = after_all id c ws (after id c w had)

abbrev pub once : Bool → ℕ
once true = 1
once false = 0

times-add_to_set :
    (c d : ℕ) (cs : List ℕ) (had : Bool)
    → times c cs ≡ once had
    → times c (add_to_set d cs) ≡ once (if d == c then true else had)
unfolding add_to_set times
times-add_to_set c d cs had h = elim (Bool-cases (any (λ x. x == d) cs)) [
  | inl there ↦ elim (Bool-cases (d == c)) [
    | inl e ↦ rw there (ground (arith, times-present d cs there))
    | inr e ↦ rw (there, e) h
  ]
  | inr fresh ↦ rw (fresh, times-append c cs (d ∷ [])) (ground (arith, times-absent d cs fresh))
]

connections_to-subscribe :
    (id j : String) (c : ℕ) (b : EventBus)
    → connections_to id (subscribe j c b)
      ≡ (if same j id then add_to_set c (connections_to id b) else connections_to id b)
unfolding connections_to subscribe
connections_to-subscribe id j c b =
    ground (arith, get-set j id (add_to_set c (connections_to j b)) b.connections)

-- What a lookup finds of a key whose list is written, or deleted where the list is empty.
get-keep :
    (id j : String) (kept : List ℕ) (m : Dict String (List ℕ))
    → Dict.or_empty (Dict.get id (if length kept == 0 then Dict.delete j m else Dict.set j kept m))
      ≡ (if same j id then kept else Dict.or_empty (Dict.get id m))
get-keep id j [] m = ground (arith, get-delete j id m)
get-keep id j (c ∷ cs) m = ground (arith, get-set j id (c ∷ cs) m)

connections_to-unsubscribe :
    (id j : String) (c : ℕ) (b : EventBus)
    → connections_to id (unsubscribe j c b) ≡ (
        if same j id then filter (λ d. not (d == c)) (connections_to id b) else connections_to id b)
unfolding connections_to unsubscribe
connections_to-unsubscribe id j c b =
    ground (arith, get-keep id j (filter (λ d. not (d == c)) (connections_to j b)) b.connections)

connections_to-new : (id : String) → connections_to id new ≡ []
unfolding connections_to new Dict.get
connections_to-new id = refl

times-new : (id : String) (c : ℕ) → times c (connections_to id new) ≡ 0
unfolding times
times-new id c = rw connections_to-new refl

cleanup-new : (b : EventBus) → cleanup b ≡ new
unfolding cleanup new
cleanup-new b = refl

times-write :
    (id : String) (c : ℕ) (w : Write) (b : EventBus) (had : Bool)
    → times c (connections_to id b) ≡ once had
    → times c (connections_to id (write w b)) ≡ once (after id c w had)
unfolding write after
times-write id c (subscribes j d) b had h =
    rw (connections_to-subscribe id j d b)
      (ground (arith, times-add_to_set c d (connections_to id b) had h))
times-write id c (unsubscribes j d) b had h =
    rw (connections_to-unsubscribe id j d b)
      (ground (arith, times-filter c (λ x. not (x == d)) (connections_to id b)))
times-write id c cleans b had h = rw (cleanup-new b) (times-new id c)

times-write_all :
    (id : String) (c : ℕ) (ws : List Write) (b : EventBus) (had : Bool)
    → times c (connections_to id b) ≡ once had
    → times c (connections_to id (write_all ws b)) ≡ once (after_all id c ws had)
unfolding write_all after_all
times-write_all id c [] b had h = h
times-write_all id c (w ∷ ws) b had h =
    times-write_all id c ws (write w b) (after id c w had) (times-write id c w b had h)

-- Over any subscriptions, unsubscriptions and cleanups of a new bus: an event is sent once to each connection
-- that is subscribed to its instance at the end and wants its type, and to no other.
pub new-write_all-emit_event :
    (filters : ℕ → List SseEventType) (e : SseEvent) (ws : List Write) (c : ℕ)
    → times c (emit_event filters e (write_all ws new))
      ≡ once (after_all e.instance_id c ws false && wants (filters c) e.event_type)
unfolding emit_event
new-write_all-emit_event filters e ws c =
    let listed = times-write_all e.instance_id c ws new false (times-new e.instance_id c) in
    ground (
      arith,
      listed,
      times-filter c (λ x. wants (filters x) e.event_type)
          (connections_to e.instance_id (write_all ws new)),
    )
