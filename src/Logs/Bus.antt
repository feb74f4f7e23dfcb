-- ===== src/Logs/Bus.antt =====
-- apps/backend/src/services/event-bus.ts, class EventBus. A connection is a reference, a number here, since
-- its set tells connections apart by identity; `filters` is the object that each reference points to. Whether
-- the send to one connection throws does not change what the others get. The events hold what the bus reads.
pub mod Delivery
use sardeenz.Base.{
  ◌==◌, if◌then◌else◌, length, filter, any, ℕ, String, Bool, true, false, not, ◌||◌, List, [], ◌∷◌,
  ◌++◌, string_key,
}
use sardeenz.Base.Dict
use sardeenz.Base.Dict.{Dict}

pub data SseEventType : Type 0 where
  log status memory progress error : SseEventType

abbrev pub same_type : SseEventType → SseEventType → Bool
same_type log log = true
same_type status status = true
same_type memory memory = true
same_type progress progress = true
same_type error error = true
same_type _ _ = false

pub record SseEvent : Type 0 where
  pub instance_id : String
  pub event_type : SseEventType

pub record EventBus : Type 0 where
  pub connections : Dict String (List ℕ)

unfoldable pub new : EventBus
new = record { connections = [] }

unfoldable pub connections_to : String → EventBus → List ℕ
connections_to id b = Dict.or_empty (Dict.get id b.connections)

-- `add` of a `Set`.
unfoldable pub add_to_set : ℕ → List ℕ → List ℕ
add_to_set c cs = if any (λ d. d == c) cs then cs else cs ++ (c ∷ [])

unfoldable pub subscribe : String → ℕ → EventBus → EventBus
subscribe id c b = record b {
  connections = Dict.set id (add_to_set c (connections_to id b)) b.connections;
}

unfoldable pub unsubscribe : String → ℕ → EventBus → EventBus
unsubscribe id c b =
    let kept = filter (λ d. not (d == c)) (connections_to id b) in
    if not (Dict.has id b.connections)
    then b
    else if length kept == 0
    then record b { connections = Dict.delete id b.connections }
    else record b { connections = Dict.set id kept b.connections }

unfoldable pub get_connection_count : String → EventBus → ℕ
get_connection_count id b = length (connections_to id b)

unfoldable pub wants : List SseEventType → SseEventType → Bool
wants filters t = (length filters == 0) || any (same_type t) filters

-- The connections that are sent the event, in order.
unfoldable pub emit_event : (ℕ → List SseEventType) → SseEvent → EventBus → List ℕ
emit_event filters e b =
    filter (λ c. wants (filters c) e.event_type) (connections_to e.instance_id b)

unfoldable pub cleanup : EventBus → EventBus
cleanup b = record b { connections = [] }
