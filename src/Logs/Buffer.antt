-- ===== src/Logs/Buffer.antt =====
-- apps/backend/src/services/process-log-buffer.ts. A listener is known by a number; what it does with an entry is
-- the caller's. A timeout is the time at which it is due, and the environment says when it fires.
pub mod Window
use sardeenz.Base.{
  ltb, leb, ◌==◌, if◌then◌else◌, length, drop, filter, any, ℕ, ◌+◌, ◌-◌, max, String, Bool, true,
  false, not, ◌&&◌, ◌||◌, Option, none, some, List, [], ◌∷◌, ◌++◌, map, string_key,
}
use sardeenz.Base.Dict
use sardeenz.Base.Dict.{Dict}
use sardeenz.Base.Tail.{slice_back}
use Prim.Native.Char.{Char, code}

pub data Stream : Type 0 where
  stdout stderr : Stream

pub record LogEntry : Type 0 where
  pub timestamp : ℕ
  pub stream : Stream
  pub content : String

pub record LogBuffer : Type 0 where
  pub buffers : Dict String (List LogEntry)
  pub cleanup_timeouts : Dict String ℕ
  pub log_listeners : Dict String (List ℕ)
  pub max_lines : ℕ
  pub failed_retention_ms : ℕ

abbrev pub default_max_lines : ℕ
default_max_lines = 500

abbrev pub default_failed_retention_ms : ℕ
default_failed_retention_ms = 1_800_000

abbrev or_default : Option ℕ → ℕ → ℕ
or_default none d = d
or_default (some n) d = n

unfoldable pub new : Option ℕ → Option ℕ → LogBuffer
new max retention = record {
  buffers = [];
  cleanup_timeouts = [];
  log_listeners = [];
  max_lines = or_default max default_max_lines;
  failed_retention_ms = or_default retention default_failed_retention_ms;
}

-- The characters that `trim` takes away.
abbrev pub is_space : ℕ → Bool
is_space c =
    (leb 9 c && leb c 13)
    || c == 32
    || c == 160
    || c == 5760
    || (leb 8192 c && leb c 8202)
    || c == 8232
    || c == 8233
    || c == 8239
    || c == 8287
    || c == 12288
    || c == 65279

-- `line.trim()` is not empty.
unfoldable pub has_text : String → Bool
has_text String.[] = false
has_text (String.◌∷◌ c s) = not (is_space (code c)) || has_text s

-- `text.split('\n')`.
abbrev push_char : Char → List String → List String
push_char c [] = (String.◌∷◌ c String.[]) ∷ []
push_char c (l ∷ ls) = String.◌∷◌ c l ∷ ls

unfoldable pub split_lines : String → List String
split_lines String.[] = String.[] ∷ []
split_lines (String.◌∷◌ c s) =
    let rest = split_lines s in if code c == 10 then String.[] ∷ rest else push_char c rest

-- The listeners are a set, in order of insertion.
unfoldable pub add_listener : ℕ → List ℕ → List ℕ
add_listener l ls = if any (λ k. k == l) ls then ls else ls ++ l ∷ []

unfoldable pub on_log : String → ℕ → LogBuffer → LogBuffer
on_log id l b = record b {
  log_listeners =
      Dict.set id (add_listener l (Dict.or_empty (Dict.get id b.log_listeners))) b.log_listeners;
}

-- The function that `onLog` returns.
unfoldable pub unsubscribe : String → ℕ → LogBuffer → LogBuffer
unsubscribe id l b = elim (Dict.get id b.log_listeners) [
  | none ↦ b
  | some ls ↦
      let rest = filter (λ k. not (k == l)) ls in
      record b {
        log_listeners =
            if length rest == 0
            then Dict.delete id b.log_listeners
            else Dict.set id rest b.log_listeners;
      }
]

abbrev pub entry_of : ℕ → Stream → String → LogEntry
entry_of now stream line = record { timestamp = now; stream = stream; content = line }

-- The entries that a content makes.
unfoldable pub entries_of : ℕ → Stream → String → List LogEntry
entries_of now stream content = map (entry_of now stream) (filter has_text (split_lines content))

-- `buffer.splice(0, buffer.length - this.maxLines)`.
unfoldable pub trim_buffer : ℕ → List LogEntry → List LogEntry
trim_buffer max es = if ltb max (length es) then drop (length es - max) es else es

-- The calls of the listeners, entry by entry.
unfoldable pub notices : List ℕ → List LogEntry → List (ℕ × LogEntry)
notices ls [] = []
notices ls (e ∷ es) = map (λ l. (l, e)) ls ++ notices ls es

unfoldable pub append : ℕ → String → Stream → String → LogBuffer → LogBuffer × List (ℕ × LogEntry)
append now id stream content b =
    let es = entries_of now stream content in
    (
      record b {
        buffers =
            Dict.set id (trim_buffer b.max_lines (Dict.or_empty (Dict.get id b.buffers) ++ es))
              b.buffers;
      },
      notices (Dict.or_empty (Dict.get id b.log_listeners)) es,
    )

unfoldable pub get_buffer : String → LogBuffer → List LogEntry
get_buffer id b = Dict.or_empty (Dict.get id b.buffers)

-- The lines that `getLastLines` prints; the print itself is left out.
unfoldable pub get_last_lines : String → ℕ → LogBuffer → List LogEntry
get_last_lines id n b = slice_back n (get_buffer id b)

abbrev pub is_stderr : Stream → Bool
is_stderr stdout = false
is_stderr stderr = true

unfoldable pub get_last_stderr_lines : String → ℕ → LogBuffer → List LogEntry
get_last_stderr_lines id n b = slice_back n (filter (λ e. is_stderr e.stream) (get_buffer id b))

unfoldable pub cancel_scheduled_cleanup : String → LogBuffer → LogBuffer
cancel_scheduled_cleanup id b = record b { cleanup_timeouts = Dict.delete id b.cleanup_timeouts }

unfoldable pub clear : String → LogBuffer → LogBuffer
clear id b = cancel_scheduled_cleanup id (record b {
  buffers = Dict.delete id b.buffers;
  log_listeners = Dict.delete id b.log_listeners;
})

-- At `now`; a delay that is left out is the retention of failed processes.
unfoldable pub schedule_cleanup : ℕ → String → Option ℕ → LogBuffer → LogBuffer
schedule_cleanup now id delay b =
    let b' = cancel_scheduled_cleanup id b in
    record b' {
      cleanup_timeouts =
          Dict.set id (now + or_default delay b.failed_retention_ms) b'.cleanup_timeouts;
    }

-- The callback of a timeout: nothing if it was cancelled, or is not due.
unfoldable pub cleanup_fires : ℕ → String → LogBuffer → LogBuffer
cleanup_fires now id b = elim (Dict.get id b.cleanup_timeouts) [
  | none ↦ b
  | some due ↦ if ltb now due then b else record b {
    buffers = Dict.delete id b.buffers;
    cleanup_timeouts = Dict.delete id b.cleanup_timeouts;
  }
]

unfoldable pub has : String → LogBuffer → Bool
has id b = Dict.has id b.buffers

unfoldable pub size : String → LogBuffer → ℕ
size id b = length (get_buffer id b)

unfoldable pub cleanup : LogBuffer → LogBuffer
cleanup b = record b { buffers = []; cleanup_timeouts = []; log_listeners = [] }
