-- ===== src/Logs/Buffer/Window.antt =====
-- process-log-buffer.ts against an unbounded log.
use sardeenz.Base.Dict.{Dict, get-set}
use sardeenz.Base.{
  ltb, if◌then◌else◌, Bool-cases, same, length, ℕ, ◌-◌, max, String, ◌≡◌, refl, sym, ap, ◌∙◌, inl,
  inr, Option, List, [], ◌∷◌, ◌++◌, arith, string_key,
}
use mathlib.Core.List.{append-nil, append_assoc}
use sardeenz.Base.Dict
use sardeenz.Base.Tail.{drop_nil, last_items-append, drop-zero, last_items}
use sardeenz.Logs.Buffer.{
  new, trim_buffer, on_log, entries_of, unsubscribe, schedule_cleanup, append, get_buffer,
  cancel_scheduled_cleanup, LogBuffer, LogEntry, Stream,
}

-- The methods that keep the lines.
pub data Write : Type 0 where
  appends : ℕ → String → Stream → String → Write
  listens : String → ℕ → Write
  unlistens : String → ℕ → Write
  schedules : ℕ → String → Option ℕ → Write
  cancels : String → Write

unfoldable pub write : Write → LogBuffer → LogBuffer
write (appends now id stream content) b = (append now id stream content b).0
write (listens id l) b = on_log id l b
write (unlistens id l) b = unsubscribe id l b
write (schedules now id delay) b = schedule_cleanup now id delay b
write (cancels id) b = cancel_scheduled_cleanup id b

unfoldable pub write_all : List Write → LogBuffer → LogBuffer
write_all [] b = b
write_all (w ∷ ws) b = write_all ws (write w b)

-- The entries that a write makes for an instance.
abbrev pub lines_of : String → Write → List LogEntry
lines_of id (appends now j stream content) = if same j id then entries_of now stream content else []
lines_of id _ = []

abbrev pub all_lines : String → List Write → List LogEntry
all_lines id [] = []
all_lines id (w ∷ ws) = lines_of id w ++ all_lines id ws

trim_buffer-last_items : (max : ℕ) (es : List LogEntry) → trim_buffer max es ≡ last_items max es
unfolding trim_buffer
trim_buffer-last_items max es = elim (Bool-cases (ltb max (length es))) [
  | inl h ↦ rw h refl
  | inr h ↦ rw h (sym (drop-zero (length es - max) es (ground arith)))
]

get_buffer-append :
    (now : ℕ) (id j : String) (stream : Stream) (content : String) (b : LogBuffer)
    → get_buffer j (append now id stream content b).0 ≡ (
        if same id j
        then last_items b.max_lines (get_buffer j b ++ entries_of now stream content)
        else get_buffer j b)
unfolding get_buffer append
get_buffer-append now id j stream content b =
    let old = Dict.or_empty (Dict.get id b.buffers) in
    let made = entries_of now stream content in
    ground (
      arith,
      get-set id j (trim_buffer b.max_lines (old ++ made)) b.buffers,
      trim_buffer-last_items b.max_lines (old ++ made),
    )

max_lines-write : (w : Write) (b : LogBuffer) → (write w b).max_lines ≡ b.max_lines
unfolding write append on_log unsubscribe schedule_cleanup cancel_scheduled_cleanup
max_lines-write (appends now id stream content) b = refl
max_lines-write (listens id l) b = refl
max_lines-write (unlistens id l) b = ground arith
max_lines-write (schedules now id delay) b = refl
max_lines-write (cancels id) b = refl

kept : (n : ℕ) (es full : List LogEntry) → es ≡ last_items n full → es ≡ last_items n (full ++ [])
kept n es full h = h ∙ ap (last_items n) (sym (append-nil full))

get_buffer-write :
    (w : Write) (id : String) (b : LogBuffer) (full : List LogEntry)
    → get_buffer id b ≡ last_items b.max_lines full
    → get_buffer id (write w b) ≡ last_items b.max_lines (full ++ lines_of id w)
unfolding write on_log unsubscribe schedule_cleanup cancel_scheduled_cleanup get_buffer
get_buffer-write (appends now j stream content) id b full h = ground (
  arith,
  get_buffer-append now j id stream content b,
  kept b.max_lines (get_buffer id b) full h,
  last_items-append b.max_lines full (entries_of now stream content),
)
get_buffer-write (listens j l) id b full h = kept b.max_lines (get_buffer id b) full h
get_buffer-write (unlistens j l) id b full h =
    ground (arith, kept b.max_lines (get_buffer id b) full h)
get_buffer-write (schedules now j delay) id b full h = kept b.max_lines (get_buffer id b) full h
get_buffer-write (cancels j) id b full h = kept b.max_lines (get_buffer id b) full h

get_buffer-write_all :
    (ws : List Write) (id : String) (b : LogBuffer) (full : List LogEntry)
    → get_buffer id b ≡ last_items b.max_lines full
    → get_buffer id (write_all ws b) ≡ last_items b.max_lines (full ++ all_lines id ws)
unfolding write_all
get_buffer-write_all [] id b full h = kept b.max_lines (get_buffer id b) full h
get_buffer-write_all (w ∷ ws) id b full h =
    let same_max = max_lines-write w b in
    let now_full = full ++ lines_of id w in
    let first : get_buffer id (write w b) ≡ last_items (write w b).max_lines now_full =
      get_buffer-write w id b full h ∙ ap (λ (n : ℕ). last_items n now_full) (sym same_max) in
    get_buffer-write_all ws id (write w b) now_full first
    ∙ ap (λ (n : ℕ). last_items n (now_full ++ all_lines id ws)) same_max
    ∙ ap (last_items b.max_lines) (append_assoc full (lines_of id w) (all_lines id ws))

-- Over any appends to any instances, registrations of listeners and scheduled cleanups of a new buffer,
-- the buffer of an instance holds the last lines, as many as the limit, of all that were appended to it.
pub new-write_all-get_buffer :
    (limit retention : Option ℕ) (ws : List Write) (id : String)
    → let b = new limit retention in
      get_buffer id (write_all ws b) ≡ last_items b.max_lines (all_lines id ws)
unfolding new get_buffer Dict.get
new-write_all-get_buffer limit retention ws id =
    get_buffer-write_all ws id (new limit retention) []
      (sym (drop_nil (0 - (new limit retention).max_lines)))
