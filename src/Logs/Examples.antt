-- ===== src/Logs/Examples.antt =====
-- process-log-buffer.ts, load-progress-tracker.ts, event-bus.ts: the theorems at concrete inputs.
use sardeenz.Base.{◌==◌, if◌then◌else◌, ℕ, ◌≡◌, refl, false, ◌&&◌, none, some, List, [], ◌∷◌, arith}
use sardeenz.Base.Tail.{last_items}
use sardeenz.Logs.Buffer
use sardeenz.Logs.Buffer.Window
use sardeenz.Logs.Buffer.Window.{new-write_all-get_buffer}
use sardeenz.Logs.Bus
use sardeenz.Logs.Bus.Delivery
use sardeenz.Logs.Bus.Delivery.{new-write_all-emit_event}
use sardeenz.Logs.Progress.{Tracker, process_log_line}
use sardeenz.Logs.Progress.Monotone.{IsTracker, Advances, process_log_line-Advances}

abbrev writes : List Window.Write
writes =
    Window.listens "i1" 0
    ∷ Window.appends 1 "i1" Buffer.stdout "a\nb\n"
    ∷ Window.appends 2 "i2" Buffer.stderr "c"
    ∷ Window.appends 3 "i1" Buffer.stderr "d"
    ∷ []

new-write_all-get_buffer_example :
    let b = Buffer.new (some 2) none in
    Buffer.get_buffer "i1" (Window.write_all writes b)
    ≡ last_items b.max_lines (Window.all_lines "i1" writes)
new-write_all-get_buffer_example = new-write_all-get_buffer (some 2) none writes "i1"

abbrev loading : Tracker
loading = record {
  next_milestone = 2;
  current_progress = 20;
  last_milestone_time = 1000;
  expected_duration_ms = 180_000;
}

loading-IsTracker : IsTracker loading
loading-IsTracker = record { within = omega arith; current = refl }

process_log_line-Advances_example :
    Advances 90_000 loading (process_log_line 5000 "INFO Model loading took 9 s" loading)
process_log_line-Advances_example =
    process_log_line-Advances 5000 90_000 "INFO Model loading took 9 s" loading loading-IsTracker

abbrev subscriptions : List Delivery.Write
subscriptions =
    Delivery.subscribes "i1" 4
    ∷ Delivery.subscribes "i1" 7
    ∷ Delivery.subscribes "i1" 4
    ∷ Delivery.unsubscribes "i1" 7
    ∷ []

abbrev filters_at : ℕ → List Bus.SseEventType
filters_at c = if c == 4 then Bus.log ∷ [] else []

abbrev line_event : Bus.SseEvent
line_event = record { instance_id = "i1"; event_type = Bus.log }

new-write_all-emit_event_example :
    Delivery.times 4
      (Bus.emit_event filters_at line_event (Delivery.write_all subscriptions Bus.new))
    ≡ Delivery.once (
        Delivery.after_all "i1" 4 subscriptions false
        && Bus.wants (filters_at 4) line_event.event_type)
new-write_all-emit_event_example = new-write_all-emit_event filters_at line_event subscriptions 4
