-- ===== src/Examples/Doors.antt =====
-- The HTTP doors in the small world.
use funduq_server.Text.{sorted, leb_text}
use funduq_server.Prelude.{
  true, ◌≡◌, refl, ◌↔◌, Option, none, some, [], ◌∷◌, All, Any, ◌==◌, Result, ok, raise, Error,
  overflow_error,
}
use funduq_server.Json.{pos, Json, null, int, float, str, obj, arr, of_list, dict, lookup, empty}
use funduq_server.Reads.{may_read}
use funduq_server.ApiA2a.{
  Task, Upstream, Sent, annotate_asks, on_get_task, on_subscribe_to_task, on_list_tasks, no_task,
}
use funduq_server.ApiA2a.Visibility.{Shown, on_get_task_iff}
use funduq_server.ApiA2a.Asks.{Asking, annotate_asks-waiting}
use funduq_server.Presenter.{Checks, presenter_key_of}
use funduq_server.Presenter.Proof.{Proves, presenter_key_of-Proves}
use funduq_server.Presenter.Escape.{Escapes, presenter_key_of-Escapes}
use funduq_server.ApiLlmBridge.{chunk, sse}
use funduq_server.ApiLlmBridge.Sse.{IsChunk, IsDone, sse-IsDone_iff}
use funduq_server.ApiAgui.{AguiCore, AguiResult, waiting_run, with_outstanding_asks}
use funduq_server.ApiAgui.Waiting.{Waits, waiting_run_iff}
use funduq_server.Examples.{Journal, toy_core}

abbrev pub shown_task : Task
shown_task = record { id = "r1"; context_id = "t1"; metadata = empty }

abbrev pub toy_upstream : Upstream Journal
toy_upstream = record {
  lineage = λ s id. "r1" ∷ "r2" ∷ [];
  get_run_events = λ s id. str id ∷ [];
  open_asks = λ events. "a2" ∷ "a1" ∷ [];
  get_run = λ s id. some "t1";
  on_message_send = λ s params. ok (Sent.message params);
  on_message_send_stream = λ s params. record { events = []; ending = none };
  on_get_task = λ s params. ok (some shown_task);
  on_cancel_task = λ s params. ok none;
  on_subscribe_to_task = λ s id. record { events = []; ending = none };
  on_list_tasks = λ s id.
      ok (record { tasks = shown_task ∷ []; next_page_token = ""; page_size = 1; total_size = 1 });
}

-- The task with its asks, in order.
abbrev asking_task : Task
asking_task = record shown_task {
  metadata = dict (("outstandingAsks", arr (of_list (str "a1" ∷ str "a2" ∷ []))) ∷ []);
}

on_get_task_iff_example :
    (on_get_task toy_upstream toy_core (some "user") (λ n. []) null ≡ ok (some asking_task))
    ↔ Shown toy_upstream toy_core (some "user") (λ n. []) null asking_task
on_get_task_iff_example =
    on_get_task_iff toy_upstream toy_core (some "user") (λ n. []) null asking_task

-- Both sides of it hold.
is_shown : on_get_task toy_upstream toy_core (some "user") (λ n. []) null ≡ ok (some asking_task)
unfolding on_get_task may_read annotate_asks sorted leb_text
is_shown = refl

-- Here there is no task at all.
abbrev bare_upstream : Upstream Journal
bare_upstream = record toy_upstream {
  get_run = λ s id. none;
  on_get_task = λ s params. ok none;
  on_subscribe_to_task = λ s id. no_task id;
}

annotate_asks-waiting_example :
    (after : Task) × (annotate_asks toy_upstream (λ n. []) (some shown_task) ≡ some after)
    × Asking ("a2" ∷ "a1" ∷ []) shown_task after
annotate_asks-waiting_example =
    annotate_asks-waiting toy_upstream (λ n. []) shown_task ("r1" ∷ []) "r2" "a2" ("a1" ∷ []) refl
      refl

abbrev too_large : Error
too_large = record { class = overflow_error; text = "cannot convert float infinity to integer" }

abbrev toy_checks : Checks
toy_checks = record {
  int_of_float = λ whole text. raise too_large;
  int_of_str = λ s. ok (pos 0);
  show_int = λ n. "7";
  sha256hex = λ body. "ab";
  encode_error = λ text. none;
  is_timestamp_fresh = λ n. ok true;
  verify_signature = λ key signature payload. ok (payload == "funduq-server-presenter:pk:7:ab");
}

abbrev proof_header : Json → Option (Result Json)
proof_header timestamp = some (
    ok (
      obj (
        dict (("publicKey", str "pk") ∷ ("timestamp", timestamp) ∷ ("signature", str "sig") ∷ []))))

presenter_key_of-Proves_example :
    (presenter_key_of toy_checks (proof_header (int (pos 7))) "body" ≡ ok (some "pk"))
    ↔ Proves toy_checks (proof_header (int (pos 7))) "body" "pk"
presenter_key_of-Proves_example =
    presenter_key_of-Proves toy_checks "body" "pk" (proof_header (int (pos 7)))

presenter_key_of-Escapes_example :
    (presenter_key_of toy_checks (proof_header (float none "Infinity")) "body" ≡ raise too_large)
    ↔ Escapes toy_checks (proof_header (float none "Infinity")) "body" too_large
presenter_key_of-Escapes_example =
    presenter_key_of-Escapes toy_checks "body" too_large (proof_header (float none "Infinity"))

sse-IsDone_iff_example :
    Any IsDone (sse (chunk null ∷ []) none)
    ↔ (All IsChunk (chunk null ∷ []) × (◌≡◌ {A = Option Error} none none))
sse-IsDone_iff_example = sse-IsDone_iff (chunk null ∷ []) none

abbrev toy_agui : AguiCore Journal
toy_agui = record {
  latest_run_for_thread = λ s id. some (record { run_id = "r2"; cancel_requested_by = none });
  get_run_events = λ s id. [];
  open_asks = λ events. "a1" ∷ [];
  get_thread_snapshot = λ s id. some empty;
  get_thread_tree = λ s id. none;
  get_agent = λ s ref. true;
  create_thread = λ s ref metadata. ("t9", s);
  run = λ s ref body key. (ok (AguiResult.event_stream []), s);
}

waiting_run_iff_example :
    (lookup "waiting_run" (with_outstanding_asks toy_agui (λ n. []) "t1" empty)
      ≡ some (waiting_run "r2" ("a1" ∷ [])))
    ↔ Waits toy_agui (λ n. []) "t1" (waiting_run "r2" ("a1" ∷ []))
waiting_run_iff_example =
    waiting_run_iff toy_agui (λ n. []) "t1" empty (waiting_run "r2" ("a1" ∷ [])) refl
