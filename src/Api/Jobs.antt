-- ===== src/Api/Jobs.antt =====
-- internal/httpapi/handler.go and admin.go: the queue of the printer over HTTP, and one job of it.
pub mod Cleared
use raku_sika_hub.Prelude.{
  ℕ, zero, suc, ◌==◌, ltb, Bool, true, false, not, ◌&&◌, Option, none, some, List, [], ◌∷◌, ◌++◌,
  length, take, map, bytes, String, if◌then◌else◌,
}
use raku_sika_hub.Result.{Result, ok, err}
use raku_sika_hub.Scale.Text.{is_empty}
use raku_sika_hub.Scale.Protocol.{trim_space}
use raku_sika_hub.Queue.{QueueJob, QueueState, queue_cleared, Diagnosis, Snapshot, diagnose_queue}
use raku_sika_hub.Queue.Ages.{Seen}
use raku_sika_hub.Printer.{Prefix, printer_not_found, PrinterStatus, StatusError, PrinterError}
use raku_sika_hub.Printer.Cups.{Command, cancel_all, Outcome, Outside, M, pure, ◌>>=◌, run}
use raku_sika_hub.Printer.Status.{status_of}
use raku_sika_hub.Printer.Jobs.{
  QueueError, Shot, queue_snapshot, recent_jobs, cancel_job, restart_job,
}
use raku_sika_hub.Api.{code_of}

-- strings.LastIndex of a byte.
unfoldable pub last_index : ℕ → List ℕ → Option ℕ
last_index sep [] = none
last_index sep (b ∷ bs) = elim (last_index sep bs) [
  | some i ↦ some (suc i)
  | none ↦ if b == sep then some 0 else none
]

-- strings.ReplaceAll of an underscore by a space.
abbrev spaced_byte : ℕ → ℕ
spaced_byte b = if b == b'_' then 0x20 else b

-- The name of a printer that is shown: of the snapshot, or else of the id of the job.
abbrev name_in_id : List ℕ → Option ℕ → List ℕ
name_in_id id none = id
name_in_id id (some i) = if ltb 0 i then take i id else id

unfoldable pub shown_printer : List ℕ → List ℕ → List ℕ
unfolding last_index
shown_printer snapshot_printer id =
    map spaced_byte
      (if is_empty snapshot_printer then name_in_id id (last_index b'-' id) else snapshot_printer)

pub record ShownJob : Type 0 where
  pub printer : List ℕ
  pub job : QueueJob

unfoldable pub queue_jobs_from : List ℕ → List QueueJob → List ShownJob
unfolding shown_printer
queue_jobs_from snapshot_printer [] = []
queue_jobs_from snapshot_printer (job ∷ jobs) =
    record { printer = shown_printer snapshot_printer job.id; job = job }
    ∷ queue_jobs_from snapshot_printer jobs

-- queueStateMessage, and the text that stands above it.
pub data QueueMessage : Type 0 where
  told_of : QueueState → QueueMessage
  unreachable cleared : QueueMessage

-- QueueResponse; its counts and texts are those of the snapshot and of its jobs.
pub record QueueResponse : Type 0 where
  pub snapshot : Snapshot
  pub jobs : List ShownJob
  pub recent : List ShownJob
  pub job_count : ℕ
  pub clearable : Bool
  pub message : QueueMessage
  pub diagnosis : Diagnosis

pub data QueueAnswer : Type 0 where
  queue_unreadable : QueueError → QueueAnswer
  listed : QueueResponse → QueueAnswer
  -- The queue is cleared, or there is none.
  queue_emptied : Option PrinterStatus → QueueAnswer
  clear_failed : List ℕ → QueueAnswer

abbrev recent_of : Result QueueError (List QueueJob) → List QueueJob
recent_of (err e) = []
recent_of (ok jobs) = jobs

abbrev pub queue_response : Snapshot → Result QueueError (List QueueJob) → QueueResponse
queue_response snapshot recent = record {
  snapshot = snapshot;
  jobs = queue_jobs_from snapshot.printer_name snapshot.jobs;
  recent = queue_jobs_from snapshot.printer_name (recent_of recent);
  job_count = length (queue_jobs_from snapshot.printer_name snapshot.jobs);
  clearable = ltb 0 (length (queue_jobs_from snapshot.printer_name snapshot.jobs));
  message =
      if not (is_empty snapshot.backend_error)
        && ltb 0 (length (queue_jobs_from snapshot.printer_name snapshot.jobs))
      then unreachable
      else told_of snapshot.queue_state;
  diagnosis = diagnose_queue snapshot;
}

-- The answer about one job: 400, 404 or 500 with the code, or 200.
pub data JobAnswer : Type 0 where
  bad_request not_found done_with : JobAnswer
  server_error : PrinterError → JobAnswer

abbrev failed_as : Prefix → PrinterError → JobAnswer
failed_as printer_not_found e = not_found
failed_as _ e = server_error e

abbrev pub job_answer : Option PrinterError → JobAnswer
job_answer none = done_with
job_answer (some e) = failed_as e.prefix e

module _ (outside : Outside) (configured_name : List ℕ) where
  module _ (now : ℕ) (seen : List Seen) where
    abbrev listed_from : Result QueueError Snapshot → M QueueAnswer
    listed_from (err e) = pure (queue_unreadable e)
    listed_from (ok snapshot) = do
      recent ← recent_jobs outside configured_name 5
      pure (listed (queue_response snapshot recent))

    -- handlePrinterQueueGet.
    unfoldable pub handle_queue_get : M QueueAnswer
    unfolding queue_snapshot recent_jobs queue_jobs_from diagnose_queue
    handle_queue_get = do
      taken ← queue_snapshot outside configured_name now seen
      listed_from taken.shot

    abbrev job_answered : Option PrinterError × List Seen → JobAnswer
    job_answered (error, ledger) = job_answer error

    -- HandlePrinterJob for DELETE, with the id of the path.
    unfoldable pub handle_printer_job : List ℕ → M JobAnswer
    unfolding cancel_job
    handle_printer_job path_id =
        let id = trim_space path_id in
        let asked = do
          answer ← cancel_job outside configured_name now seen id
          pure (job_answered answer)
        in if is_empty id then pure bad_request else asked

    -- HandlePrinterJobRestart for POST.
    unfoldable pub handle_printer_job_restart : List ℕ → M JobAnswer
    unfolding restart_job
    handle_printer_job_restart path_id =
        let id = trim_space path_id in
        let asked = do
          answer ← restart_job outside configured_name now seen id
          pure (job_answered answer)
        in if is_empty id then pure bad_request else asked

  abbrev pub cleared_answer : PrinterStatus → Outcome → QueueAnswer
  cleared_answer status reply =
      if reply.failed && not (is_empty (trim_space reply.out))
      then clear_failed (trim_space reply.out)
      else queue_emptied (some status)

  -- Without a status the selected printer is empty.
  abbrev pub clear_selected : Result StatusError PrinterStatus → M QueueAnswer
  clear_selected (err e) = pure (queue_emptied none)
  clear_selected (ok status) =
      let clear = do
        reply ← run outside (cancel_all status.selected_name)
        pure (cleared_answer status reply)
      in if is_empty status.selected_name then pure (queue_emptied none) else clear

  -- handlePrinterQueueDelete.
  unfoldable pub handle_queue_delete : M QueueAnswer
  unfolding status_of run
  handle_queue_delete = do status ← status_of outside configured_name; clear_selected status
