-- ===== src/Printer/Jobs.antt =====
-- internal/printer/brother.go: QueueSnapshot, RecentJobs, CancelJob, RestartJob and jobBelongsToPrinter.
-- The time and the ledger of the jobs seen (Brother.jobSeen) are arguments, and the ledger a result;
-- QueueSnapshot.BackendDevice, which no decision reads, is left out.
pub mod Reads
pub mod Safe
use raku_sika_hub.Prelude.{
  ℕ, Bool, true, false, not, ◌&&◌, ◌||◌, Option, none, some, List, [], ◌∷◌, ◌==◌, leb, ltb,
  if◌then◌else◌, bytes, map, length,
}
use raku_sika_hub.Result
use raku_sika_hub.Result.{Result, ok, err}
use raku_sika_hub.Scale.Text.{is_empty, same_bytes}
use raku_sika_hub.Scale.Protocol.{trim_space}
use raku_sika_hub.Queue.{
  QueueJob, Snapshot, queue_cleared, queue_stalled, find_job, normalize_queue_state,
}
use raku_sika_hub.Queue.Ages.{Seen, annotate_job_ages}
use raku_sika_hub.Printer.{
  PrinterStatus, StatusError, PrinterError, printer_error, printer_not_found, queue_unknown,
  history_unknown, no_job_id, bad_job_id, no_such_job, cancel_refused, restart_refused,
}
use raku_sika_hub.Printer.Lpstat.{parse_queue_jobs, parse_printer_state, newest_completed_jobs}
use raku_sika_hub.Printer.Cups.{
  pending_jobs, completed_jobs, long_state, device_of, cancel_id, restart_id, Outcome, Outside, M,
  pure, ◌>>=◌, run, read,
}
use raku_sika_hub.Printer.Status.{status_of}

pub data QueueError : Type 0 where
  status_failed : StatusError → QueueError
  lpstat_queue_failed lpstat_completed_failed : List ℕ → QueueError

-- A reading of the queue, with the ledger that it leaves.
pub record Shot : Type 0 where
  pub shot : Result QueueError Snapshot
  pub seen : List Seen

abbrev stalled_job : QueueJob → QueueJob
stalled_job job = record job { state = bytes "stalled" }

-- What QueueSnapshot takes from the status.
abbrev with_status : PrinterStatus → Snapshot → Snapshot
with_status status snapshot =
    let stalled = not status.backend_ready && ltb 0 (length snapshot.jobs) in
    record snapshot {
      printer_state = status.cups_state;
      backend_ready = status.backend_ready;
      backend_error = status.backend_error;
      queue_state = if stalled then queue_stalled else snapshot.queue_state;
      jobs = if stalled then map stalled_job snapshot.jobs else snapshot.jobs;
    }

-- annotateJobAges on a snapshot.
abbrev aged : ℕ → List Seen → Snapshot → Shot
aged now seen snapshot =
    let ages = annotate_job_ages now snapshot.jobs seen in
    record {
      shot = Result.ok (record snapshot { jobs = ages.jobs; oldest_job_age_sec = ages.oldest });
      seen = ages.ledger;
    }

-- A byte of jobIDPattern.
abbrev is_id_byte : ℕ → Bool
is_id_byte b =
    (leb 0x41 b && leb b 0x5A)
    || (leb 0x61 b && leb b 0x7A)
    || (leb 0x30 b && leb b 0x39)
    || b == b'.'
    || b == b'_'
    || b == b'-'

abbrev all_id_bytes : List ℕ → Bool
all_id_bytes [] = true
all_id_bytes (b ∷ bs) = is_id_byte b && all_id_bytes bs

unfoldable pub is_safe_job_id : List ℕ → Bool
is_safe_job_id id = not (is_empty id) && leb (length id) 128 && all_id_bytes id

abbrev failure : PrinterError → Option PrinterError
failure = some

module _ (outside : Outside) (configured_name : List ℕ) where
  unfoldable pub read_pending_queue_jobs : List ℕ → M (Result QueueError (List QueueJob))
  unfolding read
  read_pending_queue_jobs name = do
    reply ← read outside (pending_jobs name)
    pure (
        if reply.failed
        then Result.err (lpstat_queue_failed (trim_space reply.out))
        else Result.ok (parse_queue_jobs reply.out))

  unfoldable pub read_queue_printer_state : List ℕ → M (List ℕ)
  unfolding read
  read_queue_printer_state name = do
    reply ← read outside (long_state name)
    pure (if reply.failed then [] else parse_printer_state reply.out)

  abbrev snapshot_of : List ℕ → Result QueueError (List QueueJob) → M (Result QueueError Snapshot)
  snapshot_of name (err e) = pure (Result.err e)
  snapshot_of name (ok jobs) = do
    printer_state ← read_queue_printer_state name
    device ← read outside (device_of name)
    pure (
        Result.ok (record {
          printer_name = name;
          printer_state = printer_state;
          queue_state = normalize_queue_state printer_state (length jobs);
          backend_ready = true;
          backend_error = [];
          jobs = jobs;
          oldest_job_age_sec = 0;
        }))

  unfoldable pub read_queue_snapshot : List ℕ → M (Result QueueError Snapshot)
  unfolding read_pending_queue_jobs read_queue_printer_state
  read_queue_snapshot name = do jobs ← read_pending_queue_jobs name; snapshot_of name jobs

  abbrev no_queue_snapshot : PrinterStatus → Snapshot
  no_queue_snapshot status = record {
    printer_name = status.selected_name;
    printer_state = status.cups_state;
    queue_state = queue_cleared;
    backend_ready = status.backend_ready;
    backend_error = status.backend_error;
    jobs = [];
    oldest_job_age_sec = 0;
  }

  abbrev finish_shot : ℕ → List Seen → PrinterStatus → Result QueueError Snapshot → Shot
  finish_shot now seen status (err e) = record { shot = Result.err e; seen = seen }
  finish_shot now seen status (ok snapshot) = aged now seen (with_status status snapshot)

  abbrev shot_of : ℕ → List Seen → Result StatusError PrinterStatus → M Shot
  shot_of now seen (err e) = pure (record { shot = Result.err (status_failed e); seen = seen })
  shot_of now seen (ok status) =
      let none_shot = pure (record { shot = Result.ok (no_queue_snapshot status); seen = seen }) in
      let named = do
        snapshot ← read_queue_snapshot status.selected_name
        pure (finish_shot now seen status snapshot)
      in if is_empty status.selected_name then none_shot else named

  unfoldable pub queue_snapshot : ℕ → List Seen → M Shot
  unfolding status_of read_queue_snapshot annotate_job_ages
  queue_snapshot now seen = do status ← status_of outside configured_name; shot_of now seen status

  abbrev recent_of : ℕ → Result StatusError PrinterStatus → M (Result QueueError (List QueueJob))
  recent_of limit (err e) = pure (Result.err (status_failed e))
  recent_of limit (ok status) =
      let no_jobs = pure (Result.ok []) in
      let named = do
        reply ← read outside (completed_jobs status.selected_name)
        pure (
            if reply.failed && not (is_empty (trim_space reply.out))
            then Result.err (lpstat_completed_failed (trim_space reply.out))
            else Result.ok (newest_completed_jobs reply.out limit))
      in if is_empty status.selected_name then no_jobs else named

  -- RecentJobs; the limit is not negative.
  unfoldable pub recent_jobs : ℕ → M (Result QueueError (List QueueJob))
  unfolding status_of read
  recent_jobs limit = do
    status ← status_of outside configured_name
    recent_of (if limit == 0 then 5 else limit) status

  -- The answer of cancel, by the lookup in the snapshot.
  abbrev cancel_found : List ℕ → Option QueueJob → M (Option PrinterError)
  cancel_found id none =
      pure (failure (record { prefix = printer_not_found; detail = no_such_job id }))
  cancel_found id (some job) = do
    reply ← run outside (cancel_id id)
    pure (
        if reply.failed
        then failure
            (record { prefix = printer_error; detail = cancel_refused (trim_space reply.out) })
        else none)

  abbrev cancel_in : List ℕ → Result QueueError Snapshot → M (Option PrinterError)
  cancel_in id (err e) = pure (failure (record { prefix = printer_error; detail = queue_unknown }))
  cancel_in id (ok snapshot) = cancel_found id (find_job snapshot.jobs id)

  -- CancelJob: its error, and the ledger.
  unfoldable pub cancel_job : ℕ → List Seen → List ℕ → M (Option PrinterError × List Seen)
  unfolding queue_snapshot run
  cancel_job now seen job_id =
      let id = trim_space job_id in
      let refused = pure (failure (record { prefix = printer_error; detail = no_job_id }), seen) in
      let asked = do
        taken ← queue_snapshot now seen
        error ← cancel_in id taken.shot
        pure (error, taken.seen)
      in if is_empty id then refused else asked

  abbrev in_recent : List ℕ → Result QueueError (List QueueJob) → Result PrinterError Bool
  in_recent id (err e) = Result.err (record { prefix = printer_error; detail = history_unknown })
  in_recent id (ok jobs) = Result.ok (elim (find_job jobs id) [ none ↦ false | some job ↦ true ])

  abbrev pending_or_recent : List ℕ → Option QueueJob → M (Result PrinterError Bool)
  pending_or_recent id (some job) = pure (Result.ok true)
  pending_or_recent id none = do recent ← recent_jobs 0; pure (in_recent id recent)

  abbrev belongs : List ℕ → Result QueueError Snapshot → M (Result PrinterError Bool)
  belongs id (err e) = pure (Result.err (record { prefix = printer_error; detail = queue_unknown }))
  belongs id (ok snapshot) = pending_or_recent id (find_job snapshot.jobs id)

  -- jobBelongsToPrinter, and the ledger.
  unfoldable pub job_belongs_to_printer :
      ℕ → List Seen → List ℕ → M (Result PrinterError Bool × List Seen)
  unfolding queue_snapshot recent_jobs
  job_belongs_to_printer now seen id = do
    taken ← queue_snapshot now seen
    known ← belongs id taken.shot
    pure (known, taken.seen)

  abbrev restart_known : List ℕ → Result PrinterError Bool → M (Option PrinterError)
  restart_known id (err e) = pure (failure e)
  restart_known id (ok false) =
      pure (failure (record { prefix = printer_not_found; detail = no_such_job id }))
  restart_known id (ok true) = do
    reply ← run outside (restart_id id)
    pure (
        if reply.failed
        then failure
            (record { prefix = printer_error; detail = restart_refused (trim_space reply.out) })
        else none)

  -- RestartJob: its error, and the ledger.
  unfoldable pub restart_job : ℕ → List Seen → List ℕ → M (Option PrinterError × List Seen)
  unfolding job_belongs_to_printer is_safe_job_id run
  restart_job now seen job_id =
      let id = trim_space job_id in
      let refused = pure (failure (record { prefix = printer_error; detail = bad_job_id }), seen) in
      let asked = do
        known ← job_belongs_to_printer now seen id
        error ← restart_known id known.0
        pure (error, known.1)
      in if not (is_safe_job_id id) then refused else asked
