-- ===== src/Printer/Jobs/Safe.antt =====
-- internal/printer/brother.go: what CancelJob and RestartJob run.
use raku_sika_hub.Prelude.{ℕ, ◌≡◌, refl, ◌⊎◌, Bool, true, Option, none, some, List, ◌∷◌, if_cases}
use raku_sika_hub.Result.{Result, ok, err}
use raku_sika_hub.Scale.Text.{is_empty}
use raku_sika_hub.Scale.Protocol.{trim_space}
use raku_sika_hub.Queue.{QueueJob, Snapshot, find_job}
use raku_sika_hub.Queue.Ages.{Seen}
use raku_sika_hub.Printer.{PrinterError}
use raku_sika_hub.Printer.Cups.{Command, cancel_id, Outside, M, run}
use raku_sika_hub.Printer.Reads.{Reads, same}
use raku_sika_hub.Printer.Jobs.{
  QueueError, queue_snapshot, recent_jobs, cancel_found, cancel_in, cancel_job,
}
use raku_sika_hub.Printer.Jobs.Reads.{OnlyReads-queue_snapshot}

-- An error after commands that only read, or the command after such, for a job that is known.
pub data Acts (Known : Type 0) (command : Command) (before : List Command)
    : Option PrinterError → List Command → Type 0 where
  refused :
      (e : PrinterError) {issued : List Command}
      → Reads before issued
      → Acts Known command before (some e) issued
  acted :
      Known
      → (error : Option PrinterError) {issued : List Command} → Reads before issued
      → Acts Known command before error (command ∷ issued)

module _ (outside : Outside) (configured_name : List ℕ) (now : ℕ) (seen : List Seen) where
  -- The job is in the reading of the queue.
  abbrev pub IsPending : List Command → List ℕ → Type 0
  IsPending before id =
      (snapshot : Snapshot) × (job : QueueJob) × ((queue_snapshot outside configured_name now seen
          before).0.shot
        ≡ Result.ok snapshot)
      × (find_job snapshot.jobs id ≡ some job)

  -- The job is among the five newest finished ones, read after the queue.
  abbrev pub IsRecent : List Command → List ℕ → Type 0
  IsRecent before id =
      (jobs : List QueueJob) × (job : QueueJob) × ((recent_jobs outside configured_name 0
          (queue_snapshot outside configured_name now seen before).1).0
        ≡ Result.ok jobs)
      × (find_job jobs id ≡ some job)

  module _ (before : List Command) (id : List ℕ) where
    abbrev read_queue : List Command
    read_queue = (queue_snapshot outside configured_name now seen before).1

    Reads-queue : Reads before read_queue
    Reads-queue = OnlyReads-queue_snapshot outside configured_name now seen before

    cancel_found-Acts :
        (snapshot : Snapshot) (found : Option QueueJob)
        → (queue_snapshot outside configured_name now seen before).0.shot ≡ Result.ok snapshot
        → find_job snapshot.jobs id ≡ found
        → Acts
            (IsPending before id)
            (cancel_id id)
            before
            (cancel_found outside configured_name id found read_queue).0
            (cancel_found outside configured_name id found read_queue).1
    cancel_found-Acts snapshot none r e = refused _ Reads-queue
    cancel_found-Acts snapshot (some job) r e =
        unfold run in acted (snapshot, job, r, e) _ Reads-queue

    cancel_in-Acts :
        (shot : Result QueueError Snapshot)
        → (queue_snapshot outside configured_name now seen before).0.shot ≡ shot
        → Acts
            (IsPending before id)
            (cancel_id id)
            before
            (cancel_in outside configured_name id shot read_queue).0
            (cancel_in outside configured_name id shot read_queue).1
    cancel_in-Acts (err e) r = refused _ Reads-queue
    cancel_in-Acts (ok snapshot) r = cancel_found-Acts snapshot _ r refl

  -- CancelJob ends with an error after commands that only read, or it cancels, as its last command, the
  -- trimmed id, and that is the id of a job in the reading of the queue that it took.
  pub cancel_job-Acts :
      (before : List Command) (job_id : List ℕ)
      → Acts
          (IsPending before (trim_space job_id))
          (cancel_id (trim_space job_id))
          before
          (cancel_job outside configured_name now seen job_id before).0.0
          (cancel_job outside configured_name now seen job_id before).1
  unfolding cancel_job
  cancel_job-Acts before job_id =
      let id = trim_space job_id in
      if_cases
        (λ (m : M (Option PrinterError × List Seen)).
          Acts (IsPending before id) (cancel_id id) before (m before).0.0 (m before).1)
        (is_empty id) (λ _. refused _ same) (λ _. cancel_in-Acts before id _ refl)

  module _ (before : List Command) (id : List ℕ) where
    -- What jobBelongsToPrinter finds.
    abbrev IsKnown : Type 0
    IsKnown = IsPending before id ⊎ IsRecent before id

    abbrev Finds : Result PrinterError Bool × List Command → Type 0
    Finds r = Reads before r.1 × (r.0 ≡ Result.ok true → IsKnown)
