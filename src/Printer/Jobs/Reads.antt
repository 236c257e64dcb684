-- ===== src/Printer/Jobs/Reads.antt =====
-- internal/printer/brother.go: QueueSnapshot and RecentJobs run commands that only read.
use raku_sika_hub.Prelude.{ℕ, List}
use raku_sika_hub.Result.{Result, ok, err}
use raku_sika_hub.Queue.{QueueJob}
use raku_sika_hub.Queue.Ages.{Seen}
use raku_sika_hub.Printer.{PrinterStatus, StatusError}
use raku_sika_hub.Printer.Cups.{Outside}
use raku_sika_hub.Printer.Reads.{
  same, OnlyReads, reading_rules, OnlyReads-read, OnlyReads-status_of,
}
use raku_sika_hub.Printer.Jobs.{
  QueueError, read_pending_queue_jobs, read_queue_printer_state, snapshot_of, read_queue_snapshot,
  shot_of, queue_snapshot, recent_of, recent_jobs,
}

module _ (outside : Outside) (configured_name : List ℕ) where
  OnlyReads-read_pending_queue_jobs :
      (name : List ℕ) → OnlyReads (read_pending_queue_jobs outside configured_name name)
  unfolding read_pending_queue_jobs
  OnlyReads-read_pending_queue_jobs name = search (reading_rules, OnlyReads-read)

  OnlyReads-read_queue_printer_state :
      (name : List ℕ) → OnlyReads (read_queue_printer_state outside configured_name name)
  unfolding read_queue_printer_state
  OnlyReads-read_queue_printer_state name = search (reading_rules, OnlyReads-read)

  OnlyReads-snapshot_of :
      (name : List ℕ) (jobs : Result QueueError (List QueueJob))
      → OnlyReads (snapshot_of outside configured_name name jobs)
  OnlyReads-snapshot_of name (err e) = λ issued. same
  OnlyReads-snapshot_of name (ok jobs) =
      search (reading_rules, OnlyReads-read, OnlyReads-read_queue_printer_state)

  OnlyReads-read_queue_snapshot :
      (name : List ℕ) → OnlyReads (read_queue_snapshot outside configured_name name)
  unfolding read_queue_snapshot
  OnlyReads-read_queue_snapshot name =
      search (reading_rules, OnlyReads-snapshot_of, OnlyReads-read_pending_queue_jobs)

  OnlyReads-shot_of :
      (now : ℕ) (seen : List Seen) (found : Result StatusError PrinterStatus)
      → OnlyReads (shot_of outside configured_name now seen found)
  OnlyReads-shot_of now seen (err e) = λ issued. same
  OnlyReads-shot_of now seen (ok status) = search (reading_rules, OnlyReads-read_queue_snapshot)

  pub OnlyReads-queue_snapshot :
      (now : ℕ) (seen : List Seen) → OnlyReads (queue_snapshot outside configured_name now seen)
  unfolding queue_snapshot
  OnlyReads-queue_snapshot now seen =
      search (reading_rules, OnlyReads-status_of outside, OnlyReads-shot_of)

  OnlyReads-recent_of :
      (limit : ℕ) (found : Result StatusError PrinterStatus)
      → OnlyReads (recent_of outside configured_name limit found)
  OnlyReads-recent_of limit (err e) = λ issued. same
  OnlyReads-recent_of limit (ok status) = search (reading_rules, OnlyReads-read)

  pub OnlyReads-recent_jobs : (limit : ℕ) → OnlyReads (recent_jobs outside configured_name limit)
  unfolding recent_jobs
  OnlyReads-recent_jobs limit =
      search (reading_rules, OnlyReads-status_of outside, OnlyReads-recent_of)
