-- ===== src/Api/Jobs/Cleared.antt =====
-- internal/httpapi/handler.go: what DELETE of the queue runs.
use raku_sika_hub.Prelude.{ℕ, ◌≡◌, refl, false, none, List, ◌∷◌, if_cases}
use raku_sika_hub.Result.{Result, ok, err}
use raku_sika_hub.Scale.Text.{is_empty}
use raku_sika_hub.Printer.{PrinterStatus, StatusError}
use raku_sika_hub.Printer.Cups.{Command, cancel_all, Outside, M, run}
use raku_sika_hub.Printer.Status.{status_of}
use raku_sika_hub.Printer.Reads.{Reads, OnlyReads-status_of}
use raku_sika_hub.Api.Jobs.{QueueAnswer, queue_emptied, clear_selected, handle_queue_delete}

module _ (outside : Outside) (configured_name : List ℕ) (before : List Command) where
  -- Without a queue, commands that only read; else all jobs of the selected queue are cancelled last.
  pub data Clears : QueueAnswer → List Command → Type 0 where
    no_queue : {issued : List Command} → Reads before issued → Clears (queue_emptied none) issued
    cancelled :
        (status : PrinterStatus) (answer : QueueAnswer) {issued : List Command}
        → (status_of outside configured_name before).0 ≡ Result.ok status
        → is_empty status.selected_name ≡ false
        → Reads before issued
        → Clears answer (cancel_all status.selected_name ∷ issued)

  clear_selected-Clears :
      (found : Result StatusError PrinterStatus)
      → (status_of outside configured_name before).0 ≡ found
      → Clears
          (clear_selected outside configured_name found
            (status_of outside configured_name before).1).0
          (clear_selected outside configured_name found
            (status_of outside configured_name before).1).1
  unfolding run
  clear_selected-Clears (err e) known =
      no_queue (OnlyReads-status_of outside configured_name before)
  clear_selected-Clears (ok status) known =
      let later = (status_of outside configured_name before).1 in
      if_cases (λ (m : M QueueAnswer). Clears (m later).0 (m later).1)
        (is_empty status.selected_name)
        (λ _. no_queue (OnlyReads-status_of outside configured_name before))
        (λ named.
          cancelled status _ known named (OnlyReads-status_of outside configured_name before))

  -- DELETE of the queue runs commands that only read, and then, if the status that it read has a selected
  -- queue, cancels all jobs of that queue and of no other; without one it answers that there is no queue.
  handle_queue_delete-Clears :
      Clears
        (handle_queue_delete outside configured_name before).0
        (handle_queue_delete outside configured_name before).1
  unfolding handle_queue_delete
  handle_queue_delete-Clears = clear_selected-Clears _ refl
