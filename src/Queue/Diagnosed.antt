-- ===== src/Queue/Diagnosed.antt =====
-- internal/printer/diagnosis.go: what a diagnosis tells the operator to do.
use raku_sika_hub.Prelude.{◌≤◌, ◌<◌, ◌≡◌, ◌⊎◌, ◌↔◌, true, false, arith, length}
use raku_sika_hub.Queue.{Snapshot, is_stalled, diagnose_queue}
use raku_sika_hub.Scale.Text.{is_empty}

-- The queue is offered for clearing exactly when the printer is registered and can be reached, jobs
-- wait, and the queue is stalled or its oldest job has waited for 90 seconds.
clear_queue_iff :
    (s : Snapshot)
    → ((diagnose_queue s).clear_queue ≡ true) ↔ (
        (is_empty s.printer_name ≡ false)
        × (s.backend_ready ≡ true)
        × (is_empty s.backend_error ≡ true)
        × (0 < length s.jobs)
        × ((is_stalled s.queue_state ≡ true) ⊎ (90 ≤ s.oldest_job_age_sec)))
unfolding diagnose_queue
clear_queue_iff s = (λ h. ground arith, λ h. ground arith)
