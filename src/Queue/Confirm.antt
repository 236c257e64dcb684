-- ===== src/Queue/Confirm.antt =====
-- internal/printer/raw.go: how long a print request waits, and what the tablet is told once the
-- backend has left its result.
use raku_sika_hub.Prelude.{
  ℕ, ◌+◌, ◌-◌, ◌*◌, ◌≤◌, ◌≡◌, Bool, true, false, not, ◌||◌, Option, none, some, List, [], ◌∷◌,
  arith, if◌then◌else◌, min, max,
}
use raku_sika_hub.Result
use raku_sika_hub.Status.{
  Message, Reason, media_empty_error, media_jam_error, media_needed_error, cover_open_error,
  other_error,
}
use raku_sika_hub.Send.World.{printed, failed, unconfirmed, canceled_job, Result}
use raku_sika_hub.Queue.{
  QueueJob, is_stalled, find_job, normalize_queue_state, Diagnosis, print_unconfirmed, backend_says,
}
use raku_sika_hub.Prelude.{length}

pub data PrintState : Type 0 where
  done pending : PrintState

-- The texts of a result: of the hub's own, or what the backend says.
pub data ResultText : Type 0 where
  sent_text waiting_text stalled_text printed_text : ResultText
  said : List Message → ResultText

pub record PrintResult : Type 0 where
  pub state : PrintState
  pub job_id : List ℕ
  pub message : ResultText
  pub printer_state : List ℕ
  pub job_state : Option (List ℕ)
  pub diagnosis : Option Diagnosis

pub data PrintError : Type 0 where
  queue_unreadable print_canceled : PrintError
  paper_error printer_error : List Message → PrintError

-- verifySubmittedJob behind the wait, from (jobs, err) on; `job_state` is none for "cleared".
unfoldable pub verify_submitted_job :
    List ℕ → Bool → List QueueJob → List ℕ → Result.Result PrintError PrintResult
verify_submitted_job id unreadable jobs printer_state =
    let queue_state = normalize_queue_state printer_state (length jobs) in
    if unreadable then Result.err queue_unreadable else elim (find_job jobs id) [
      | none ↦ Result.ok (record {
        state = done;
        job_id = id;
        message = sent_text;
        printer_state = printer_state;
        job_state = none;
        diagnosis = none;
      })
      | some job ↦ Result.ok (record {
        state = pending;
        job_id = id;
        message = if is_stalled queue_state then stalled_text else waiting_text;
        printer_state = printer_state;
        job_state = some job.state;
        diagnosis = none;
      })
    ]

-- Milliseconds: the timeouts of NewSender, and what raw.go adds.
abbrev pub preflight_timeout : ℕ
preflight_timeout = 2000

abbrev pub write_timeout : ℕ
write_timeout = 15000

abbrev pub per_page_timeout : ℕ
per_page_timeout = 20000

abbrev pub label_time : ℕ
label_time = 5000

abbrev pub queued : ℕ
queued = 12000

abbrev pub max_confirm_wait : ℕ
max_confirm_wait = 60000

unfoldable pub raw_confirm_wait : Bool → ℕ → ℕ
raw_confirm_wait uses_backend copies =
    let w =
      2 * preflight_timeout
      + write_timeout
      + per_page_timeout
      + (max copies 1 - 1) * label_time
      + 5000 in
    if not uses_backend then queued else max queued (min w max_confirm_wait)

abbrev is_paper : Reason → Bool
is_paper media_empty_error = true
is_paper media_needed_error = true
is_paper media_jam_error = true
is_paper cover_open_error = true
is_paper other_error = false

unfoldable pub is_paper_reason : List Reason → Bool
is_paper_reason [] = false
is_paper_reason (r ∷ rs) = is_paper r || is_paper_reason rs

-- confirmWithPrinter from the result on that ReadResult gives within its three seconds, if any.
unfoldable pub confirm_with_printer :
    Option Result → PrintResult → Result.Result PrintError PrintResult
confirm_with_printer none result = Result.ok result
confirm_with_printer (some res) result = elim res.outcome [
  | some printed ↦ Result.ok (record result { message = printed_text })
  | some unconfirmed ↦ Result.ok (record result {
    state = pending;
    message = said res.message;
    diagnosis = some (record {
      code = print_unconfirmed;
      blocking = true;
      detail = backend_says res.message;
      clear_queue = false;
    });
  })
  | some canceled_job ↦ Result.err print_canceled
  | some failed ↦
      Result.err
        (if is_paper_reason res.reasons then paper_error res.message else printer_error res.message)
  | none ↦
      Result.err
        (if is_paper_reason res.reasons then paper_error res.message else printer_error res.message)
]

-- A request is not given up before the backend had the time for its own verdict on up to four labels,
-- nor before 12 seconds, and it never holds the tablet for more than 60 seconds.
raw_confirm_wait_bounds :
    (copies : ℕ)
    → (12000 ≤ raw_confirm_wait true copies)
      × (raw_confirm_wait true copies ≤ 60000)
      × (copies ≤ 4
          → 2 * preflight_timeout + write_timeout + per_page_timeout + (copies - 1) * label_time
            ≤ raw_confirm_wait true copies)
unfolding raw_confirm_wait
raw_confirm_wait_bounds copies = (omega arith, omega arith, λ h. omega arith)

-- With a result of the backend, a print request that ends without an error as done is one that the
-- backend calls printed.
pub confirm_with_printer-done :
    (res : Result) (before after : PrintResult)
    → confirm_with_printer (some res) before ≡ Result.ok after
    → after.state ≡ done
    → res.outcome ≡ some printed
unfolding confirm_with_printer
confirm_with_printer-done res before after h d = ground arith
