-- ===== src/Queue.antt =====
-- internal/printer: what the hub makes of a CUPS queue (brother.go, diagnosis.go). Strings are their
-- bytes; a title and an action are determined by the code of a diagnosis, and are left out.
pub mod Wait
pub mod Ages
pub mod Confirm
pub mod Told
pub mod Raw
pub mod Diagnosed
use raku_sika_hub.Prelude.{
  ℕ, zero, suc, ◌+◌, Bool, true, false, not, ◌&&◌, ◌||◌, Option, none, some, List, [], ◌∷◌, leb,
  ◌==◌, if◌then◌else◌, length, map,
}
use raku_sika_hub.Status.{Message}
use raku_sika_hub.Scale.Text.{same_bytes, is_empty}
use raku_sika_hub.Scale.Protocol.{trim_space}
use raku_sika_hub.Strings.{lower, contains}

pub record QueueJob : Type 0 where
  pub id : List ℕ
  pub user : List ℕ
  pub size : List ℕ
  pub submitted_at : List ℕ
  pub state : List ℕ
  pub age_sec : ℕ

pub data QueueState : Type 0 where
  queue_cleared queue_printing queue_stalled queue_queued : QueueState

pub data DiagnosisCode : Type 0 where
  diag_ok printer_missing printer_unreachable diag_stalled diag_backlog print_unconfirmed :
      DiagnosisCode

-- The details: fixed texts, the error of the backend, a count of jobs and an age, what rakuql says.
pub data Detail : Type 0 where
  no_queue no_connection no_jobs : Detail
  backend_error : List ℕ → Detail
  jobs_waiting : ℕ → ℕ → Detail
  jobs_printing : ℕ → Detail
  backend_says : List Message → Detail

pub record Diagnosis : Type 0 where
  pub code : DiagnosisCode
  pub blocking : Bool
  pub detail : Detail
  pub clear_queue : Bool

pub record Snapshot : Type 0 where
  pub printer_name : List ℕ
  pub printer_state : List ℕ
  pub queue_state : QueueState
  pub backend_ready : Bool
  pub backend_error : List ℕ
  pub jobs : List QueueJob
  pub oldest_job_age_sec : ℕ

-- QueueSnapshot.findJob.
unfoldable pub find_job : List QueueJob → List ℕ → Option QueueJob
find_job [] id = none
find_job (job ∷ jobs) id =
    let rest = find_job jobs id in if same_bytes job.id id then some job else rest

abbrev state_printing : List ℕ
state_printing = b'p' ∷ b'r' ∷ b'i' ∷ b'n' ∷ b't' ∷ b'i' ∷ b'n' ∷ b'g' ∷ []

abbrev state_idle : List ℕ
state_idle = b'i' ∷ b'd' ∷ b'l' ∷ b'e' ∷ []

abbrev state_disabled : List ℕ
state_disabled = b'd' ∷ b'i' ∷ b's' ∷ b'a' ∷ b'b' ∷ b'l' ∷ b'e' ∷ b'd' ∷ []

-- "connected to printer".
abbrev connected_to_printer : List ℕ
connected_to_printer =
    b'c' ∷ b'o' ∷ b'n' ∷ b'n' ∷ b'e' ∷ b'c' ∷ b't' ∷ b'e' ∷ b'd' ∷ 0x20 ∷ b't' ∷ b'o' ∷ 0x20 ∷ b'p'
    ∷ b'r' ∷ b'i' ∷ b'n' ∷ b't' ∷ b'e' ∷ b'r' ∷ []

-- normalizePrinterQueueState; letters beyond ASCII keep their case, which decides no test.
unfoldable pub normalize_queue_state : List ℕ → ℕ → QueueState
normalize_queue_state printer_state count =
    let state = trim_space (map lower printer_state) in
    if count == 0
    then queue_cleared
    else if same_bytes state state_printing || contains connected_to_printer state
    then queue_printing
    else if same_bytes state state_idle || same_bytes state state_disabled || is_empty state
    then queue_stalled
    else queue_queued

abbrev pub stalled_after_sec : ℕ
stalled_after_sec = 90

abbrev pub is_stalled : QueueState → Bool
is_stalled queue_stalled = true
is_stalled _ = false

unfoldable pub diagnose_queue : Snapshot → Diagnosis
diagnose_queue s =
    let count = length s.jobs in
    if is_empty s.printer_name
    then record { code = printer_missing; blocking = true; detail = no_queue; clear_queue = false }
    else if not s.backend_ready || not (is_empty s.backend_error)
    then record {
      code = printer_unreachable;
      blocking = true;
      detail = if is_empty s.backend_error then no_connection else backend_error s.backend_error;
      clear_queue = false;
    }
    else if count == 0
    then record { code = diag_ok; blocking = false; detail = no_jobs; clear_queue = false }
    else if is_stalled s.queue_state || leb stalled_after_sec s.oldest_job_age_sec
    then record {
      code = diag_stalled;
      blocking = true;
      detail = jobs_waiting count s.oldest_job_age_sec;
      clear_queue = true;
    }
    else record {
      code = diag_backlog;
      blocking = false;
      detail = jobs_printing count;
      clear_queue = false;
    }
