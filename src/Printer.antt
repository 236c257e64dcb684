-- ===== src/Printer.antt =====
-- internal/printer/brother.go, detect.go and raw.go: the hub's side of CUPS. A command is run in an
-- environment that answers it by what has been run before; the state is the list of commands so far,
-- the last one first. Strings are their bytes.
pub mod Names
pub mod Lpstat
pub mod Cups
pub mod Status
pub mod Reads
pub mod Jobs
pub mod Print
use raku_sika_hub.Prelude.{ℕ, Bool, List}
use raku_sika_hub.Queue.Confirm.{PrintError}
use raku_sika_hub.Queue.Raw.{RawError}

-- PrinterStatus.Source.
pub data Source : Type 0 where
  from_config cups_default auto_detected first_available unresolved : Source

pub record PrinterStatus : Type 0 where
  pub configured_name : List ℕ
  pub selected_name : List ℕ
  pub default_name : List ℕ
  pub available : List (List ℕ)
  pub source : Source
  pub model : List ℕ
  pub device_uri : List ℕ
  pub cups_state : List ℕ
  pub backend_ready : Bool
  pub backend_error : List ℕ
  pub raw : Bool

-- The error of Status: the text of the error, and what lpstat said.
pub data StatusError : Type 0 where
  lpstat_failed : List ℕ → List ℕ → StatusError

-- An error text up to its colon, which tells the front ends its code: PRINTER_NOT_CONFIGURED,
-- PRINTER_PERMISSION_DENIED, PRINTER_DISABLED, PRINTER_PAPER_ERROR, PRINTER_UNAVAILABLE,
-- PRINTER_NOT_FOUND, PRINTER_ERROR.
pub data Prefix : Type 0 where
  printer_not_configured printer_permission_denied printer_disabled printer_paper_error : Prefix
  printer_unavailable printer_not_found printer_error : Prefix

-- And what follows the colon.
pub data ErrorDetail : Type 0 where
  not_resolved no_backend : PrinterStatus → ErrorDetail
  not_permitted not_accepting out_of_paper no_renderer render_failed label_missing : ErrorDetail
  label_too_small : ℕ → ErrorDetail
  lp_said : List ℕ → ErrorDetail
  status_unknown queue_unknown history_unknown : ErrorDetail
  no_job_id bad_job_id : ErrorDetail
  no_such_job cancel_refused restart_refused : List ℕ → ErrorDetail
  raw_refused : RawError → ErrorDetail
  file_unwritable : ErrorDetail
  confirm_refused : PrintError → ErrorDetail

pub record PrinterError : Type 0 where
  pub prefix : Prefix
  pub detail : ErrorDetail

-- printerConfigError.
abbrev pub config_error : PrinterStatus → PrinterError
config_error status = record { prefix = printer_not_configured; detail = not_resolved status }
