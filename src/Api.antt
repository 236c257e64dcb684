-- ===== src/Api.antt =====
-- internal/httpapi/handler.go and internal/ws/handler.go: the two front ends of the printer. A request is
-- what encoding/json decodes; texts of answers are constructors, and codes are texts.
pub mod Http
pub mod Socket
pub mod Hub
pub mod Errors
pub mod Scales
pub mod Middleware
pub mod Jobs
use raku_sika_hub.Prelude.{ℕ, ℤ, pos, negsuc, Option, List, String, if◌then◌else◌, ltb}
use raku_sika_hub.Label.{Fields, LabelData}
use raku_sika_hub.Queue.Confirm.{PrintState, PrintResult, ResultText}
use raku_sika_hub.Queue.{Diagnosis}
use raku_sika_hub.Printer.{
  Prefix, printer_not_configured, printer_permission_denied, printer_disabled, printer_paper_error,
  printer_unavailable, printer_not_found, printer_error, PrinterError,
}

-- PrintRequest of both packages.
pub record PrintRequest : Type 0 where
  pub template : String
  pub copies : ℤ
  pub fields : Fields

-- copies < 1 stands for one.
abbrev pub one_at_least : ℤ → ℕ
one_at_least (pos n) = if ltb n 1 then 1 else n
one_at_least (negsuc n) = 1

-- Why a request is refused.
pub data Refusal : Type 0 where
  bad_json too_many_copies renderer_missing : Refusal
  unknown_template : String → Refusal
  missing_fields : List String → Refusal
  printer_said : PrinterError → Refusal

-- classifyPrinterError, the switch of HTTP on the prefix of an error.
abbrev pub code_of : Prefix → String
code_of printer_not_configured = "PRINTER_NOT_CONFIGURED"
code_of printer_permission_denied = "PRINTER_PERMISSION_DENIED"
code_of printer_disabled = "PRINTER_DISABLED"
code_of printer_paper_error = "PRINTER_PAPER_ERROR"
code_of printer_unavailable = "PRINTER_UNAVAILABLE"
code_of printer_not_found = "PRINTER_ERROR"
code_of printer_error = "PRINTER_ERROR"

-- The status of a print_progress event: the state of a print, or `failed`.
pub data EventStatus : Type 0 where
  told : PrintState → EventStatus
  failed : EventStatus

-- The print_progress event as it is sent; none is a key that the JSON does not have.
pub record Event : Type 0 where
  pub status : EventStatus
  pub template : String
  pub copies : ℕ
  pub job_id : Option (List ℕ)
  pub message : Option ResultText
  pub error : Option PrinterError

-- An answer: the request is refused with a code, or printed, with a diagnosis if there is one.
pub data Answer : Type 0 where
  refused : (code : String) → Refusal → Answer
  printed_as : (copies : ℕ) → PrintResult → Option Diagnosis → Answer

-- The answer to the client, and the events for all clients.
pub record Handled : Type 0 where
  pub answer : Answer
  pub events : List Event

-- The code of a refusal, none for a print.
abbrev pub code : Answer → Option String
code (refused c why) = Option.some c
code (printed_as copies result diagnosis) = Option.none
