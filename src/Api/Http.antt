-- ===== src/Api/Http.antt =====
-- internal/httpapi/handler.go: validateAndBuildLabelData, classifyPrinterError and HandlePrinterPrint.
pub mod Complete
use raku_sika_hub.Prelude.{
  ℕ, Bool, true, false, not, Option, none, some, List, [], ◌∷◌, ltb, if◌then◌else◌, String,
}
use raku_sika_hub.Result
use raku_sika_hub.Result.{Result, ok, err}
use raku_sika_hub.Scale.Text.{is_empty}
use raku_sika_hub.Label.{
  Fields, LabelData, value, normalize_request_data, build_label_data, valid_templates, mem_text,
  required_fields, max_copies,
}
use raku_sika_hub.Queue.{Diagnosis, Snapshot, diagnose_queue}
use raku_sika_hub.Queue.Ages.{Seen}
use raku_sika_hub.Queue.Confirm.{PrintState, done, pending, PrintResult}
use raku_sika_hub.Printer.{PrinterError}
use raku_sika_hub.Printer.Cups.{Outside, M, pure, ◌>>=◌}
use raku_sika_hub.Printer.Jobs.{QueueError, Shot, queue_snapshot}
use raku_sika_hub.Printer.Print.{Station, Afterwards, print_label}
use raku_sika_hub.Api.{
  PrintRequest, one_at_least, Refusal, bad_json, too_many_copies, renderer_missing,
  unknown_template, missing_fields, printer_said, code_of, Event, told, failed, Answer, refused,
  printed_as, Handled,
}

-- The required fields that are empty.
unfoldable pub missing_from : List String → Fields → List String
unfolding value
missing_from [] fields = []
missing_from (f ∷ fs) fields =
    let rest = missing_from fs fields in if is_empty (value f fields) then f ∷ rest else rest

abbrev pub is_nil : List String → Bool
is_nil [] = true
is_nil (s ∷ ss) = false

-- The code and the reason of a refusal; the status of renderer_missing is 500, that of the others 400.
unfoldable pub validate_and_build_label_data :
    Bool → List ℕ → PrintRequest → Result (String × Refusal) LabelData
unfolding missing_from normalize_request_data build_label_data required_fields
validate_and_build_label_data can_render default_logo req =
    let copies = one_at_least req.copies in
    let fields = normalize_request_data req.fields in
    let missing = missing_from (required_fields req.template) fields in
    if not (mem_text req.template valid_templates)
    then Result.err ("INVALID_REQUEST", unknown_template req.template)
    else if ltb max_copies copies
    then Result.err ("INVALID_REQUEST", too_many_copies)
    else if not (is_nil missing)
    then Result.err ("INVALID_REQUEST", missing_fields missing)
    else if not can_render
    then Result.err ("PRINTER_ERROR", renderer_missing)
    else Result.ok (build_label_data req.template copies fields default_logo)

abbrev pub can_render_of {ℓ} : {A : Type ℓ} → Option A → Bool
can_render_of none = false
can_render_of (some r) = true

abbrev is_pending : PrintState → Bool
is_pending pending = true
is_pending done = false

abbrev diagnosis_of : Shot → Option Diagnosis
diagnosis_of taken = elim taken.shot [ err e ↦ none | ok snapshot ↦ some (diagnose_queue snapshot) ]

-- The maps of HandlePrinterPrint that are broadcast: jobId and message stand in them even if empty.
abbrev pub failed_event : LabelData → PrinterError → Event
failed_event label e = record {
  status = failed;
  template = label.template;
  copies = label.copies;
  job_id = none;
  message = none;
  error = some e;
}

abbrev pub progress_event : LabelData → PrintResult → Event
progress_event label result = record {
  status = told result.state;
  template = label.template;
  copies = label.copies;
  job_id = some result.job_id;
  message = some result.message;
  error = none;
}

module _ (outside : Outside) (station : Station) (afterwards : Afterwards)
    (default_logo : List ℕ) where
  -- The time and the ledger of the reading of the queue that tells why a job is still there.
  module _ (now : ℕ) (seen : List Seen) where
    abbrev pub diagnosis : PrintResult → Option Diagnosis → M (Option Diagnosis)
    diagnosis result (some d) = pure (some d)
    diagnosis result none =
        let asked = do
          taken ← queue_snapshot outside station.name now seen
          pure (diagnosis_of taken)
        in if is_pending result.state then asked else pure none

    abbrev pub printed_handled : LabelData → Result PrinterError PrintResult → M Handled
    printed_handled label (err e) = pure (record {
      answer = refused (code_of e.prefix) (printer_said e);
      events = failed_event label e ∷ [];
    })
    printed_handled label (ok result) = do
      d ← diagnosis result result.diagnosis
      pure (record {
        answer = printed_as label.copies result d;
        events = progress_event label result ∷ [];
      })

    abbrev pub validated : Result (String × Refusal) LabelData → M Handled
    validated (err why) = pure (record { answer = refused why.0 why.1; events = [] })
    validated (ok label) = do
      result ← print_label outside station afterwards label
      printed_handled label result

    -- HandlePrinterPrint, for a POST with that body; none is a body that is no JSON.
    unfoldable pub handle_printer_print : Option PrintRequest → M Handled
    unfolding validate_and_build_label_data print_label queue_snapshot diagnose_queue
    handle_printer_print none =
        pure (record { answer = refused "INVALID_REQUEST" bad_json; events = [] })
    handle_printer_print (some req) =
        validated (validate_and_build_label_data (can_render_of station.renderer) default_logo req)
