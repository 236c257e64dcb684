-- ===== src/Api/Socket/Same.antt =====
-- internal/httpapi/handler.go and internal/ws/handler.go: the two front ends print alike.
use raku_sika_hub.Prelude.{
  ℕ, ◌≡◌, refl, Bool, true, false, not, Option, none, some, List, [], ◌∷◌, map, ap, ltb,
  if◌then◌else◌, String,
}
use raku_sika_hub.Result.{Result, ok, err}
use raku_sika_hub.Label.{
  LabelData, normalize_request_data, build_label_data, valid_templates, mem_text, required_fields,
  max_copies,
}
use raku_sika_hub.Queue.{Diagnosis}
use raku_sika_hub.Queue.Ages.{Seen}
use raku_sika_hub.Queue.Confirm.{
  PrintResult, ResultText, sent_text, waiting_text, stalled_text, printed_text, said,
}
use raku_sika_hub.Printer.{
  PrinterError, Prefix, printer_not_configured, printer_permission_denied, printer_disabled,
  printer_paper_error, printer_unavailable, printer_not_found, printer_error,
}
use raku_sika_hub.Printer.Cups.{Command, Outside, M}
use raku_sika_hub.Printer.Reads.{Reads, same, OnlyReads, reading_rules}
use raku_sika_hub.Printer.Jobs.Reads.{OnlyReads-queue_snapshot}
use raku_sika_hub.Printer.Print.{Station, Afterwards, print_label}
use raku_sika_hub.Api.{PrintRequest, one_at_least, Refusal, code, code_of, Event, Handled}
use raku_sika_hub.Api.Http.{
  missing_from, is_nil, can_render_of, validate_and_build_label_data, diagnosis, printed_handled,
  progress_event, validated, handle_printer_print,
}
use raku_sika_hub.Api.Socket.{print_code, omit_empty_id, omit_empty_text, answered, handle_print}

-- An event without the texts that are empty.
abbrev id_left : Option (List ℕ) → Option (List ℕ)
id_left (some (b ∷ bs)) = some (b ∷ bs)
id_left _ = none

abbrev text_left : Option ResultText → Option ResultText
text_left (some (said [])) = none
text_left text = text

abbrev left : Event → Event
left event = record event { job_id = id_left event.job_id; message = text_left event.message }

-- Two outcomes with the same events, but that those of the first have the empty texts too, and with the
-- same code; the first one may have read more.
abbrev pub Alike : Handled × List Command → Handled × List Command → Type 0
Alike a b = (map left a.0.events ≡ b.0.events) × (code a.0.answer ≡ code b.0.answer) × Reads b.1 a.1

-- The two switches on the prefix of an error.
code_of-print_code : (p : Prefix) → code_of p ≡ print_code p
code_of-print_code printer_not_configured = refl
code_of-print_code printer_permission_denied = refl
code_of-print_code printer_disabled = refl
code_of-print_code printer_paper_error = refl
code_of-print_code printer_unavailable = refl
code_of-print_code printer_not_found = refl
code_of-print_code printer_error = refl

id_left-omit_empty_id : (id : List ℕ) → id_left (some id) ≡ omit_empty_id id
id_left-omit_empty_id [] = refl
id_left-omit_empty_id (b ∷ bs) = refl

text_left-omit_empty_text : (text : ResultText) → text_left (some text) ≡ omit_empty_text text
text_left-omit_empty_text sent_text = refl
text_left-omit_empty_text waiting_text = refl
text_left-omit_empty_text stalled_text = refl
text_left-omit_empty_text printed_text = refl
text_left-omit_empty_text (said []) = refl
text_left-omit_empty_text (said (m ∷ ms)) = refl

left-progress_event :
    (label : LabelData) (result : PrintResult)
    → left (progress_event label result) ≡ record (progress_event label result) {
      job_id = omit_empty_id result.job_id;
      message = omit_empty_text result.message;
    }
left-progress_event label result i = record (progress_event label result) {
  job_id = id_left-omit_empty_id result.job_id i;
  message = text_left-omit_empty_text result.message i;
}

abbrev label_of : List ℕ → PrintRequest → LabelData
label_of default_logo req =
    build_label_data req.template (one_at_least req.copies) (normalize_request_data req.fields)
      default_logo

abbrev missing_of : PrintRequest → List String
missing_of req = missing_from (required_fields req.template) (normalize_request_data req.fields)

module _ (outside : Outside) (station : Station) (afterwards : Afterwards) (default_logo : List ℕ)
    (now : ℕ) (seen : List Seen) where
  OnlyReads-diagnosis :
      (result : PrintResult) (d : Option Diagnosis)
      → OnlyReads (diagnosis outside station afterwards default_logo now seen result d)
  OnlyReads-diagnosis result (some d) = λ issued. same
  OnlyReads-diagnosis result none =
      search (reading_rules, OnlyReads-queue_snapshot outside station.name now seen)

  printed_handled-Alike :
      (label : LabelData) (result : Result PrinterError PrintResult) (issued : List Command)
      → Alike
          (printed_handled outside station afterwards default_logo now seen label result issued)
          (
            answered outside station afterwards default_logo label.template label.copies result,
            issued,
          )
  printed_handled-Alike label (err e) issued = (refl, ap some (code_of-print_code e.prefix), same)
  printed_handled-Alike label (ok result) issued = (
    ap (λ event. event ∷ []) (left-progress_event label result),
    refl,
    OnlyReads-diagnosis result result.diagnosis issued,
  )

  Alike-if :
      (b : Bool) (r s : Result (String × Refusal) LabelData) (m n : M Handled)
      (issued : List Command)
      → Alike (validated outside station afterwards default_logo now seen r issued) (m issued)
      → Alike (validated outside station afterwards default_logo now seen s issued) (n issued)
      → Alike
          (validated outside station afterwards default_logo now seen (if b then r else s) issued)
          ((if b then m else n) issued)
  Alike-if true r s m n issued h k = h
  Alike-if false r s m n issued h k = k

  -- A print request has the same outcome at both front ends: the same commands are run, but for readings
  -- of the queue that HTTP adds to tell why a job is still there, the same events go to all clients, but
  -- that those of HTTP have the empty texts that a WebSocket omits, and the same code of an error, or none,
  -- to the one that asks.
  pub handle_printer_print-handle_print :
      (body : Option PrintRequest) (issued : List Command)
      → Alike
          (handle_printer_print outside station afterwards default_logo now seen body issued)
          (handle_print outside station afterwards default_logo body issued)
  unfolding handle_printer_print handle_print validate_and_build_label_data build_label_data
  handle_printer_print-handle_print none issued = (refl, refl, same)
  handle_printer_print-handle_print (some req) issued =
      let printed =
        printed_handled-Alike (label_of default_logo req)
          (print_label outside station afterwards (label_of default_logo req) issued).0
          (print_label outside station afterwards (label_of default_logo req) issued).1 in
      Alike-if (not (mem_text req.template valid_templates)) _ _ _ _ issued (refl, refl, same)
        (Alike-if (ltb max_copies (one_at_least req.copies)) _ _ _ _ issued (refl, refl, same)
          (Alike-if (not (is_nil (missing_of req))) _ _ _ _ issued (refl, refl, same)
            (Alike-if (not (can_render_of station.renderer)) _ _ _ _ issued (refl, refl, same)
              printed)))
