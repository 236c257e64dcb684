-- ===== src/Api/Socket.antt =====
-- internal/ws/handler.go: handlePrint, the print request of a WebSocket client.
pub mod Same
pub mod Scales
use raku_sika_hub.Prelude.{
  Bool, true, false, not, Option, none, some, List, [], ◌∷◌, ℕ, ltb, if◌then◌else◌, String,
}
use raku_sika_hub.Result.{Result, ok, err}
use raku_sika_hub.Label.{
  LabelData, normalize_request_data, build_label_data, valid_templates, mem_text, required_fields,
  max_copies,
}
use raku_sika_hub.Queue.Confirm.{PrintResult, ResultText, said}
use raku_sika_hub.Scale.Text.{is_empty}
use raku_sika_hub.Printer.{
  PrinterError, Prefix, printer_not_configured, printer_permission_denied, printer_disabled,
  printer_paper_error, printer_unavailable,
}
use raku_sika_hub.Printer.Cups.{Outside, M, pure, ◌>>=◌}
use raku_sika_hub.Printer.Print.{Station, Afterwards, print_label}
use raku_sika_hub.Api.{
  PrintRequest, one_at_least, Refusal, bad_json, too_many_copies, renderer_missing,
  unknown_template, missing_fields, printer_said, told, failed, refused, printed_as, Handled,
}
use raku_sika_hub.Api.Http.{missing_from, is_nil, can_render_of}

-- The chain of handlePrint on the prefix of an error.
abbrev pub print_code : Prefix → String
print_code printer_not_configured = "PRINTER_NOT_CONFIGURED"
print_code printer_permission_denied = "PRINTER_PERMISSION_DENIED"
print_code printer_disabled = "PRINTER_DISABLED"
print_code printer_paper_error = "PRINTER_PAPER_ERROR"
print_code printer_unavailable = "PRINTER_UNAVAILABLE"
print_code _ = "PRINTER_ERROR"

-- `omitempty` of PrintProgressEvent: what stands for jobId and message. A text of no messages is empty.
abbrev pub omit_empty_id : List ℕ → Option (List ℕ)
omit_empty_id id = if is_empty id then none else some id

abbrev pub omit_empty_text : ResultText → Option ResultText
omit_empty_text (said []) = none
omit_empty_text text = some text

module _ (outside : Outside) (station : Station) (afterwards : Afterwards)
    (default_logo : List ℕ) where
  abbrev pub refuse : String → Refusal → M Handled
  refuse code why = pure (record { answer = refused code why; events = [] })

  -- The answer and the event behind PrintLabel, with the template and the copies of the request.
  abbrev pub answered : String → ℕ → Result PrinterError PrintResult → Handled
  answered template copies (err e) = record {
    answer = refused (print_code e.prefix) (printer_said e);
    events =
        record {
          status = failed;
          template = template;
          copies = copies;
          job_id = none;
          message = none;
          error = some e;
        }
        ∷ [];
  }
  answered template copies (ok result) = record {
    answer = printed_as copies result none;
    events =
        record {
          status = told result.state;
          template = template;
          copies = copies;
          job_id = omit_empty_id result.job_id;
          message = omit_empty_text result.message;
          error = none;
        }
        ∷ [];
  }

  -- handlePrint; none is a message that is no JSON.
  unfoldable pub handle_print : Option PrintRequest → M Handled
  unfolding missing_from normalize_request_data build_label_data required_fields print_label
  handle_print none = refuse "INVALID_REQUEST" bad_json
  handle_print (some req) =
      let copies = one_at_least req.copies in
      let fields = normalize_request_data req.fields in
      let missing = missing_from (required_fields req.template) fields in
      let label = build_label_data req.template copies fields default_logo in
      let printed = do
        result ← print_label outside station afterwards label
        pure (answered req.template copies result)
      in if not (mem_text req.template valid_templates)
        then refuse "INVALID_REQUEST" (unknown_template req.template)
        else if ltb max_copies copies
        then refuse "INVALID_REQUEST" too_many_copies
        else if not (is_nil missing)
        then refuse "INVALID_REQUEST" (missing_fields missing)
        else if not (can_render_of station.renderer)
        then refuse "PRINTER_ERROR" renderer_missing
        else printed
