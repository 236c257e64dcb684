-- ===== src/Tests/Stations.antt =====
-- internal/printer, internal/httpapi and internal/ws: a station with one raw queue, on small inputs.
use raku_sika_hub.Prelude.{ℕ, ◌<◌, ◌≡◌, refl, Bool, true, false, none, List, [], ◌∷◌, bytes, arith}
use raku_sika_hub.Result.{Result}
use raku_sika_hub.Scale.Text.{space_width, trim_left, trim_right, same_bytes}
use raku_sika_hub.Scale.Protocol.{trim_space}
use raku_sika_hub.Strings.{to_lower, split_lines, fields_of, index_of}
use raku_sika_hub.Printer.{PrinterStatus, from_config}
use raku_sika_hub.Printer.Names.{
  has, score_brother_ql, resolve_printer, parse_configured_printer_names, printer_model,
}
use raku_sika_hub.Printer.Lpstat.{
  parse_available_printers, parse_printer_device_uri, parse_printer_state_and_backend_error,
  is_raw_queue,
}
use raku_sika_hub.Printer.Names.Choice.{IsLabelPrinter, resolve_printer-IsLabelPrinter}
use raku_sika_hub.Printer.Cups.{
  Reading, printer_info, device_of, long_state, options_of, pending_jobs, completed_jobs, Command,
  reading, cancel_id, lp_raw, Outcome, Url, Outside,
}
use raku_sika_hub.Printer.Status.{status_of, ready, validate_status}
use raku_sika_hub.Printer.Status.Agree.{Speaks, is_none, validate_status-ready}
use raku_sika_hub.Printer.Jobs.{cancel_job}
use raku_sika_hub.Printer.Jobs.Safe.{Acts, IsPending, cancel_job-Acts}

abbrev no_wide : List ℕ → Bool
no_wide char = false

abbrev pub queue_name : List ℕ
queue_name = bytes "QL-800"

has_queue : has (bytes "Laser" ∷ queue_name ∷ []) queue_name ≡ true
unfolding has same_bytes
has_queue = refl

good_score : 0 < score_brother_ql no_wide queue_name
unfolding score_brother_ql to_lower
good_score = omega arith

resolve_printer-IsLabelPrinter_example :
    IsLabelPrinter no_wide
      (bytes "Old" ∷ [])
      (bytes "Laser" ∷ queue_name ∷ [])
      (resolve_printer no_wide
        (bytes "Old" ∷ [])
        (bytes "Laser" ∷ queue_name ∷ [])
        (bytes "Laser")).0
resolve_printer-IsLabelPrinter_example =
    resolve_printer-IsLabelPrinter no_wide (bytes "Old" ∷ []) (bytes "Laser" ∷ queue_name ∷ [])
      (bytes "Laser") queue_name has_queue good_score

-- CUPS has the queue, with two jobs that wait and one that is finished.
abbrev answer_reading : Reading → List ℕ
answer_reading (printer_info name) = bytes "printer QL-800 is idle."
answer_reading (device_of name) = bytes "device for QL-800: usb://Brother/QL-800"
answer_reading (long_state name) = bytes "printer QL-800 is idle."
answer_reading (options_of name) = bytes "printer-make-and-model='Local Raw Printer'"
answer_reading (pending_jobs name) = bytes "QL-800-7 pi 1024 Mon\nQL-800-8 pi 1024 Mon"
answer_reading (completed_jobs name) = bytes "QL-800-6 pi 1024 Mon"
answer_reading _ = []

abbrev said : List ℕ → Outcome
said out = record { out = out; failed = false; reason = [] }

abbrev answer_of : List Command → Command → Outcome
answer_of issued (reading what) = said (answer_reading what)
answer_of issued (lp_raw name label) = said (bytes "request id is QL-800-9 (1 file(s))")
answer_of issued _ = said []

abbrev usb_url : Url
usb_url = record { scheme = bytes "usb"; host = bytes "Brother"; port = [] }

abbrev pub small_cups : Outside
small_cups = record {
  answer = answer_of;
  parse_url = λ uri. Result.ok usb_url;
  dial = λ host port. none;
  has_wrapper = true;
  no_device = λ uri. none;
  is_wide = no_wide;
}

small_cups-Speaks : Speaks small_cups
small_cups-Speaks = record {
  parse_url_speaks = λ uri text h. absurd (cc);
  dial_speaks = λ host port text h. absurd (cc);
  no_device_speaks = λ uri text h. absurd (cc);
}

abbrev small_status : PrinterStatus
small_status = record {
  configured_name = queue_name;
  selected_name = queue_name;
  default_name = [];
  available = queue_name ∷ [];
  source = from_config;
  model = bytes "QL-800";
  device_uri = bytes "usb://Brother/QL-800";
  cups_state = bytes "idle";
  backend_ready = true;
  backend_error = [];
  raw = true;
}

small_cups-status : (status_of small_cups queue_name []).0 ≡ Result.ok small_status
unfolding status_of parse_configured_printer_names to_lower split_lines fields_of index_of
    same_bytes trim_left trim_right space_width parse_available_printers printer_model
    parse_printer_device_uri parse_printer_state_and_backend_error is_raw_queue
small_cups-status = refl

validate_status-ready_example : ready small_status ≡ is_none (validate_status small_status)
validate_status-ready_example =
    validate_status-ready small_cups small_cups-Speaks queue_name [] small_status small_cups-status

cancel_job-Acts_example :
    Acts
      (IsPending small_cups queue_name 5000 [] [] (trim_space (bytes " QL-800-7")))
      (cancel_id (trim_space (bytes " QL-800-7")))
      []
      (cancel_job small_cups queue_name 5000 [] (bytes " QL-800-7") []).0.0
      (cancel_job small_cups queue_name 5000 [] (bytes " QL-800-7") []).1
cancel_job-Acts_example = cancel_job-Acts small_cups queue_name 5000 [] [] (bytes " QL-800-7")
