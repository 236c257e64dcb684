-- ===== src/Printer/Print.antt =====
-- internal/printer/brother.go and raw.go: PrintLabel, TestPrint and printRaw as sequences of commands.
-- The drawing of a label is an argument, and so is what the reads of the queue and the backend's result
-- give once a job is submitted. Log lines and the marks of the timing are left out.
pub mod Once
pub mod Testing
use raku_sika_hub.Prelude.{
  ℕ, zero, suc, Bool, true, false, not, ◌&&◌, ◌||◌, Option, none, some, List, [], ◌∷◌, ltb,
  if◌then◌else◌, bytes, max,
}
use raku_sika_hub.Result
use raku_sika_hub.Result.{Result, ok, err}
use raku_sika_hub.Scale.Text.{is_empty}
use raku_sika_hub.Scale.Protocol.{trim_space}
use raku_sika_hub.Strings.{contains}
use raku_sika_hub.Label.{LabelData, build_label_data}
use raku_sika_hub.Raster.{Image}
use raku_sika_hub.Send.World
use raku_sika_hub.Queue.Wait.{Attempt, Waited, wait_for_queue_job}
use raku_sika_hub.Queue.Confirm.{
  PrintError, queue_unreadable, print_canceled, paper_error, PrintResult, done, pending, sent_text,
  verify_submitted_job, confirm_with_printer, raw_confirm_wait, queued,
}
use raku_sika_hub.Queue.Raw.{RawError, raw_data}
use raku_sika_hub.Printer.{
  PrinterStatus, StatusError, PrinterError, Prefix, printer_error, printer_paper_error,
  printer_permission_denied, printer_disabled, status_unknown, no_renderer, render_failed,
  label_missing, label_too_small, lp_said, not_permitted, not_accepting, out_of_paper, raw_refused,
  file_unwritable, confirm_refused, config_error,
}
use raku_sika_hub.Printer.Lpstat.{
  parse_submitted_job_id, parse_option_names, cut_media_end_of_page, CutArg, cut_args_for,
}
use raku_sika_hub.Printer.Cups.{
  option_list, lp_label, lp_raw, lp_text, Outcome, Outside, M, pure, ◌>>=◌, run, read,
}
use raku_sika_hub.Printer.Status.{status_of, validate_status, uses_ql_backend}
use raku_sika_hub.Printer.Jobs.{read_queue_printer_state}

-- A drawn label: its file as image/png decodes it, the size of the file if it can be found, its height.
pub record Drawn : Type 0 where
  pub image : Option Image
  pub size : Option ℕ
  pub height_mm : ℕ

-- What Brother holds, and whether a temporary file can be written. There is no renderer without a font;
-- its first argument is ShrunkToFit.
pub record Station : Type 0 where
  pub name : List ℕ
  pub no_roll_check : Bool
  pub renderer : Option (Bool → LabelData → Option Drawn)
  pub can_write : Bool

-- Once a job is submitted: the reads of the queue from a time on, and what ReadResult gives.
pub record Afterwards : Type 0 where
  pub attempts : List Attempt
  pub now : ℕ
  pub result : Option World.Result

abbrev pub failed_with {ℓ} : {A : Type ℓ} → PrinterError → M (Result PrinterError A)
failed_with e = pure (Result.err e)

unfoldable pub classify_lp_error : List ℕ → PrinterStatus → PrinterError
classify_lp_error output status =
    let out = trim_space output in
    let says = λ (part : List ℕ). contains part out in
    if says (bytes "does not exist") || says (bytes "unknown destination")
    then config_error status
    else if says (bytes "Permission denied") || says (bytes "EACCES")
    then record { prefix = printer_permission_denied; detail = not_permitted }
    else if says (bytes "not accepting") || says (bytes "disabled")
    then record { prefix = printer_disabled; detail = not_accepting }
    else if says (bytes "paper") || says (bytes "media")
    then record { prefix = printer_paper_error; detail = out_of_paper }
    else record { prefix = printer_error; detail = lp_said out }

abbrev pub min_rendered_label_bytes : ℕ
min_rendered_label_bytes = 1024

unfoldable pub verify_rendered_label : Option ℕ → Option PrinterError
verify_rendered_label none = some (record { prefix = printer_error; detail = label_missing })
verify_rendered_label (some size) =
    if ltb size min_rendered_label_bytes
    then some (record { prefix = printer_error; detail = label_too_small size })
    else none

-- The errors of verifySubmittedJob and confirmWithPrinter, with their prefix.
abbrev prefix_of : PrintError → Prefix
prefix_of (paper_error said) = printer_paper_error
prefix_of _ = printer_error

abbrev confirmed : Result PrintError PrintResult → Result PrinterError PrintResult
confirmed (ok result) = Result.ok result
confirmed (err e) = Result.err (record { prefix = prefix_of e; detail = confirm_refused e })

-- A job whose id lp does not tell.
abbrev pub just_sent : PrintResult
just_sent = record {
  state = done;
  job_id = [];
  message = sent_text;
  printer_state = [];
  job_state = some [];
  diagnosis = none;
}

abbrev is_done : Result PrintError PrintResult → Bool
is_done (err e) = false
is_done (ok result) = elim result.state [ done ↦ true | pending ↦ false ]

abbrev confirm_done :
    Option World.Result → Result PrintError PrintResult → Result PrintError PrintResult
confirm_done found (err e) = Result.err e
confirm_done found (ok result) = confirm_with_printer found result

module _ (outside : Outside) (station : Station) (afterwards : Afterwards) where
  -- verifySubmittedJob. The readings of the wait are those of `afterwards`: their lpstat commands, which
  -- only read, are not among the commands that are recorded. The wait always ends, so that its outcome
  -- is never none.
  abbrev waited : List ℕ → List ℕ → Option Waited → M (Result PrintError PrintResult)
  waited name id none = pure (Result.err queue_unreadable)
  waited name id (some w) = do
    let verified = do
      printer_state ← read_queue_printer_state outside station.name name
      pure (verify_submitted_job id false w.jobs printer_state)
    if w.failed then pure (Result.err queue_unreadable) else verified

  unfoldable pub verify_job : List ℕ → List ℕ → ℕ → M (Result PrintError PrintResult)
  unfolding wait_for_queue_job read_queue_printer_state verify_submitted_job
  verify_job name id timeout =
      waited name id (wait_for_queue_job id timeout afterwards.attempts afterwards.now)

  -- printRaw behind a successful lp.
  unfoldable pub raw_submitted : PrinterStatus → ℕ → List ℕ → M (Result PrinterError PrintResult)
  unfolding verify_job raw_confirm_wait confirm_with_printer uses_ql_backend
  raw_submitted status copies id = do
    let uses = uses_ql_backend outside status.device_uri
    let verified = do
      result ← verify_job status.selected_name id (raw_confirm_wait uses copies)
      pure (
          confirmed
            (if is_done result && uses then confirm_done afterwards.result result else result))
    if is_empty id then pure (Result.ok just_sent) else verified

  -- What follows lp, for a raw queue.
  unfoldable pub raw_answer : PrinterStatus → ℕ → Outcome → M (Result PrinterError PrintResult)
  unfolding raw_submitted classify_lp_error parse_submitted_job_id
  raw_answer status copies reply =
      let submitted = raw_submitted status copies (parse_submitted_job_id reply.out) in
      if reply.failed then failed_with (classify_lp_error reply.out status) else submitted

  unfoldable pub submit_raw :
      PrinterStatus → ℕ → Result RawError (List ℕ) → M (Result PrinterError PrintResult)
  unfolding run raw_answer
  submit_raw status copies (err e) =
      failed_with (record { prefix = printer_error; detail = raw_refused e })
  submit_raw status copies (ok label_bytes) =
      let lp = do
        reply ← run outside (lp_raw status.selected_name label_bytes)
        raw_answer status copies reply
      in if station.can_write
        then lp
        else failed_with (record { prefix = printer_error; detail = file_unwritable })

  unfoldable pub print_raw : PrinterStatus → Option Image → ℕ → M (Result PrinterError PrintResult)
  unfolding submit_raw raw_data
  print_raw status image copies =
      submit_raw status copies (raw_data status.model image copies station.no_roll_check)

  unfoldable pub cut_args : List ℕ → M (List CutArg)
  unfolding read parse_option_names cut_args_for
  cut_args name = do
    reply ← read outside (option_list name)
    pure (
        if reply.failed
        then cut_media_end_of_page ∷ []
        else cut_args_for (parse_option_names reply.out))

  -- What follows lp, for a queue with a driver.
  unfoldable pub driver_answer : PrinterStatus → Outcome → M (Result PrinterError PrintResult)
  unfolding verify_job classify_lp_error parse_submitted_job_id
  driver_answer status reply =
      let id = parse_submitted_job_id reply.out in
      let verified = do result ← verify_job status.selected_name id queued; pure (confirmed result)
      in let submitted = if is_empty id then pure (Result.ok just_sent) else verified in
        if reply.failed then failed_with (classify_lp_error reply.out status) else submitted

  -- PrintLabel for a queue with a driver.
  unfoldable pub print_driver : PrinterStatus → ℕ → ℕ → M (Result PrinterError PrintResult)
  unfolding cut_args run driver_answer
  print_driver status height_mm copies = do
    args ← cut_args status.selected_name
    reply ← run outside (lp_label status.selected_name copies (max height_mm 1) args)
    driver_answer status reply

  abbrev print_checked :
      PrinterStatus → Drawn → ℕ → Option PrinterError → M (Result PrinterError PrintResult)
  print_checked status drawn copies (some e) = failed_with e
  print_checked status drawn copies none =
      let raw = print_raw status drawn.image copies in
      let driver = print_driver status drawn.height_mm copies in if status.raw then raw else driver

  abbrev print_drawn : PrinterStatus → ℕ → Option Drawn → M (Result PrinterError PrintResult)
  print_drawn status copies none =
      failed_with (record { prefix = printer_error; detail = render_failed })
  print_drawn status copies (some drawn) =
      print_checked status drawn copies (verify_rendered_label drawn.size)

  abbrev draw_and_print :
      PrinterStatus
      → LabelData
      → Option (Bool → LabelData → Option Drawn)
      → M (Result PrinterError PrintResult)
  draw_and_print status label none =
      failed_with (record { prefix = printer_error; detail = no_renderer })
  draw_and_print status label (some draw) =
      print_drawn status (max label.copies 1) (draw (not status.raw) label)

  abbrev print_valid :
      PrinterStatus → LabelData → Option PrinterError → M (Result PrinterError PrintResult)
  print_valid status label (some e) = failed_with e
  print_valid status label none = draw_and_print status label station.renderer

  abbrev print_with :
      LabelData → Result StatusError PrinterStatus → M (Result PrinterError PrintResult)
  print_with label (err e) =
      failed_with (record { prefix = printer_error; detail = status_unknown })
  print_with label (ok status) = print_valid status label (validate_status status)

  unfoldable pub print_label : LabelData → M (Result PrinterError PrintResult)
  unfolding status_of validate_status print_raw print_driver verify_rendered_label
  print_label label = do status ← status_of outside station.name; print_with label status
