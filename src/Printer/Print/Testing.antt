-- ===== src/Printer/Print/Testing.antt =====
-- internal/printer/brother.go and raw.go: TestPrint and testPrintRaw.
use raku_sika_hub.Prelude.{
  ℕ, ◌≡◌, refl, Bool, true, false, Option, none, some, List, [], ◌∷◌, bytes, if◌then◌else◌,
  if_cases,
}
use raku_sika_hub.Result.{Result, ok, err}
use raku_sika_hub.Label.{LabelData, Fields, build_label_data}
use raku_sika_hub.Queue.Confirm.{PrintResult}
use raku_sika_hub.Printer.{
  PrinterStatus, StatusError, PrinterError, printer_error, status_unknown, no_renderer,
  render_failed,
}
use raku_sika_hub.Printer.Cups.{Command, lp_text, lp_raw, Outcome, Outside, M, pure, ◌>>=◌, run}
use raku_sika_hub.Printer.Reads.{same}
use raku_sika_hub.Printer.Status.{status_of, validate_status}
use raku_sika_hub.Printer.Print.{
  Drawn, Station, Afterwards, failed_with, classify_lp_error, just_sent, print_raw,
}
use raku_sika_hub.Queue.Raw.{raw_data}
use raku_sika_hub.Printer.Reads.{OnlyReads-status_of}
use raku_sika_hub.Printer.Print.Once.{Sends, SendsFrom, SendsFrom-run, submit_raw-SendsFrom}

-- The fields of the test label, with the time that it bears.
abbrev test_fields : List ℕ → Fields
test_fields now =
    ("productName", bytes "テスト印刷")
    ∷ ("productQuantity", bytes "-")
    ∷ ("deadlineDate", now)
    ∷ ("storageTemperature", bytes "RakuSika Hub")
    ∷ []

module _ (outside : Outside) (station : Station) (afterwards : Afterwards) (now : List ℕ) where
  abbrev test_drawn : PrinterStatus → Option Drawn → M (Result PrinterError PrintResult)
  test_drawn status none = failed_with (record { prefix = printer_error; detail = render_failed })
  test_drawn status (some drawn) = print_raw outside station afterwards status drawn.image 1

  abbrev test_rendered :
      PrinterStatus → Option (Bool → LabelData → Option Drawn) → M (Result PrinterError PrintResult)
  test_rendered status none = failed_with (record { prefix = printer_error; detail = no_renderer })
  test_rendered status (some draw) =
      test_drawn status (draw false (build_label_data "pet" 1 (test_fields now) []))

  unfoldable pub test_print_raw : PrinterStatus → M (Result PrinterError PrintResult)
  unfolding print_raw build_label_data
  test_print_raw status = test_rendered status station.renderer

  abbrev text_answer : PrinterStatus → Outcome → M (Result PrinterError PrintResult)
  text_answer status reply = pure (
      if reply.failed then Result.err (classify_lp_error reply.out status) else Result.ok just_sent)

  abbrev test_valid : PrinterStatus → Option PrinterError → M (Result PrinterError PrintResult)
  test_valid status (some e) = failed_with e
  test_valid status none =
      let text = do reply ← run outside (lp_text status.selected_name); text_answer status reply
      in if status.raw then test_print_raw status else text

  abbrev test_with : Result StatusError PrinterStatus → M (Result PrinterError PrintResult)
  test_with (err e) = failed_with (record { prefix = printer_error; detail = status_unknown })
  test_with (ok status) = test_valid status (validate_status status)

  -- TestPrint; a result without an error stands for the nil that it returns.
  unfoldable pub test_print : M (Result PrinterError PrintResult)
  unfolding status_of validate_status run test_print_raw classify_lp_error
  test_print = do status ← status_of outside station.name; test_with status

-- A job of a test print: text for a queue with a driver; for a raw queue one copy of what the station's
-- renderer draws, not shrunk to fit, of the pet label with the fields of the test.
pub data IsTest (station : Station) (now : List ℕ) (status : PrinterStatus) : Command → Type 0 where
  text_job : status.raw ≡ false → IsTest station now status (lp_text status.selected_name)
  label_job :
      (draw : Bool → LabelData → Option Drawn) (drawn : Drawn) (data_ : List ℕ)
      → status.raw ≡ true
      → station.renderer ≡ some draw
      → draw false (build_label_data "pet" 1 (test_fields now) []) ≡ some drawn
      → raw_data status.model drawn.image 1 station.no_roll_check ≡ Result.ok data_
      → IsTest station now status (lp_raw status.selected_name data_)

module _ (outside : Outside) (station : Station) (now : List ℕ) (before : List Command) where
  -- The queue is one that validateStatus lets pass.
  pub record MayTest (job : Command) : Type 0 where
    pub status : PrinterStatus
    pub is_known : (status_of outside station.name before).0 ≡ Result.ok status
    pub is_valid : validate_status status ≡ none
    pub is_test : IsTest station now status job

  module _ (afterwards : Afterwards) where
    abbrev Sending : M (Result PrinterError PrintResult) → Type 0
    Sending m = SendsFrom outside station afterwards before MayTest m

    test_drawn-Sending :
        (status : PrinterStatus) (draw : Bool → LabelData → Option Drawn) (found : Option Drawn)
        → ((job : Command) → IsTest station now status job → MayTest job)
        → status.raw ≡ true
        → station.renderer ≡ some draw
        → draw false (build_label_data "pet" 1 (test_fields now) []) ≡ found
        → Sending (test_drawn outside station afterwards now status found)
    test_drawn-Sending status draw none may raw k d = λ at r. Sends.refused _ r
    test_drawn-Sending status draw (some drawn) may raw k d =
        unfold print_raw in
        submit_raw-SendsFrom outside station afterwards before MayTest status 1 _
          (λ sent e. may _ (label_job draw drawn sent raw k d e))

    test_rendered-Sending :
        (status : PrinterStatus) (renderer : Option (Bool → LabelData → Option Drawn))
        → ((job : Command) → IsTest station now status job → MayTest job)
        → status.raw ≡ true
        → station.renderer ≡ renderer
        → Sending (test_rendered outside station afterwards now status renderer)
    test_rendered-Sending status none may raw k = λ at r. Sends.refused _ r
    test_rendered-Sending status (some draw) may raw k =
        test_drawn-Sending status draw _ may raw k refl

    test_valid-Sending :
        (status : PrinterStatus) (checked : Option PrinterError)
        → (status_of outside station.name before).0 ≡ Result.ok status
        → validate_status status ≡ checked
        → Sending (test_valid outside station afterwards now status checked)
    unfolding test_print_raw
    test_valid-Sending status (some e) known valid = λ at r. Sends.refused _ r
    test_valid-Sending status none known valid =
        let may : (job : Command) → IsTest station now status job → MayTest job =
          λ job t. record { status = status; is_known = known; is_valid = valid; is_test = t } in
        if_cases Sending status.raw
          (λ raw. test_rendered-Sending status station.renderer may raw refl)
          (λ text.
            SendsFrom-run outside station afterwards before MayTest _
              (text_answer outside station afterwards now status) (may _ (text_job text))
              (λ reply issued. same))

    test_with-Sending :
        (found : Result StatusError PrinterStatus)
        → (status_of outside station.name before).0 ≡ found
        → Sending (test_with outside station afterwards now found)
    test_with-Sending (err e) known = λ at r. Sends.refused _ r
    test_with-Sending (ok status) known = test_valid-Sending status _ known refl

    -- TestPrint runs commands that only read, and submits one job at most, to a queue that
    -- validateStatus lets pass: a text for a queue with a driver; for a raw queue the raster of one copy of
    -- what the station's renderer draws of the pet label with the fields of the test. Without a job it
    -- ends with an error.
    pub test_print-Sends :
        Sends MayTest before
          (test_print outside station afterwards now before).0
          (test_print outside station afterwards now before).1
    unfolding test_print
    test_print-Sends =
        test_with-Sending _ refl (status_of outside station.name before).1
          (OnlyReads-status_of outside station.name before)
