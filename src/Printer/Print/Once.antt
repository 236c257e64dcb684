-- ===== src/Printer/Print/Once.antt =====
-- internal/printer/brother.go: what PrintLabel submits, and when.
use raku_sika_hub.Prelude.{
  ℕ, ◌≤◌, ◌≡◌, refl, Bool, true, false, not, Option, none, some, List, ◌∷◌, arith, if◌then◌else◌,
  if_cases, max,
}
use raku_sika_hub.Result.{Result, ok, err}
use raku_sika_hub.Label.{LabelData}
use raku_sika_hub.Queue.Wait.{Waited}
use raku_sika_hub.Queue.Confirm.{PrintResult}
use raku_sika_hub.Queue.Raw.{RawError, raw_data}
use raku_sika_hub.Printer.{PrinterStatus, StatusError, PrinterError}
use raku_sika_hub.Printer.Lpstat.{CutArg}
use raku_sika_hub.Printer.Cups.{Command, lp_label, lp_raw, Outcome, Outside, M, ◌>>=◌, run}
use raku_sika_hub.Printer.Status.{status_of, validate_status}
use raku_sika_hub.Printer.Reads.{
  Reads, same, Reads-trans, OnlyReads, reading_rules, OnlyReads-read, OnlyReads-status_of,
}
use raku_sika_hub.Printer.Jobs.{read_queue_printer_state}
use raku_sika_hub.Printer.Print.{
  Drawn, Station, Afterwards, verify_rendered_label, min_rendered_label_bytes, waited, verify_job,
  raw_submitted, raw_answer, driver_answer, submit_raw, print_raw, cut_args, print_driver,
  print_checked, print_drawn, draw_and_print, print_valid, print_with, print_label,
}

-- A job for the queue of the status, of a label that was drawn: its copies in raster for a raw queue,
-- and the file otherwise.
pub data IsJob (station : Station) (status : PrinterStatus) (drawn : Drawn) (copies : ℕ)
    : Command → Type 0 where
  raw_job :
      (bytes : List ℕ)
      → status.raw ≡ true
      → raw_data status.model drawn.image copies station.no_roll_check ≡ Result.ok bytes
      → IsJob station status drawn copies (lp_raw status.selected_name bytes)
  driver_job :
      (args : List CutArg)
      → status.raw ≡ false
      → IsJob station status drawn copies
          (lp_label status.selected_name copies (max drawn.height_mm 1) args)

-- An answer without a job, or behind one job; all other commands only read.
pub data Sends (Job : Command → Type 0) (before : List Command)
    : Result PrinterError PrintResult → List Command → Type 0 where
  refused :
      (e : PrinterError) {issued : List Command}
      → Reads before issued
      → Sends Job before (Result.err e) issued
  submitted :
      (answer : Result PrinterError PrintResult) (job : Command) {at issued : List Command}
      → Job job
      → Reads before at
      → Reads (job ∷ at) issued
      → Sends Job before answer issued

module _ (outside : Outside) (station : Station) (afterwards : Afterwards) where
  OnlyReads-read_queue_printer_state :
      (name : List ℕ) → OnlyReads (read_queue_printer_state outside station.name name)
  unfolding read_queue_printer_state
  OnlyReads-read_queue_printer_state name = search (reading_rules, OnlyReads-read)

  OnlyReads-waited :
      (name id : List ℕ) (w : Option Waited)
      → OnlyReads (waited outside station afterwards name id w)
  OnlyReads-waited name id none = λ issued. same
  OnlyReads-waited name id (some w) = search (reading_rules, OnlyReads-read_queue_printer_state)

  OnlyReads-verify_job :
      (name id : List ℕ) (timeout : ℕ)
      → OnlyReads (verify_job outside station afterwards name id timeout)
  unfolding verify_job
  OnlyReads-verify_job name id timeout = OnlyReads-waited name id _

  OnlyReads-raw_submitted :
      (status : PrinterStatus) (copies : ℕ) (id : List ℕ)
      → OnlyReads (raw_submitted outside station afterwards status copies id)
  unfolding raw_submitted
  OnlyReads-raw_submitted status copies id = search (reading_rules, OnlyReads-verify_job)

  OnlyReads-raw_answer :
      (status : PrinterStatus) (copies : ℕ) (reply : Outcome)
      → OnlyReads (raw_answer outside station afterwards status copies reply)
  unfolding raw_answer
  OnlyReads-raw_answer status copies reply = search (reading_rules, OnlyReads-raw_submitted)

  OnlyReads-driver_answer :
      (status : PrinterStatus) (reply : Outcome)
      → OnlyReads (driver_answer outside station afterwards status reply)
  unfolding driver_answer
  OnlyReads-driver_answer status reply = search (reading_rules, OnlyReads-verify_job)

  OnlyReads-cut_args : (name : List ℕ) → OnlyReads (cut_args outside station afterwards name)
  unfolding cut_args
  OnlyReads-cut_args name = search (reading_rules, OnlyReads-read)

  module _ (before : List Command) (Job : Command → Type 0) where
    -- A computation, started after commands that only read, sends at most that job.
    abbrev pub SendsFrom : M (Result PrinterError PrintResult) → Type 0
    SendsFrom m = (at : List Command) → Reads before at → Sends Job before (m at).0 (m at).1

    pub SendsFrom-run :
        (job : Command) (f : Outcome → M (Result PrinterError PrintResult))
        → Job job
        → ((reply : Outcome) → OnlyReads (f reply))
        → SendsFrom (run outside job >>= f)
    SendsFrom-run job f j only at r =
        unfold run in submitted _ job j r (only (outside.answer at job) (job ∷ at))

    SendsFrom-bind {ℓ} :
        {A : Type ℓ} (m : M A) (f : A → M (Result PrinterError PrintResult))
        → OnlyReads m
        → ((a : A) → SendsFrom (f a))
        → SendsFrom (m >>= f)
    SendsFrom-bind m f only sends at r = sends (m at).0 (m at).1 (Reads-trans r (only at))

    SendsFrom-if :
        (b : Bool) (m n : M (Result PrinterError PrintResult))
        → SendsFrom m
        → SendsFrom n
        → SendsFrom (if b then m else n)
    SendsFrom-if true m n h k = h
    SendsFrom-if false m n h k = k

    pub submit_raw-SendsFrom :
        (status : PrinterStatus) (copies : ℕ) (encoded : Result RawError (List ℕ))
        → ((bytes : List ℕ) → encoded ≡ Result.ok bytes → Job (lp_raw status.selected_name bytes))
        → SendsFrom (submit_raw outside station afterwards status copies encoded)
    unfolding submit_raw
    submit_raw-SendsFrom status copies (err e) job = λ at r. refused _ r
    submit_raw-SendsFrom status copies (ok bytes) job =
        SendsFrom-if station.can_write _ _
          (SendsFrom-run _ (raw_answer outside station afterwards status copies) (job bytes refl)
            (OnlyReads-raw_answer status copies))
          (λ at r. refused _ r)

    print_driver-SendsFrom :
        (status : PrinterStatus) (height_mm copies : ℕ)
        → ((args : List CutArg) → Job (lp_label status.selected_name copies (max height_mm 1) args))
        → SendsFrom (print_driver outside station afterwards status height_mm copies)
    unfolding print_driver
    print_driver-SendsFrom status height_mm copies job =
        SendsFrom-bind _ _ (OnlyReads-cut_args status.selected_name) (λ args.
          SendsFrom-run _ (driver_answer outside station afterwards status) (job args)
            (OnlyReads-driver_answer status))

    print_checked-SendsFrom :
        (status : PrinterStatus) (drawn : Drawn) (copies : ℕ) (checked : Option PrinterError)
        → (checked ≡ none → (c : Command) → IsJob station status drawn copies c → Job c)
        → SendsFrom (print_checked outside station afterwards status drawn copies checked)
    print_checked-SendsFrom status drawn copies (some e) job = λ at r. refused e r
    print_checked-SendsFrom status drawn copies none job =
        if_cases SendsFrom status.raw
          (λ raw.
            unfold print_raw in
            submit_raw-SendsFrom status copies _ (λ bytes e. job refl _ (raw_job bytes raw e)))
          (λ driver.
            print_driver-SendsFrom status drawn.height_mm copies
              (λ args. job refl _ (driver_job args driver)))

    print_drawn-SendsFrom :
        (status : PrinterStatus) (copies : ℕ) (found : Option Drawn)
        → ((drawn : Drawn)
            → found ≡ some drawn
            → verify_rendered_label drawn.size ≡ none
            → (c : Command) → IsJob station status drawn copies c
            → Job c)
        → SendsFrom (print_drawn outside station afterwards status copies found)
    print_drawn-SendsFrom status copies none job = λ at r. refused _ r
    print_drawn-SendsFrom status copies (some drawn) job =
        print_checked-SendsFrom status drawn copies _ (job drawn refl)

    draw_and_print-SendsFrom :
        (status : PrinterStatus) (label : LabelData)
        (renderer : Option (Bool → LabelData → Option Drawn))
        → ((draw : Bool → LabelData → Option Drawn) (drawn : Drawn)
            → renderer ≡ some draw
            → draw (not status.raw) label ≡ some drawn
            → verify_rendered_label drawn.size ≡ none
            → (c : Command) → IsJob station status drawn (max label.copies 1) c
            → Job c)
        → SendsFrom (draw_and_print outside station afterwards status label renderer)
    draw_and_print-SendsFrom status label none job = λ at r. refused _ r
    draw_and_print-SendsFrom status label (some draw) job =
        print_drawn-SendsFrom status (max label.copies 1) _ (λ drawn. job draw drawn refl)

-- A label that the renderer draws.
abbrev pub IsDrawing : Station → Bool → LabelData → Drawn → Type 0
IsDrawing station shrunk label drawn =
    (draw : Bool → LabelData → Option Drawn) × (station.renderer ≡ some draw)
    × (draw shrunk label ≡ some drawn)

verify_rendered_label-none :
    (size : Option ℕ)
    → verify_rendered_label size ≡ none
    → (n : ℕ) × (size ≡ some n) × (min_rendered_label_bytes ≤ n)
unfolding verify_rendered_label
verify_rendered_label-none none h = absurd (cc)
verify_rendered_label-none (some n) h = (n, refl, ground (arith, h))

module _ (outside : Outside) (station : Station) (label : LabelData) (before : List Command) where
  -- A job that PrintLabel may submit: the status that it read has a valid queue, and the label was drawn
  -- into a file of 1024 bytes at least.
  pub record MaySend (job : Command) : Type 0 where
    pub status : PrinterStatus
    pub drawn : Drawn
    pub size : ℕ
    pub is_known : (status_of outside station.name before).0 ≡ Result.ok status
    pub is_valid : validate_status status ≡ none
    pub is_drawing : IsDrawing station (not status.raw) label drawn
    pub has_size : drawn.size ≡ some size
    pub is_whole : min_rendered_label_bytes ≤ size
    pub is_job : IsJob station status drawn (max label.copies 1) job

  module _ (afterwards : Afterwards) where
    print_valid-SendsFrom :
        (status : PrinterStatus) (checked : Option PrinterError)
        → (status_of outside station.name before).0 ≡ Result.ok status
        → validate_status status ≡ checked
        → SendsFrom outside station afterwards before MaySend
            (print_valid outside station afterwards status label checked)
    print_valid-SendsFrom status (some e) known valid = λ at r. refused e r
    print_valid-SendsFrom status none known valid =
        draw_and_print-SendsFrom outside station afterwards before MaySend status label
          station.renderer
          (λ draw drawn has_draw drawing whole c job.
            let (n, has, big) = verify_rendered_label-none drawn.size whole in
            record {
              status = status;
              drawn = drawn;
              size = n;
              is_known = known;
              is_valid = valid;
              is_drawing = (draw, has_draw, drawing);
              has_size = has;
              is_whole = big;
              is_job = job;
            })

    print_with-SendsFrom :
        (found : Result StatusError PrinterStatus)
        → (status_of outside station.name before).0 ≡ found
        → SendsFrom outside station afterwards before MaySend
            (print_with outside station afterwards label found)
    print_with-SendsFrom (err e) known = λ at r. refused _ r
    print_with-SendsFrom (ok status) known = print_valid-SendsFrom status _ known refl

    -- PrintLabel runs commands that only read, and submits one job at most: without one it ends with an
    -- error. The job goes to the queue of a status that validateStatus lets pass, and it is the label as
    -- it was drawn, from a file of 1024 bytes at least: as many copies as the label asks for, one at
    -- least, and for a raw queue the raster of these copies.
    pub print_label-Sends :
        Sends MaySend before
          (print_label outside station afterwards label before).0
          (print_label outside station afterwards label before).1
    unfolding print_label
    print_label-Sends =
        print_with-SendsFrom _ refl (status_of outside station.name before).1
          (OnlyReads-status_of outside station.name before)
