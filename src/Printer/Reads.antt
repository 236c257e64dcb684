-- ===== src/Printer/Reads.antt =====
-- internal/printer/brother.go: Status runs commands that only read.
use raku_sika_hub.Prelude.{ℕ, Bool, true, false, List, [], ◌∷◌, if◌then◌else◌}
use raku_sika_hub.Result.{Result, ok, err}
use raku_sika_hub.Printer.Cups.{Reading, Command, reading, Outside, M, ◌>>=◌, read, pure}
use raku_sika_hub.Printer.{PrinterStatus, StatusError}
use raku_sika_hub.Printer.Status.{
  first_existing_printer, status_from_all_destinations, read_queue_is_raw, fill_selected,
  fill_status, fill_ok, status_of,
}

-- Commands that only read, run after those before.
pub data Reads (before : List Command) : List Command → Type 0 where
  same : Reads before before
  more :
      (what : Reading) (issued : List Command)
      → Reads before issued
      → Reads before (reading what ∷ issued)

pub Reads-trans : {a b c : List Command} → Reads a b → Reads b c → Reads a c
Reads-trans r same = r
Reads-trans r (more what issued s) = more what issued (Reads-trans r s)

-- A computation that only reads.
abbrev pub OnlyReads {ℓ} : {A : Type ℓ} → M A → Type 0
OnlyReads m = (issued : List Command) → Reads issued (m issued).1

pub OnlyReads-pure {ℓ} : {A : Type ℓ} (a : A) → OnlyReads (pure a)
OnlyReads-pure a issued = same

pub OnlyReads-bind {ℓ κ} :
    {A : Type ℓ} {B : Type κ} (m : M A) (f : A → M B)
    → OnlyReads m
    → ((a : A) → OnlyReads (f a))
    → OnlyReads (m >>= f)
OnlyReads-bind m f h k issued = Reads-trans (h issued) (k (m issued).0 (m issued).1)

pub OnlyReads-if {ℓ} :
    {A : Type ℓ} (b : Bool) (m n : M A) → OnlyReads m → OnlyReads n → OnlyReads (if b then m else n)
OnlyReads-if true m n h k = h
OnlyReads-if false m n h k = k

pub ruleset reading_rules = (OnlyReads-pure, OnlyReads-bind, OnlyReads-if)

module _ (outside : Outside) where
  pub OnlyReads-read : (what : Reading) → OnlyReads (read outside what)
  unfolding read
  OnlyReads-read what issued = more what issued same

  OnlyReads-first_existing_printer :
      (names : List (List ℕ)) → OnlyReads (first_existing_printer outside names)
  unfolding first_existing_printer
  OnlyReads-first_existing_printer [] = λ issued. same
  OnlyReads-first_existing_printer (name ∷ names) =
      search (reading_rules, OnlyReads-read, OnlyReads-first_existing_printer names)

  OnlyReads-status_from_all_destinations :
      (configured_name : List ℕ) (configured : List (List ℕ))
      → OnlyReads (status_from_all_destinations outside configured_name configured)
  unfolding status_from_all_destinations
  OnlyReads-status_from_all_destinations configured_name configured =
      search (reading_rules, OnlyReads-read)

  OnlyReads-read_queue_is_raw : (name : List ℕ) → OnlyReads (read_queue_is_raw outside name)
  unfolding read_queue_is_raw
  OnlyReads-read_queue_is_raw name = search (reading_rules, OnlyReads-read)

  OnlyReads-fill_selected :
      (status : PrinterStatus) (name : List ℕ) → OnlyReads (fill_selected outside status name)
  unfolding fill_selected
  OnlyReads-fill_selected status name =
      search (reading_rules, OnlyReads-read, OnlyReads-read_queue_is_raw)

  OnlyReads-fill_status : (status : PrinterStatus) → OnlyReads (fill_status outside status)
  unfolding fill_status
  OnlyReads-fill_status status = search (reading_rules, OnlyReads-fill_selected)

  OnlyReads-fill_ok : (found : Result StatusError PrinterStatus) → OnlyReads (fill_ok outside found)
  OnlyReads-fill_ok (err e) = λ issued. same
  OnlyReads-fill_ok (ok status) = search (reading_rules, OnlyReads-fill_status)

  pub OnlyReads-status_of :
      (configured_name : List ℕ) → OnlyReads (status_of outside configured_name)
  unfolding status_of
  OnlyReads-status_of configured_name = search (
    reading_rules, OnlyReads-fill_ok, OnlyReads-first_existing_printer,
    OnlyReads-status_from_all_destinations,
  )
