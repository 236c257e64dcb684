-- ===== src/Queue/Raw.antt =====
-- internal/printer/raw.go: printRaw, up to the data that it hands to CUPS.
use raku_sika_hub.Prelude.{
  ℕ, zero, suc, ◌≤◌, ◌≡◌, sym, ap, ◌∙◌, Bool, true, not, ◌||◌, Option, none, some, List, [], ◌∷◌,
  arith, All, if_cases, if◌then◌else◌, replicate, length-replicate,
}
use raku_sika_hub.Result.{Result, ok, err}
use raku_sika_hub.Job.Parse.{Job, Fault, parse_job}
use raku_sika_hub.Raster.{Image, Options, Roll, EncodeError, continuous62, encode_pages}
use raku_sika_hub.Raster.Stream.{Fits}
use raku_sika_hub.Raster.Accepted.{parse_job-encode_pages}
use raku_sika_hub.Scale.Text.{same_bytes}
use raku_sika_hub.Send.World.{World}
use raku_sika_hub.Send.Verdict.{completions}
use raku_sika_hub.Backend.{run_data}
use raku_sika_hub.Queue.Confirm.{PrintResult, done, confirm_with_printer}
use raku_sika_hub.Queue.Told.{told-done}

pub data RawError : Type 0 where
  unsupported_model image_unreadable : RawError
  raster_failed : EncodeError → RawError

abbrev pub ql_800 : List ℕ
ql_800 = b'Q' ∷ b'L' ∷ b'-' ∷ b'8' ∷ b'0' ∷ b'0' ∷ []

abbrev pub ql_820nwb : List ℕ
ql_820nwb = b'Q' ∷ b'L' ∷ b'-' ∷ b'8' ∷ b'2' ∷ b'0' ∷ b'N' ∷ b'W' ∷ b'B' ∷ []

unfoldable pub raw_supported_model : List ℕ → Bool
raw_supported_model model = same_bytes model ql_800 || same_bytes model ql_820nwb

-- The options of printRaw; the argument is noRollCheck.
abbrev pub raw_options : Bool → Options
raw_options no_roll_check = record { cut = true; no_media_check = no_roll_check }

abbrev from_encoder : Result EncodeError (List ℕ) → Result RawError (List ℕ)
from_encoder (err e) = err (raster_failed e)
from_encoder (ok bytes) = ok bytes

abbrev encoded : Option Image → ℕ → Bool → Result RawError (List ℕ)
encoded none copies no_roll_check = err image_unreadable
encoded (some img) copies no_roll_check =
    from_encoder (encode_pages (replicate copies img) continuous62 (raw_options no_roll_check))

-- The image is none if it cannot be decoded.
unfoldable pub raw_data : List ℕ → Option Image → ℕ → Bool → Result RawError (List ℕ)
unfolding raw_supported_model
raw_data model img copies no_roll_check =
    if not (raw_supported_model model)
    then err unsupported_model
    else encoded img copies no_roll_check

replicate-Fits : (m : Roll) (img : Image) (n : ℕ) → Fits m img → All (Fits m) (replicate n img)
replicate-Fits m img zero f = tt
replicate-Fits m img (suc n) f = (f, replicate-Fits m img n f)

some-injective : (a b : List ℕ) → some a ≡ some b → a ≡ b
some-injective a b h = cc

ok-injective : (a b : Job) → ◌≡◌ {A = Result Fault Job} (ok a) (ok b) → a ≡ b
ok-injective a b h = cc

raw_data-encode_pages :
    (model : List ℕ) (img : Image) (copies : ℕ) (no_roll_check : Bool) (sent bytes : List ℕ)
    → encode_pages (replicate copies img) continuous62 (raw_options no_roll_check) ≡ ok sent
    → raw_data model (some img) copies no_roll_check ≡ ok bytes
    → sent ≡ bytes
unfolding raw_data
raw_data-encode_pages model img copies no_roll_check sent bytes e =
    if_cases (λ (r : Result RawError (List ℕ)). r ≡ ok bytes → sent ≡ bytes)
      (not (raw_supported_model model)) (λ _ h. absurd (cc))
      (λ _ h. let known = ap from_encoder (sym e) ∙ h in cc)

-- A printer of a supported model is handed a job that the backend reads as one of as many pages as
-- there are copies of the label, if the label fits the roll.
raw_data-read :
    (model : List ℕ) (img : Image) (more : ℕ) (no_roll_check : Bool) (bytes : List ℕ)
    → Fits continuous62 img
    → raw_data model (some img) (suc more) no_roll_check ≡ ok bytes
    → (job : Job) × (parse_job bytes ≡ ok job) × (job.pages ≡ suc more)
unfolding raw_data
raw_data-read model img more no_roll_check bytes f h =
    let (sent, e, p) =
      parse_job-encode_pages img (replicate more img) continuous62 (raw_options no_roll_check)
        (omega arith) (f, replicate-Fits continuous62 img more f) in
    let same = raw_data-encode_pages model img (suc more) no_roll_check sent bytes e h in
    (_, ap parse_job (sym same) ∙ p, ap suc (length-replicate {A = Image} more img))

-- From the image to the tablet: if the hub encodes copies of a label that fits the roll, the backend is
-- run once on that data, and the hub, given the result, ends the request without an error as done, then
-- the printer reported at least as many labels as there are copies.
pub raw_data-done :
    (model : List ℕ) (img : Image) (more : ℕ) (no_roll_check opened : Bool) (bytes : List ℕ)
    (w : World) (before after : PrintResult)
    → Fits continuous62 img
    → raw_data model (some img) (suc more) no_roll_check ≡ ok bytes
    → confirm_with_printer (some (run_data 1 (some bytes) opened w).0) before ≡ ok after
    → after.state ≡ done
    → suc more ≤ completions w.arrivals
raw_data-done model img more no_roll_check opened bytes w before after f h told d =
    let (job, p, n) = raw_data-read model img more no_roll_check bytes f h in
    let (read, job', same, p', reported) = told-done 1 (some bytes) opened w before after told d in
    let one : job' ≡ job =
      ok-injective job' job (sym p' ∙ ap parse_job (sym (some-injective bytes read same)) ∙ p) in
    omega (arith, reported, ap (λ (j : Job). j.pages) one, n)
