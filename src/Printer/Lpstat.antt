-- ===== src/Printer/Lpstat.antt =====
-- internal/printer/brother.go and raw.go: the parsers of what lp, lpstat and lpoptions print.
use raku_sika_hub.Prelude.{
  ℕ, suc, Bool, false, not, ◌&&◌, ◌||◌, Option, none, some, List, [], ◌∷◌, ◌++◌, ltb, ◌==◌,
  if◌then◌else◌, length, take, drop, bytes, map,
}
use mathlib.Core.List.{reverse}
use raku_sika_hub.Scale.Text.{is_empty, same_bytes}
use raku_sika_hub.Scale.Protocol.{trim_space}
use raku_sika_hub.Strings.{
  starts_with, contains, lower, to_lower, split_lines, fields_of, index_of, join_spaced,
}
use raku_sika_hub.Queue.{QueueJob}
use raku_sika_hub.Printer.Names.{has}

-- strings.Index of a text: what follows its first place in the bytes.
unfoldable pub after : List ℕ → List ℕ → Option (List ℕ)
after part [] = if is_empty part then some [] else none
after part (b ∷ bs) =
    let rest = after part bs in
    if starts_with part (b ∷ bs) then some (drop (length part) (b ∷ bs)) else rest

unfoldable pub is_no_destinations_output : List ℕ → Bool
is_no_destinations_output output =
    let out = trim_space output in
    not (is_empty out)
    && (contains (bytes "No destinations added") out || contains (bytes "宛先が追加されていません") out)

-- The loop of parseAvailablePrinters, with the printers so far.
abbrev printer_line : List (List ℕ) → List (List ℕ) → List (List ℕ)
printer_line (word ∷ name ∷ _) printers =
    if same_bytes word (bytes "printer") && not (has printers name)
    then printers ++ name ∷ []
    else printers
printer_line _ printers = printers

unfoldable pub available_from : List (List ℕ) → List (List ℕ) → List (List ℕ)
available_from printers [] = printers
available_from printers (line ∷ lines) =
    available_from (printer_line (fields_of (trim_space line)) printers) lines

unfoldable pub parse_available_printers : List ℕ → List (List ℕ)
unfolding available_from
parse_available_printers output = available_from [] (split_lines output)

abbrev default_prefix : List ℕ
default_prefix = bytes "system default destination:"

unfoldable pub default_from : List (List ℕ) → List ℕ
default_from [] = []
default_from (line ∷ lines) =
    let l = trim_space line in
    let rest = default_from lines in
    if starts_with default_prefix l then trim_space (drop (length default_prefix) l) else rest

unfoldable pub parse_default_printer : List ℕ → List ℕ
unfolding default_from
parse_default_printer output = default_from (split_lines output)

-- What follows the first colon of a line, if there is one.
unfoldable pub device_uri_from : List (List ℕ) → List ℕ
device_uri_from [] = []
device_uri_from (line ∷ lines) =
    let l = trim_space line in
    let rest = device_uri_from lines in
    elim (index_of b':' l) [ none ↦ rest | some i ↦ trim_space (drop (suc i) l) ]

unfoldable pub parse_printer_device_uri : List ℕ → List ℕ
unfolding device_uri_from
parse_printer_device_uri output = device_uri_from (split_lines output)

-- The cases of parsePrinterState for one trimmed line; none where it goes on to the next one.
unfoldable pub line_state : List ℕ → Option (List ℕ)
line_state l =
    let english = starts_with (bytes "printer ") l in
    let japanese = starts_with (bytes "プリンター ") l in
    if english && contains (bytes " is idle") l
    then some (bytes "idle")
    else if english && contains (bytes " now printing ") l
    then some (bytes "printing")
    else if english && contains (bytes " disabled") l
    then some (bytes "disabled")
    else if japanese && contains (bytes " は待機中") l
    then some (bytes "idle")
    else if japanese && contains (bytes " を印刷しています") l
    then some (bytes "printing")
    else if starts_with (bytes "Status:") l
    then some (trim_space (drop 7 l))
    else none

unfoldable pub state_from : List (List ℕ) → List ℕ
unfolding line_state
state_from [] = []
state_from (line ∷ lines) =
    let rest = state_from lines in
    elim (line_state (trim_space line)) [ none ↦ rest | some state ↦ state ]

unfoldable pub parse_printer_state : List ℕ → List ℕ
unfolding state_from
parse_printer_state output = state_from (split_lines output)

-- The first line that says that the printer cannot be reached.
unfoldable pub unreachable_line : List (List ℕ) → Option (List ℕ)
unreachable_line [] = none
unreachable_line (line ∷ lines) =
    let l = trim_space line in
    let low = to_lower l in
    let rest = unreachable_line lines in
    if contains (bytes "unavailable") low
      || contains (bytes "may not exist") low
      || contains (bytes "not connected") low
    then some l
    else rest

unfoldable pub parse_printer_state_and_backend_error : List ℕ → List ℕ × List ℕ
unfolding parse_printer_state unreachable_line
parse_printer_state_and_backend_error output =
    let state = parse_printer_state output in
    elim (unreachable_line (split_lines output)) [
      | none ↦ (state, [])
      | some line ↦ (if is_empty state then bytes "unavailable" else state, line)
    ]

-- A line of parseQueueJobs, by its fields; the fields of an empty line are none.
abbrev job_line : List (List ℕ) → List QueueJob → List QueueJob
job_line (id ∷ user ∷ size ∷ at ∷ more) rest =
    record {
      id = id;
      user = user;
      size = size;
      submitted_at = join_spaced (at ∷ more);
      state = bytes "queued";
      age_sec = 0;
    }
    ∷ rest
job_line _ rest = rest

unfoldable pub jobs_from : List (List ℕ) → List QueueJob
jobs_from [] = []
jobs_from (line ∷ lines) = job_line (fields_of (trim_space line)) (jobs_from lines)

unfoldable pub parse_queue_jobs : List ℕ → List QueueJob
unfolding jobs_from
parse_queue_jobs output = jobs_from (split_lines (trim_space output))

abbrev completed : QueueJob → QueueJob
completed job = record job { state = bytes "completed" }

unfoldable pub newest_completed_jobs : List ℕ → ℕ → List QueueJob
unfolding parse_queue_jobs
newest_completed_jobs output limit =
    let jobs = reverse (map completed (parse_queue_jobs output)) in
    if ltb 0 limit && ltb limit (length jobs) then take limit jobs else jobs

abbrev first_field : List (List ℕ) → List ℕ
first_field [] = []
first_field (f ∷ _) = trim_space f

unfoldable pub parse_submitted_job_id : List ℕ → List ℕ
unfolding after
parse_submitted_job_id output = elim (after (bytes "request id is ") (trim_space output)) [
  | none ↦ []
  | some rest ↦ first_field (fields_of rest)
]

-- isRawQueue: the value of printer-make-and-model, up to its quote or to a space.
abbrev up_to : ℕ → List ℕ → List ℕ → List ℕ
up_to sep whole bs = elim (index_of sep bs) [ none ↦ whole | some i ↦ take i bs ]

abbrev make_and_model : List ℕ → List ℕ
make_and_model [] = []
make_and_model (b ∷ bs) = if b == 0x27 then up_to 0x27 (b ∷ bs) bs else up_to 0x20 (b ∷ bs) (b ∷ bs)

-- strings.EqualFold with "local raw printer": no letter beyond ASCII folds to one of it.
unfoldable pub is_raw_queue : List ℕ → Bool
unfolding after
is_raw_queue output = elim (after (bytes "printer-make-and-model=") output) [
  | none ↦ false
  | some v ↦ same_bytes (map lower (trim_space (make_and_model v))) (bytes "local raw printer")
]

-- parseOptionNames: what stands before the first slash, if a colon comes after it.
abbrev option_name : List ℕ → List (List ℕ) → List (List ℕ)
option_name l names = elim (index_of b'/' l) [
  | none ↦ names
  | some slash ↦ elim (index_of b':' l) [
    | none ↦ names
    | some colon ↦ if slash == 0 || ltb colon slash then names else take slash l ∷ names
  ]
]

unfoldable pub option_names_from : List (List ℕ) → List (List ℕ)
option_names_from [] = []
option_names_from (line ∷ lines) = option_name (trim_space line) (option_names_from lines)

unfoldable pub parse_option_names : List ℕ → List (List ℕ)
unfolding option_names_from
parse_option_names output = option_names_from (split_lines output)

-- The options of cutArgs that are sent.
pub data CutArg : Type 0 where
  cut_media_end_of_page auto_cut_true cut_label_1 : CutArg

unfoldable pub cut_args_for : List (List ℕ) → List CutArg
unfolding has
cut_args_for names =
    if has names (bytes "CutMedia")
    then cut_media_end_of_page ∷ []
    else if has names (bytes "AutoCut")
    then auto_cut_true ∷ (if has names (bytes "CutLabel") then cut_label_1 ∷ [] else [])
    else []
