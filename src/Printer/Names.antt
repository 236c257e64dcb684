-- ===== src/Printer/Names.antt =====
-- internal/printer/detect.go, and from brother.go parseConfiguredPrinterNames, resolvePrinter,
-- selectConfiguredPrinter, contains and normalizeAlnum: the choice of the queue.
pub mod Choice
use raku_sika_hub.Prelude.{
  ℕ, zero, suc, Bool, true, false, not, ◌&&◌, ◌||◌, List, [], ◌∷◌, ◌++◌, leb, ltb, ◌==◌,
  if◌then◌else◌, length, take, drop, bytes,
}
use raku_sika_hub.Scale.Text.{is_empty, same_bytes}
use raku_sika_hub.Scale.Protocol.{trim_space}
use raku_sika_hub.Strings.{contains, to_lower}
use raku_sika_hub.Printer.{
  Source, from_config, cups_default, auto_detected, first_available, unresolved,
}

-- contains.
unfoldable pub has : List (List ℕ) → List ℕ → Bool
has [] target = false
has (item ∷ items) target = same_bytes item target || has items target

-- The bytes of the first character, in valid UTF-8.
abbrev char_width : ℕ → ℕ
char_width b = if ltb b 0xC0 then 1 else if ltb b 0xE0 then 2 else if ltb b 0xF0 then 3 else 4

-- A letter or a digit of ASCII, in lower case.
abbrev is_alnum : ℕ → Bool
is_alnum b = (leb 0x61 b && leb b 0x7A) || (leb 0x30 b && leb b 0x39)

-- parseConfiguredPrinterNames: the parts between commas and semicolons, trimmed, without empty and
-- repeated ones; `seen` has those before.
unfoldable pub add_name : List ℕ → List (List ℕ) → List (List ℕ)
unfolding has
add_name part names =
    let name = trim_space part in
    if is_empty name || has names name then names else names ++ name ∷ []

unfoldable pub configured_from : List (List ℕ) → List ℕ → List ℕ → List (List ℕ)
unfolding add_name
configured_from names part [] = add_name part names
configured_from names part (b ∷ bs) =
    let cut = configured_from (add_name part names) [] bs in
    let more = configured_from names (part ++ b ∷ []) bs in
    if b == b',' || b == b';' then cut else more

unfoldable pub parse_configured_printer_names : List ℕ → List (List ℕ)
unfolding configured_from
parse_configured_printer_names input = configured_from [] [] input

-- The first configured name that is available; the empty name stands for none.
unfoldable pub select_configured_printer : List (List ℕ) → List (List ℕ) → List ℕ
unfolding has
select_configured_printer [] available = []
select_configured_printer (name ∷ names) available =
    let rest = select_configured_printer names available in
    if has available name then name else rest

abbrev pub score_known_model : ℕ
score_known_model = 300

abbrev pub score_generic_ql : ℕ
score_generic_ql = 100

-- unicode.IsLetter or unicode.IsDigit, of the bytes of a character beyond ASCII.
module _ (is_wide : List ℕ → Bool) where
  -- The loop of normalizeAlnum; the fuel is the number of bytes.
  unfoldable pub keep_alnum : ℕ → List ℕ → List ℕ
  keep_alnum zero bs = []
  keep_alnum (suc fuel) [] = []
  keep_alnum (suc fuel) (b ∷ bs) =
      let w = char_width b in
      let char = take w (b ∷ bs) in
      let rest = keep_alnum fuel (drop w (b ∷ bs)) in
      if (if ltb b 0x80 then is_alnum b else is_wide char) then char ++ rest else rest

  unfoldable pub normalize_alnum : List ℕ → List ℕ
  unfolding keep_alnum
  normalize_alnum s = let lowered = to_lower s in keep_alnum (length lowered) lowered

  -- brotherQLModel, with the models in the order of brotherQLModels; empty for none.
  unfoldable pub brother_ql_model : List ℕ → List ℕ
  unfolding normalize_alnum
  brother_ql_model normalized =
      if contains (normalize_alnum (bytes "QL-800")) normalized
      then bytes "QL-800"
      else if contains (normalize_alnum (bytes "QL-820NWB")) normalized
      then bytes "QL-820NWB"
      else []

  unfoldable pub printer_model : List ℕ → List ℕ
  unfolding brother_ql_model
  printer_model name = brother_ql_model (normalize_alnum name)

  unfoldable pub score_brother_ql : List ℕ → ℕ
  unfolding brother_ql_model
  score_brother_ql name =
      let normalized = normalize_alnum name in
      if is_empty normalized
      then 0
      else if not (is_empty (brother_ql_model normalized))
      then score_known_model
      else if contains (bytes "brother") normalized && contains (bytes "ql") normalized
      then score_generic_ql
      else 0

  -- The loop of DetectBrotherQL: the best name so far, with its score.
  unfoldable pub detect_from : List ℕ → ℕ → List (List ℕ) → List ℕ
  unfolding score_brother_ql
  detect_from best best_score [] = best
  detect_from best best_score (name ∷ names) =
      let score = score_brother_ql name in
      detect_from (if ltb best_score score then name else best)
        (if ltb best_score score then score else best_score) names

  unfoldable pub detect_brother_ql : List (List ℕ) → List ℕ
  unfolding detect_from
  detect_brother_ql available = detect_from [] 0 available

  abbrev or_else : List (List ℕ) → List (List ℕ) → List ℕ → List ℕ × Source
  or_else (name ∷ _) available default_name = (name, from_config)
  or_else [] available (b ∷ bs) = (b ∷ bs, cups_default)
  or_else [] (name ∷ _) [] = (name, first_available)
  or_else [] [] [] = ([], unresolved)

  unfoldable pub resolve_printer : List (List ℕ) → List (List ℕ) → List ℕ → List ℕ × Source
  unfolding has select_configured_printer detect_brother_ql
  resolve_printer configured available default_name =
      let chosen = select_configured_printer configured available in
      let detected = detect_brother_ql available in
      if not (is_empty chosen)
      then (chosen, from_config)
      else if not (is_empty default_name)
          && ltb 0 (score_brother_ql default_name)
          && has available default_name
      then (default_name, cups_default)
      else if not (is_empty detected)
      then (detected, auto_detected)
      else or_else configured available default_name
