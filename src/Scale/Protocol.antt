-- ===== src/Scale/Protocol.antt =====
-- internal/scale/protocol.go: the replies of an A&D scale. Strings are their bytes; a float64 is a
-- value of a parameter, since strconv.ParseFloat is one.
use raku_sika_hub.Prelude.{
  ℕ, zero, suc, Bool, false, ◌&&◌, ◌||◌, Option, none, some, List, [], ◌∷◌, leb, if◌then◌else◌,
  length, take, drop, get_or,
}
use raku_sika_hub.Result.{Result, ok, err}
use raku_sika_hub.Scale.Text.{same_bytes, is_empty, trim_line_end, trim_left, trim_right, split_two}

abbrev pub header_st : List ℕ
header_st = 0x53 ∷ 0x54 ∷ []

abbrev pub header_us : List ℕ
header_us = 0x55 ∷ 0x53 ∷ []

abbrev pub header_ol : List ℕ
header_ol = 0x4F ∷ 0x4C ∷ []

abbrev pub header_qt : List ℕ
header_qt = 0x51 ∷ 0x54 ∷ []

abbrev pub header_ta : List ℕ
header_ta = 0x54 ∷ 0x41 ∷ []

abbrev pub header_zr : List ℕ
header_zr = 0x5A ∷ 0x52 ∷ []

-- CmdWeigh, CmdTare and CmdZero.
abbrev pub cmd_weigh : List ℕ
cmd_weigh = 0x51 ∷ 0x0D ∷ 0x0A ∷ []

abbrev pub cmd_tare : List ℕ
cmd_tare = 0x54 ∷ 0x0D ∷ 0x0A ∷ []

abbrev pub cmd_zero : List ℕ
cmd_zero = 0x52 ∷ 0x0D ∷ 0x0A ∷ []

pub record WeighResult (F : Type 0) : Type 0 where
  pub header : List ℕ
  pub value : F
  pub unit : List ℕ
  pub stable : Bool

pub data ParseError : Type 0 where
  empty_response invalid_format empty_body bad_float : ParseError

abbrev pub trim_space : List ℕ → List ℕ
trim_space bs = trim_left (length bs) (trim_right (length bs) bs)

abbrev pub is_letter : ℕ → Bool
is_letter b = (leb 0x61 b && leb b 0x7A) || (leb 0x41 b && leb b 0x5A)

-- The loop of parseValueUnit over i, from the end: `found` is lastAlpha, none for -1.
unfoldable pub last_alpha : List ℕ → ℕ → Option ℕ → Option ℕ
last_alpha body zero found = found
last_alpha body (suc i) found =
    let go_on = last_alpha body i none in
    let mark = last_alpha body i (some i) in
    if is_letter (get_or body i 0) then mark else elim found [ none ↦ go_on | some k ↦ some k ]

unfoldable pub split_unit : List ℕ → List ℕ × List ℕ
unfolding last_alpha
split_unit body = elim (last_alpha body (length body) none) [
  | none ↦ (body, [])
  | some i ↦ (trim_space (take i body), trim_space (drop i body))
]

-- ParseAckResponse: none for "", false.
abbrev pub is_ack : List ℕ → Bool
is_ack h = same_bytes h header_qt || same_bytes h header_ta || same_bytes h header_zr

abbrev pub first_part : List ℕ → List ℕ
first_part line = elim (split_two 0x2C line) [ none ↦ line | some parts ↦ parts.0 ]

unfoldable pub parse_ack_response : List ℕ → Option (List ℕ)
unfolding split_two same_bytes
parse_ack_response raw =
    let line = trim_space (trim_line_end raw) in
    let header = trim_space (first_part line) in
    if is_ack line then some line else if is_ack header then some header else none

module _ {F : Type 0} (zero_value : F) (parse_float : List ℕ → Option F) where
  unfoldable pub parse_value_unit : List ℕ → Result ParseError (F × List ℕ)
  parse_value_unit body =
      let text = trim_space body in
      let (num, unit) = split_unit text in
      if is_empty text
      then err empty_body
      else elim (parse_float num) [ none ↦ err bad_float | some v ↦ ok (v, unit) ]

  -- A result with a header and nothing else.
  abbrev pub only_header : List ℕ → WeighResult F
  only_header h = record { header = h; value = zero_value; unit = []; stable = false }

  unfoldable pub parse_fields : List ℕ → List ℕ → Result ParseError (WeighResult F)
  unfolding parse_value_unit
  parse_fields header body =
      if same_bytes header header_st || same_bytes header header_us
      then elim (parse_value_unit body) [
        | err e ↦ err e
        | ok parsed ↦ ok (record {
          header = header;
          value = parsed.0;
          unit = parsed.1;
          stable = same_bytes header header_st;
        })
      ]
      else ok (only_header header)

  unfoldable pub parse_weigh_response : List ℕ → Result ParseError (WeighResult F)
  unfolding parse_fields
  parse_weigh_response raw =
      let line = trim_line_end raw in
      if is_empty line
      then err empty_response
      else if same_bytes line header_ol
      then ok (only_header header_ol)
      else elim (split_two 0x2C line) [
        | none ↦ err invalid_format
        | some parts ↦ parse_fields (trim_space parts.0) (trim_space parts.1)
      ]
