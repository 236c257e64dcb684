-- ===== src/Status.antt =====
-- internal/printer/qlbackend/status.go: the printer's 32-byte status frames and what their error bits
-- mean. A text for the person at the printer is named by a constructor; texts with values in them
-- keep the values.
pub mod Problems
use raku_sika_hub.Prelude.{
  ℕ, ◌≡◌, Bool, true, false, not, ◌&&◌, ◌||◌, Option, none, some, List, [], ◌∷◌, ◌++◌, ltb, ◌==◌,
  if◌then◌else◌, length, get_or, take, has_bit,
}
use native.Mathlib.Decide.{ℕ_discrete}
use raku_sika_hub.Job.Parse.{Media}

abbrev pub status_size : ℕ
status_size = 32

-- Status types (byte 18).
abbrev pub type_reply : ℕ
type_reply = 0x00

abbrev pub type_printing_completed : ℕ
type_printing_completed = 0x01

abbrev pub type_error_occurred : ℕ
type_error_occurred = 0x02

abbrev pub type_turned_off : ℕ
type_turned_off = 0x04

abbrev pub type_notification : ℕ
type_notification = 0x05

abbrev pub type_phase_change : ℕ
type_phase_change = 0x06

pub record Status : Type 0 where
  pub err1 : ℕ
  pub err2 : ℕ
  pub media_width : ℕ
  pub media_type : ℕ
  pub media_length : ℕ
  pub kind : ℕ  -- Type
  pub phase : ℕ
  pub notification : ℕ
  pub text_color : ℕ
  pub raw : List ℕ

unfoldable pub parse_status : List ℕ → Option Status
parse_status b =
    if ltb (length b) status_size || (not (get_or b 0 0 == 0x80) || not (get_or b 1 0 == 0x20))
    then none
    else some (record {
      err1 = get_or b 8 0;
      err2 = get_or b 9 0;
      media_width = get_or b 10 0;
      media_type = get_or b 11 0;
      media_length = get_or b 17 0;
      kind = get_or b 18 0;
      phase = get_or b 19 0;
      notification = get_or b 22 0;
      text_color = get_or b 25 0;
      raw = take status_size b;
    })

-- How `mediaName` words a roll.
pub data MediaName : Type 0 where
  continuous_tape die_cut_label : ℕ → MediaName
  no_roll : MediaName
  other_kind : ℕ → ℕ → MediaName

pub data Message : Type 0 where
  roll_missing cannot_feed cutter_jammed fan_stopped roll_differs buffer_full : Message
  communication_error cover_open device_error : Message
  media_mismatch_message : MediaName → MediaName → Message
  data_not_accepted_yet data_not_accepted connection_lost turned_off printer_silent : Message
  error_code : ℕ → ℕ → Message
  no_completion : ℕ → ℕ → Bool → Message
  cannot_confirm printed_message canceled_message : Message
  data_unreadable not_a_raster_job device_not_opened : Message

-- The CUPS printer-state-reasons.
pub data Reason : Type 0 where
  media_empty_error media_jam_error media_needed_error cover_open_error other_error : Reason

pub MediaName-discrete : Discrete MediaName
MediaName-discrete = hlevel ℕ_discrete

unfoldable pub Message-discrete : Discrete Message
Message-discrete = hlevel (ℕ_discrete, MediaName-discrete)

unfoldable pub Reason-discrete : Discrete Reason
Reason-discrete = hlevel

pub record Problem : Type 0 where
  pub message : Message
  pub reason : Reason

-- A bit of an error byte by its number: bit 4 is 0x10.
pub record Flag : Type 0 where
  pub bit : ℕ
  pub message : Message
  pub reason : Reason

abbrev flag : ℕ → Message → Reason → Flag
flag b m r = record { bit = b; message = m; reason = r }

abbrev pub err1_flags : List Flag
err1_flags =
    flag 0 roll_missing media_empty_error
    ∷ flag 1 cannot_feed media_empty_error
    ∷ flag 2 cutter_jammed media_jam_error
    ∷ flag 7 fan_stopped other_error
    ∷ []

abbrev pub err2_flags : List Flag
err2_flags =
    flag 0 roll_differs media_needed_error
    ∷ flag 1 buffer_full other_error
    ∷ flag 2 communication_error other_error
    ∷ flag 3 buffer_full other_error
    ∷ flag 4 cover_open cover_open_error
    ∷ flag 6 cannot_feed media_jam_error
    ∷ flag 7 device_error other_error
    ∷ []

unfoldable pub same_message : Message → Message → Bool
unfolding Message-discrete
same_message a b = elim (Message-discrete a b) [ yes _ ↦ true | no _ ↦ false ]

-- `seen[message]`: the messages seen are those of the problems listed so far.
unfoldable pub seen : Message → List Problem → Bool
unfolding same_message
seen m [] = false
seen m (p ∷ ps) = same_message p.message m || seen m ps

unfoldable pub add : Flag → List Problem → List Problem
unfolding seen
add f out =
    if seen f.message out
    then out
    else out ++ (record { message = f.message; reason = f.reason } ∷ [])

-- One of the loops over the flags of a byte.
unfoldable pub add_flags : ℕ → List Flag → List Problem → List Problem
unfolding add
add_flags byte [] out = out
add_flags byte (f ∷ fs) out = add_flags byte fs (if has_bit byte f.bit then add f out else out)

unfoldable pub problems : Status → List Problem
unfolding add_flags
problems s = add_flags s.err2 err2_flags (add_flags s.err1 err1_flags [])

abbrev pub two_color_roll : Status → Bool
two_color_roll s = has_bit s.text_color 7

abbrev pub is_busy : Status → Bool
is_busy s = has_bit s.err1 4

abbrev pub is_continuous : ℕ → Bool
is_continuous t = t == 0x0A || t == 0x4A

abbrev pub is_die_cut : ℕ → Bool
is_die_cut t = t == 0x0B || t == 0x4B

abbrev pub media_name : ℕ → ℕ → MediaName
media_name t width =
    if is_continuous t
    then continuous_tape width
    else if is_die_cut t
    then die_cut_label width
    else if t == 0x00 || width == 0
    then no_roll
    else other_kind width t

unfoldable pub media_mismatch : Status → Media → Option Problem
media_mismatch s want =
    let same_kind =
      (is_continuous want.kind && is_continuous s.media_type)
      || (is_die_cut want.kind && is_die_cut s.media_type) in
    if not want.known || s.media_width == 0
    then none
    else if s.media_width == want.width_mm && same_kind
    then none
    else some (record {
      message =
          media_mismatch_message (media_name s.media_type s.media_width)
            (media_name want.kind want.width_mm);
      reason = media_needed_error;
    })
