-- ===== src/Scanner.antt =====
-- internal/scanner/client.go: the barcode scanner, a keyboard that types what it reads. The device and
-- the time are a sequence of happenings.
pub mod Keys
pub mod Typed
pub mod Reads
use raku_sika_hub.Prelude.{
  ℕ, zero, suc, ◌+◌, ◌*◌, Bool, true, false, not, ◌||◌, Option, none, some, List, [], ◌∷◌, ◌++◌,
  ◌==◌, ltb, if◌then◌else◌, length, drop, get_or,
}
use raku_sika_hub.Scale.Text.{is_empty}
use raku_sika_hub.Scanner.Keys.{char_of, ev_key, key_enter, key_l_shift, key_r_shift, key_pressed}

-- inputEvent, without its time, that nothing reads. The value stands for its int32 by its bits.
pub record InputEvent : Type 0 where
  pub kind : ℕ
  pub code : ℕ
  pub value : ℕ

pub record Scan : Type 0 where
  pub text : List ℕ
  pub at : ℕ

-- The variables of the loop in readDevice, and the scan that is not consumed yet.
pub record Reader : Type 0 where
  pub current : List ℕ
  pub shifted : Bool
  pub latest : Option Scan

abbrev pub input_event_size : ℕ
input_event_size = 24

abbrev le16_at : List ℕ → ℕ → ℕ
le16_at bs i = get_or bs i 0 + 256 * get_or bs (i + 1) 0

abbrev pub event_at : List ℕ → InputEvent
event_at bs = record {
  kind = le16_at bs 16;
  code = le16_at bs 18;
  value = le16_at bs 20 + 65536 * le16_at bs 22;
}

-- The key that ends a scan.
abbrev end_scan : ℕ → Reader → Reader
end_scan now r =
    if is_empty r.current
    then r
    else record r { current = []; latest = some (record { text = r.current; at = now }) }

abbrev add_char : ℕ → Reader → Reader
add_char c r = if c == 0 then r else record r { current = r.current ++ c ∷ [] }

-- The body of the loop over the events of a read.
unfoldable pub on_event : ℕ → InputEvent → Reader → Reader
on_event now ev r =
    if not (ev.kind == ev_key)
    then r
    else if ev.code == key_l_shift || ev.code == key_r_shift
    then record r { shifted = ev.value == key_pressed }
    else if not (ev.value == key_pressed)
    then r
    else if ev.code == key_enter
    then end_scan now r
    else add_char (char_of r.shifted ev.code) r

-- The loop over what a read returned; bytes that are no whole event are dropped. The fuel is the number
-- of bytes.
unfoldable pub on_events : ℕ → ℕ → List ℕ → Reader → Reader
on_events zero now bs r = r
on_events (suc fuel) now bs r =
    let rest = on_events fuel now (drop input_event_size bs) (on_event now (event_at bs) r) in
    if ltb (length bs) input_event_size then r else rest

unfoldable pub on_read : ℕ → List ℕ → Reader → Reader
unfolding on_events
on_read now bs r = on_events (length bs) now bs r

-- Consume.
unfoldable pub consume : Reader → Option Scan × Reader
consume r = (r.latest, record r { latest = none })
