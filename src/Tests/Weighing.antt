-- ===== src/Tests/Weighing.antt =====
-- internal/scale on scripted ports.
use raku_sika_hub.Prelude.{ℕ, ◌≡◌, refl, true, false, Option, some, List, [], ◌∷◌, length}
use raku_sika_hub.Result.{ok}
use raku_sika_hub.Scale.Text.{
  same_bytes, trim_line_end, trim_left, trim_right, split_two, space_width,
}
use raku_sika_hub.Scale.Protocol.{WeighResult, header_st, parse_weigh_response, split_unit}
use raku_sika_hub.Scale.Client.{
  Poll, idle, got, timed_out, port_error, Client, read_line, send_command, send_weigh, disconnect,
  close_port, set_status, watchdog_check, weigh_loop, weigh_port, weigh,
}
use raku_sika_hub.Scale.Client.Sound.{IsSound}
use raku_sika_hub.Scale.Client.Weighing.{IsGone, weigh-IsGone}
use raku_sika_hub.Prelude.{arith}
use raku_sika_hub.Scale.Lines.{IsPlain}
use raku_sika_hub.Scale.Replies.{parse_weigh_response-line}
use raku_sika_hub.Scale.Loop.{
  Event, weighing, taring, connecting, watching, new_client, run, run-IsSound,
}

-- A stand-in for strconv.ParseFloat: a numeral is worth its length.
abbrev pub float_of : List ℕ → Option ℕ
float_of bs = some (length bs)

-- "ST,+00012.34  kg" with its line end.
abbrev stable_line : List ℕ
stable_line =
    b'S' ∷ b'T' ∷ b',' ∷ b'+' ∷ b'0' ∷ b'0' ∷ b'0' ∷ b'1' ∷ b'2' ∷ b'.' ∷ b'3' ∷ b'4' ∷ 0x20 ∷ 0x20
    ∷ b'k' ∷ b'g' ∷ 0x0D ∷ 0x0A ∷ []

abbrev stable_result : WeighResult ℕ
stable_result = record { header = header_st; value = 9; unit = b'k' ∷ b'g' ∷ []; stable = true }

parse-stable_line : parse_weigh_response 0 float_of stable_line ≡ ok stable_result
unfolding parse_weigh_response same_bytes trim_line_end trim_left trim_right split_two space_width
    split_unit
parse-stable_line = refl

-- A client of which the port answers as the script says.
abbrev pub open_client : List Poll → Client ℕ
open_client polls = record (new_client {F = ℕ}) {
  port_open = true;
  connected = true;
  polls = polls;
  told = (true, b'p' ∷ []) ∷ [];
}

pub open_client-IsSound : (polls : List Poll) → IsSound (open_client polls)
open_client-IsSound polls = (refl, (refl, tt))

-- The line, an idle read in it.
abbrev stable_polls : List Poll
stable_polls = got b'Q' ∷ idle ∷ got 0x0A ∷ got b'x' ∷ []

line-stable_polls : (read_line stable_polls []).0 ≡ ok (b'Q' ∷ 0x0A ∷ [])
unfolding read_line
line-stable_polls = refl

mute-broken : (weigh 0 float_of [] 0 1 (open_client [])).0.error ≡ some (port_error timed_out)
unfolding weigh weigh_port weigh_loop send_weigh send_command read_line
mute-broken = refl

weigh-IsGone_example : IsGone (weigh 0 float_of [] 0 1 (open_client [])).1
weigh-IsGone_example = weigh-IsGone 0 float_of [] 0 1 (open_client []) timed_out mute-broken

-- The scale is found, tared, weighed and watched.
abbrev a_day : List Event
a_day = connecting [] (some (b'p' ∷ [])) true ∷ taring ∷ weighing [] 0 1 ∷ watching true ∷ []

run-IsSound_example : IsSound (run 0 float_of a_day (new_client {F = ℕ}))
run-IsSound_example = run-IsSound 0 float_of a_day (new_client {F = ℕ}) (refl, (refl, tt))

watch-off : (watchdog_check true (open_client [])).connected ≡ false
unfolding watchdog_check send_command read_line disconnect close_port set_status
watch-off = refl

plus-IsPlain : IsPlain b'+'
plus-IsPlain = (omega arith, omega arith)

one-IsPlain : IsPlain b'1'
one-IsPlain = (omega arith, omega arith)

-- "+1" and "kg", with one blank before and two between.
parse_weigh_response-line_example :
    parse_weigh_response 0 float_of
      (b'S' ∷ b'T' ∷ b',' ∷ 0x20 ∷ b'+' ∷ b'1' ∷ 0x20 ∷ 0x20 ∷ b'k' ∷ b'g' ∷ 0x0D ∷ 0x0A ∷ [])
    ≡ ok (record { header = header_st; value = 2; unit = b'k' ∷ b'g' ∷ []; stable = true })
parse_weigh_response-line_example =
    parse_weigh_response-line (b'+' ∷ []) b'1' 2 (b'k' ∷ []) b'g' (plus-IsPlain, tt) one-IsPlain
      (refl, tt) refl 0 float_of 2 refl true 1
