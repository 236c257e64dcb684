-- ===== src/Tests/Services.antt =====
-- internal/ws, internal/netadmin, internal/httpapi, internal/config and the result files on small inputs.
use raku_sika_hub.Prelude.{
  ℕ, Bool, false, ◌≤◌, ◌≡◌, ◌↔◌, ◌-◌, ◌+◌, refl, true, false, none, some, List, [], ◌∷◌, ◌++◌,
  arith, bytes, length, str_eq,
}
use mathlib.Core.List.{Sublistᴰ}
use raku_sika_hub.Result.{Result}
use raku_sika_hub.Scale.Protocol.{trim_space}
use raku_sika_hub.Scale.Client.Sound.{IsSound}
use raku_sika_hub.Scale.Text.{same_bytes, space_width, trim_left, trim_right, split_two}
use raku_sika_hub.Api.Hub.{
  Server, History, Reachable, start, next, check, connect, publish, pump, new_server, nothing_yet,
  register, broadcast, has_client, put_at, offered_each, channel_size,
}
use raku_sika_hub.Api.Hub.Order.{Reachable-keeps_order}
use raku_sika_hub.Api.Hub.Limit.{Reachable-IsLimited}
use raku_sika_hub.Network.{
  NmcliCommand, list_devices, list_connections, Nmcli, split_fields, parse_leading_int,
  unknown_profile,
}
use raku_sika_hub.Network.Manager.{activate}
use raku_sika_hub.Network.Fields.{print_fields, split_fields-print_fields}
use raku_sika_hub.Network.Safe.{Switches, activate-Switches}
use raku_sika_hub.Backend.Results.{keep_results, File, garbage, write_result, read_result}
use raku_sika_hub.Backend.Results.Newest.{stuck, read_result-write_result}
use raku_sika_hub.Api.Errors.{Texts, http_code, socket_code}
use raku_sika_hub.Api.Errors.Agree.{Refines, socket_code-Refines}
use raku_sika_hub.Api.Scales.{Plug, handle_scale_weigh}
use raku_sika_hub.Api.Scales.Answers.{IsProper, handle_scale_weigh-IsProper}
use raku_sika_hub.Api.Middleware.{v4, routed, handler}
use raku_sika_hub.Api.Middleware.Private.{IsPrivate4, handler-IsPrivate4}
use raku_sika_hub.Printer.Print.Testing.{test_print, MayTest, test_print-Sends}
use raku_sika_hub.Printer.Print.Once.{Sends}
use raku_sika_hub.App.{PrinterState, Tick, status_broadcasts}
use raku_sika_hub.App.Changes.{last_or, last_read, last_or-status_broadcasts}
use raku_sika_hub.Tests.Stations.{small_cups}
use raku_sika_hub.Tests.Requests.{small_station, small_afterwards}
use raku_sika_hub.Tests.Weighing.{float_of, open_client, open_client-IsSound}

-- One client connects, a message is published, and it is written.
abbrev checked : Server ℕ
checked = record new_server { accepting = 1 }

abbrev connected : Server ℕ
connected = register 0 (record checked { accepting = 0; made = 1 })

abbrev published : Server ℕ
published = broadcast 7 connected

abbrev pumped : Server ℕ
pumped = record published {
  channels = put_at 0 [] published.channels;
  written = put_at 0 (published.written 0 ++ 7 ∷ []) published.written;
}

abbrev at_first : History ℕ
at_first = record nothing_yet { peak = 1 }

abbrev at_last : History ℕ
at_last = record at_first { offered = offered_each 7 connected.clients at_first.offered }

client_there : has_client 0 published.clients ≡ true
unfolding has_client register broadcast
client_there = refl

message_waits : published.channels 0 ≡ 7 ∷ []
unfolding register broadcast
message_waits = refl

one_message : Reachable 2 at_last pumped
one_message =
    next (next (next (next start (check (omega arith))) (connect 0 refl)) (publish 7))
      (pump 7 [] 0 client_there message_waits)

Reachable-keeps_order_example :
    Sublistᴰ (pumped.written 0 ++ pumped.channels 0) (at_last.offered 0)
    × (length (pumped.channels 0) ≤ channel_size)
    × (has_client 0 pumped.clients ≡ true
        → length (at_last.offered 0) ≤ channel_size
        → pumped.written 0 ++ pumped.channels 0 ≡ at_last.offered 0)
Reachable-keeps_order_example = Reachable-keeps_order 2 at_last pumped 0 one_message

Reachable-IsLimited_example : length pumped.clients + pumped.accepting ≤ 2 + (at_last.peak - 1)
Reachable-IsLimited_example = Reachable-IsLimited 2 at_last pumped one_message

-- Two requests pass the check while the hub has no client: the limit of one is exceeded.
abbrev racing : Server ℕ
racing = record new_server { accepting = 2 }

abbrev raced : Server ℕ
raced =
    register 1
      (record (register 0 (record racing { accepting = 1; made = 1 })) { accepting = 0; made = 2 })

both_connect : Reachable 1 (record nothing_yet { peak = 2 }) raced
unfolding register
both_connect =
    next (next (next (next start (check (omega arith))) (check (omega arith))) (connect 1 refl))
      (connect 0 refl)

over_limit : length raced.clients ≡ 2
unfolding register
over_limit = refl

-- nmcli knows one saved profile, with a colon in its name.
abbrev nmcli_says : NmcliCommand → List ℕ
nmcli_says list_devices = bytes "wlan0:wifi:connected:Shop\\:A\n"
nmcli_says list_connections = bytes "Shop\\:A:802-11-wireless:wlan0\nlan:802-3-ethernet:eth0\n"
nmcli_says _ = []

abbrev small_nmcli : Nmcli
small_nmcli = record { answer = λ issued c. Result.ok (nmcli_says c) }

activate-Switches_example :
    Switches small_nmcli []
      (trim_space (bytes " Shop:A"))
      (activate small_nmcli (bytes " Shop:A") []).0
      (activate small_nmcli (bytes " Shop:A") []).1
activate-Switches_example = activate-Switches small_nmcli [] (bytes " Shop:A")

shop_activated : (activate small_nmcli (bytes " Shop:A") []).0 ≡ none
unfolding activate same_bytes trim_left trim_right space_width split_two
shop_activated = refl

lan_refused : (activate small_nmcli (bytes "lan") []).0 ≡ some (unknown_profile (bytes "lan"))
unfolding activate same_bytes trim_left trim_right space_width split_two
lan_refused = refl

rate_read : parse_leading_int (bytes "270 Mbit/s") ≡ 270
unfolding parse_leading_int trim_left trim_right space_width
rate_read = refl

split_fields-print_fields_example :
    split_fields (print_fields (bytes "a:b") (bytes "wifi" ∷ [])) ≡ bytes "a:b" ∷ bytes "wifi" ∷ []
split_fields-print_fields_example = split_fields-print_fields (bytes "a:b") (bytes "wifi" ∷ [])

-- A directory with one other file.
abbrev old_files : List (File ℕ)
old_files = record { job_id = bytes "6"; modified = 3; content = garbage } ∷ []

abbrev removable : List ℕ → Bool
removable id = false

seven_written : (write_result removable true 4 (bytes "7") 1 old_files).0 ≡ none
unfolding write_result
seven_written = refl

read_result-write_result_example :
    (read_result (bytes "7") (write_result removable true 4 (bytes "7") 1 old_files).1
      ≡ Result.ok (some 1))
    × (length (write_result removable true 4 (bytes "7") 1 old_files).1
        ≤ keep_results + stuck removable old_files)
read_result-write_result_example =
    read_result-write_result removable true 4 (bytes "7") 1 old_files (omega arith, tt)
      seven_written

socket_code-Refines_example :
    Refines true
      (http_code (bytes "PORT_ERROR: write: EIO"))
      (socket_code (bytes "PORT_ERROR: write: EIO"))
socket_code-Refines_example = socket_code-Refines (bytes "PORT_ERROR: write: EIO")

write_error : socket_code (bytes "PORT_ERROR: write: EIO") ≡ "SERIAL_WRITE_ERROR"
unfolding socket_code
write_error = refl

abbrev plain_texts : Texts
plain_texts = record {
  write_reason = bytes "EIO";
  read_reason = bytes "EIO";
  bytes_read = bytes "0";
  context_reason = bytes "context canceled";
  parse_reason = λ e. bytes "empty response";
  quoted = λ bs. bs;
}

abbrev no_plug : Plug
no_plug = record { configured = []; detected = none; opens = false }

handle_scale_weigh-IsProper_example :
    IsProper (handle_scale_weigh plain_texts 0 float_of no_plug [] 0 1 (open_client [])).0
    × IsSound (handle_scale_weigh plain_texts 0 float_of no_plug [] 0 1 (open_client [])).1
handle_scale_weigh-IsProper_example =
    handle_scale_weigh-IsProper plain_texts 0 float_of no_plug [] 0 1 (open_client [])
      (open_client-IsSound [])

handler-IsPrivate4_example :
    (handler (λ (n : ℕ). n) "GET" (some (v4 172 31 0 9)) 5 ≡ routed 5)
    ↔ ((str_eq "GET" "OPTIONS" ≡ false) × IsPrivate4 172 31)
handler-IsPrivate4_example =
    handler-IsPrivate4 (λ (n : ℕ). n) "GET" 172 31 0 9 5 (omega arith) (omega arith)

test_print-Sends_example :
    Sends
      (MayTest small_cups small_station (bytes "2026-11-26") [])
      []
      (test_print small_cups small_station small_afterwards (bytes "2026-11-26") []).0
      (test_print small_cups small_station small_afterwards (bytes "2026-11-26") []).1
test_print-Sends_example =
    test_print-Sends small_cups small_station (bytes "2026-11-26") [] small_afterwards

abbrev printer_gone : PrinterState
printer_gone = record { connected = false; name = bytes "QL-800" }

abbrev printer_back : PrinterState
printer_back = record { connected = true; name = bytes "QL-800" }

abbrev steady : PrinterState → Tick
steady s = record { current = s; again = s }

last_or-status_broadcasts_example :
    last_or printer_gone (status_broadcasts printer_gone (steady printer_back ∷ []))
    ≡ last_read printer_gone (steady printer_back ∷ [])
last_or-status_broadcasts_example =
    last_or-status_broadcasts printer_gone (steady printer_back ∷ []) (refl, tt)

-- The event reads the state again: the clients are told the old one, and no later tick corrects it.
stale_clients :
    status_broadcasts printer_gone
      (record { current = printer_back; again = printer_gone } ∷ steady printer_back ∷ [])
    ≡ printer_gone ∷ []
unfolding status_broadcasts same_bytes
stale_clients = refl
