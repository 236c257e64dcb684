-- ===== src/Network.antt =====
-- internal/netadmin/network.go: the Wi-Fi state that nmcli tells, and the switch to a saved profile. The
-- output of nmcli is valid UTF-8, so that its runes are told apart by their bytes.
pub mod Fields
pub mod Manager
pub mod Safe
use raku_sika_hub.Prelude.{
  ℕ, zero, suc, ◌+◌, ◌-◌, ◌*◌, ◌==◌, leb, ltb, Bool, true, false, not, ◌&&◌, ◌||◌, Option, none,
  some, List, [], ◌∷◌, ◌++◌, bytes, length, if◌then◌else◌,
}
use raku_sika_hub.Result.{Result, ok, err}
use raku_sika_hub.Scale.Text.{is_empty, same_bytes, split_two}
use raku_sika_hub.Scale.Protocol.{trim_space}
use raku_sika_hub.Strings.{contains, split_at}
use raku_sika_hub.Commands.{M, pure, ◌>>=◌}

-- nmcli device, device wifi list ifname NAME, connection show, connection show NAME, and
-- connection up NAME, with the options that Status gives them.
pub data NmcliCommand : Type 0 where
  list_devices list_connections : NmcliCommand
  list_wifi show_connection connection_up : List ℕ → NmcliCommand

-- The answer to a command may depend on those before: the output, or the text of an error, which may be
-- that it took too long.
pub record Nmcli : Type 0 where
  pub answer : List NmcliCommand → NmcliCommand → Result (List ℕ) (List ℕ)

pub record Device : Type 0 where
  pub name : List ℕ
  pub state : List ℕ
  pub connection : List ℕ
  pub ssid : List ℕ
  pub freq_mhz : ℕ
  pub band : List ℕ
  pub signal_percent : ℕ
  pub rate_mbps : ℕ

pub record Profile : Type 0 where
  pub name : List ℕ
  pub ssid : List ℕ
  pub band : List ℕ
  pub device : List ℕ
  pub active : Bool
  pub priority : ℕ

-- `warned` tells whether there is a warning.
pub record NetworkStatus : Type 0 where
  pub devices : List Device
  pub profiles : List Profile
  pub warned : Bool

pub data NetworkError : Type 0 where
  nmcli_failed : List ℕ → NetworkError
  no_profile : NetworkError
  unknown_profile : List ℕ → NetworkError

-- splitFields, with the flag `escaped` and the field that is read.
unfoldable pub split_from : Bool → List ℕ → List ℕ → List (List ℕ)
split_from escaped field [] = field ∷ []
split_from true field (r ∷ rs) = split_from false (field ++ r ∷ []) rs
split_from false field (r ∷ rs) =
    let escape = split_from true field rs in
    let cut = field ∷ split_from false [] rs in
    let more = split_from false (field ++ r ∷ []) rs in
    if r == 0x5C then escape else if r == 0x3A then cut else more

unfoldable pub split_fields : List ℕ → List (List ℕ)
unfolding split_from
split_fields line = split_from false [] line

abbrev keep_line : List ℕ → List (List ℕ) → List (List ℕ)
keep_line line rest = if is_empty (trim_space line) then rest else line ∷ rest

abbrev keep_lines : List (List ℕ) → List (List ℕ)
keep_lines [] = []
keep_lines (line ∷ lines) = keep_line line (keep_lines lines)

unfoldable pub filled_lines : List ℕ → List (List ℕ)
unfolding split_at
filled_lines s = keep_lines (split_at 0x0A [] s)

abbrev is_digit : ℕ → Bool
is_digit b = leb 0x30 b && leb b 0x39

-- The value of the digits at the start, behind those that were read.
abbrev digits_value : ℕ → List ℕ → ℕ
digits_value n [] = n
digits_value n (b ∷ bs) =
    let more = digits_value (n * 10 + (b - 0x30)) bs in if is_digit b then more else n

-- parseLeadingInt; strconv.Atoi fails beyond the largest int.
unfoldable pub parse_leading_int : List ℕ → ℕ
parse_leading_int s =
    let n = digits_value 0 (trim_space s) in if ltb 9223372036854775807 n then 0 else n

unfoldable pub band_for : ℕ → List ℕ
band_for freq = if leb 4900 freq then bytes "5GHz" else if ltb 0 freq then bytes "2.4GHz" else []

abbrev device_from : List (List ℕ) → Option Device
device_from (name ∷ kind ∷ state ∷ connection ∷ rest) =
    if same_bytes kind (bytes "wifi")
    then some (record {
      name = name;
      state = state;
      connection = connection;
      ssid = [];
      freq_mhz = 0;
      band = [];
      signal_percent = 0;
      rate_mbps = 0;
    })
    else none
device_from _ = none

abbrev pub cons_some {ℓ} : {A : Type ℓ} → Option A → List A → List A
cons_some none as_ = as_
cons_some (some a) as_ = a ∷ as_

-- The first loop of Status.
unfoldable pub read_devices : List (List ℕ) → List Device
unfolding split_fields
read_devices [] = []
read_devices (line ∷ lines) = cons_some (device_from (split_fields line)) (read_devices lines)

-- The row of the network in use, if the fields are of it.
abbrev associated : List (List ℕ) → Device → Option Device
associated (in_use ∷ ssid ∷ freq ∷ signal ∷ rate ∷ rest) device =
    if same_bytes (trim_space in_use) (bytes "*")
    then some (record device {
      ssid = ssid;
      freq_mhz = parse_leading_int freq;
      band = band_for (parse_leading_int freq);
      signal_percent = parse_leading_int signal;
      rate_mbps = parse_leading_int rate;
    })
    else none
associated _ device = none

-- The loop over the rows of a device, which the first row in use ends.
unfoldable pub fill_device : List (List ℕ) → Device → Device
unfolding split_fields parse_leading_int band_for
fill_device [] device = device
fill_device (line ∷ lines) device =
    let rest = fill_device lines device in
    elim (associated (split_fields line) device) [ none ↦ rest | some filled ↦ filled ]

abbrev is_dashes : List ℕ → Bool
is_dashes s = same_bytes s (bytes "--")

-- ssid, band and priority of a profile.
abbrev pub Detail : Type 0
Detail = List ℕ × List ℕ × ℕ

abbrev pub no_detail : Detail
no_detail = ([], [], 0)

abbrev set_detail : List ℕ → List ℕ → Detail → Detail
set_detail key value (ssid, band, priority) =
    if same_bytes key (bytes "802-11-wireless.ssid")
    then (value, band, priority)
    else if same_bytes key (bytes "802-11-wireless.band")
    then (ssid, value, priority)
    else if same_bytes key (bytes "connection.autoconnect-priority")
    then (ssid, band, parse_leading_int value)
    else (ssid, band, priority)

abbrev detail_value : List ℕ → List ℕ
detail_value value = if is_dashes (trim_space value) then [] else trim_space value

-- The loop of profileDetail: a later line of a key stands above an earlier one.
unfoldable pub read_detail : List (List ℕ) → Detail → Detail
unfolding parse_leading_int
read_detail [] detail = detail
read_detail (line ∷ lines) detail = elim (split_two 0x3A line) [
  | none ↦ read_detail lines detail
  | some parts ↦ read_detail lines (set_detail parts.0 (detail_value parts.1) detail)
]

abbrev pub profile_from : List (List ℕ) → Detail → Option Profile
profile_from (name ∷ kind ∷ device ∷ rest) detail =
    if contains (bytes "wireless") kind
    then some (record {
      name = name;
      ssid = detail.0;
      band = detail.1;
      device = device;
      active = not (is_empty device) && not (is_dashes device);
      priority = detail.2;
    })
    else none
profile_from _ detail = none

-- The name of the profile of a line, if it is one of a wireless connection.
abbrev pub wireless_name : List (List ℕ) → Option (List ℕ)
wireless_name (name ∷ kind ∷ device ∷ rest) =
    if contains (bytes "wireless") kind then some name else none
wireless_name _ = none

unfoldable pub has_profile : List ℕ → List Profile → Bool
has_profile name [] = false
has_profile name (p ∷ ps) = same_bytes p.name name || has_profile name ps
