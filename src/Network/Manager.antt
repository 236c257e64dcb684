-- ===== src/Network/Manager.antt =====
-- internal/netadmin/network.go: Status and Activate, on the commands of nmcli that they run.
use raku_sika_hub.Prelude.{
  ℕ, ltb, Bool, true, false, Option, none, some, List, [], ◌∷◌, length, if◌then◌else◌,
}
use raku_sika_hub.Result.{Result, ok, err}
use raku_sika_hub.Scale.Text.{is_empty}
use raku_sika_hub.Scale.Protocol.{trim_space}
use raku_sika_hub.Commands.{M, pure, ◌>>=◌}
use raku_sika_hub.Network.{
  NmcliCommand, list_devices, list_connections, list_wifi, show_connection, connection_up, Nmcli,
  Device, Profile, NetworkStatus, NetworkError, nmcli_failed, no_profile, unknown_profile, Detail,
  split_fields, filled_lines, read_devices, fill_device, no_detail, read_detail, cons_some,
  profile_from, wireless_name, has_profile,
}

module _ (nmcli : Nmcli) where
  unfoldable pub run : NmcliCommand → M NmcliCommand (Result (List ℕ) (List ℕ))
  run command issued = (nmcli.answer issued command, command ∷ issued)

  abbrev filled : Device → Result (List ℕ) (List ℕ) → Device
  filled device (err e) = device
  filled device (ok out) = fill_device (filled_lines out) device

  -- The second loop of Status.
  unfoldable pub fill_devices : List Device → M NmcliCommand (List Device)
  unfolding run fill_device filled_lines
  fill_devices [] = pure []
  fill_devices (device ∷ devices) = do
    list_out ← run (list_wifi device.name)
    rest ← fill_devices devices
    pure (filled device list_out ∷ rest)

  abbrev detailed : Result (List ℕ) (List ℕ) → Detail
  detailed (err e) = no_detail
  detailed (ok out) = read_detail (filled_lines out) no_detail

  unfoldable pub profile_detail : List ℕ → M NmcliCommand Detail
  unfolding run read_detail filled_lines
  profile_detail name = do out ← run (show_connection name); pure (detailed out)

  -- The profile of a line before the others, unless the line is skipped.
  abbrev pub read_profile :
      List (List ℕ)
      → Option (List ℕ)
      → M NmcliCommand (List Profile)
      → M NmcliCommand (List Profile)
  read_profile fields none rest = rest
  read_profile fields (some name) rest = do
    detail ← profile_detail name
    others ← rest
    pure (cons_some (profile_from fields detail) others)

  -- The third loop of Status.
  unfoldable pub read_profiles : List (List ℕ) → M NmcliCommand (List Profile)
  unfolding profile_detail split_fields
  read_profiles [] = pure []
  read_profiles (line ∷ lines) =
      read_profile (split_fields line) (wireless_name (split_fields line)) (read_profiles lines)

  abbrev pub with_profiles :
      List Device → Result (List ℕ) (List ℕ) → M NmcliCommand (Result NetworkError NetworkStatus)
  with_profiles devices (err e) = pure (Result.err (nmcli_failed e))
  with_profiles devices (ok out) = do
    profiles ← read_profiles (filled_lines out)
    pure (
        Result.ok
          (record { devices = devices; profiles = profiles; warned = ltb (length devices) 2 }))

  abbrev pub with_devices :
      Result (List ℕ) (List ℕ) → M NmcliCommand (Result NetworkError NetworkStatus)
  with_devices (err e) = pure (Result.err (nmcli_failed e))
  with_devices (ok out) = do
    devices ← fill_devices (read_devices (filled_lines out))
    connections ← run list_connections
    with_profiles devices connections

  unfoldable pub network_status : M NmcliCommand (Result NetworkError NetworkStatus)
  unfolding run read_devices fill_devices filled_lines read_profiles
  network_status = do devices ← run list_devices; with_devices devices

  abbrev pub brought_up : Result (List ℕ) (List ℕ) → Option NetworkError
  brought_up (err e) = some (nmcli_failed e)
  brought_up (ok out) = none

  abbrev pub activate_known : List ℕ → Bool → M NmcliCommand (Option NetworkError)
  activate_known profile false = pure (some (unknown_profile profile))
  activate_known profile true = do out ← run (connection_up profile); pure (brought_up out)

  abbrev pub activate_in :
      List ℕ → Result NetworkError NetworkStatus → M NmcliCommand (Option NetworkError)
  activate_in profile (err e) = pure (some e)
  activate_in profile (ok status) = activate_known profile (has_profile profile status.profiles)

  -- Activate: none is success.
  unfoldable pub activate : List ℕ → M NmcliCommand (Option NetworkError)
  unfolding run network_status has_profile
  activate profile =
      let name = trim_space profile in
      let asked = do status ← network_status; activate_in name status
      in if is_empty name then pure (some no_profile) else asked
