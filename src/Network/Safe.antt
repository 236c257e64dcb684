-- ===== src/Network/Safe.antt =====
-- internal/netadmin/network.go: what Activate runs.
use raku_sika_hub.Prelude.{
  ℕ, ◌≡◌, refl, Bool, true, false, Option, none, some, List, [], ◌∷◌, if_cases,
}
use raku_sika_hub.Result.{Result, ok, err}
use raku_sika_hub.Scale.Text.{is_empty}
use raku_sika_hub.Scale.Protocol.{trim_space}
use raku_sika_hub.Commands.{M, Ran, same, more, Runs, running_rules}
use raku_sika_hub.Network.{
  NmcliCommand, list_devices, list_connections, list_wifi, show_connection, connection_up, Nmcli,
  Device, Profile, NetworkStatus, NetworkError, split_fields, has_profile,
}
use raku_sika_hub.Network.Manager.{
  run, fill_devices, profile_detail, read_profile, read_profiles, with_profiles, with_devices,
  network_status, activate_known, activate_in, activate,
}

-- The commands that change nothing.
pub data Lists : NmcliCommand → Type 0 where
  devices : Lists list_devices
  connections : Lists list_connections
  wifi : (name : List ℕ) → Lists (list_wifi name)
  profile : (name : List ℕ) → Lists (show_connection name)

module _ (nmcli : Nmcli) where
  Runs-run : (c : NmcliCommand) → Lists c → Runs Lists (run nmcli c)
  unfolding run
  Runs-run c l issued = more c l same

  Runs-fill_devices : (found : List Device) → Runs Lists (fill_devices nmcli found)
  unfolding fill_devices
  Runs-fill_devices [] = search running_rules
  Runs-fill_devices (d ∷ ds) =
      search (running_rules, Runs-run _ (wifi d.name), Runs-fill_devices ds)

  Runs-profile_detail : (name : List ℕ) → Runs Lists (profile_detail nmcli name)
  unfolding profile_detail
  Runs-profile_detail name = search (running_rules, Runs-run _ (profile name))

  Runs-read_profile :
      (fields : List (List ℕ)) (name : Option (List ℕ)) (rest : M NmcliCommand (List Profile))
      → Runs Lists rest
      → Runs Lists (read_profile nmcli fields name rest)
  Runs-read_profile fields none rest r = r
  Runs-read_profile fields (some name) rest r = search (running_rules, Runs-profile_detail, r)

  Runs-read_profiles : (lines : List (List ℕ)) → Runs Lists (read_profiles nmcli lines)
  unfolding read_profiles
  Runs-read_profiles [] = search running_rules
  Runs-read_profiles (line ∷ lines) =
      Runs-read_profile (split_fields line) _ (read_profiles nmcli lines) (Runs-read_profiles lines)

  Runs-with_profiles :
      (found : List Device) (out : Result (List ℕ) (List ℕ))
      → Runs Lists (with_profiles nmcli found out)
  Runs-with_profiles found (err e) = λ issued. same
  Runs-with_profiles found (ok out) = search (running_rules, Runs-read_profiles)

  Runs-with_devices : (out : Result (List ℕ) (List ℕ)) → Runs Lists (with_devices nmcli out)
  Runs-with_devices (err e) = λ issued. same
  Runs-with_devices (ok out) =
      search (running_rules, Runs-fill_devices, Runs-run _ connections, Runs-with_profiles)

  Runs-network_status : Runs Lists (network_status nmcli)
  unfolding network_status
  Runs-network_status = search (running_rules, Runs-run _ devices, Runs-with_devices)

  -- The name is that of a profile in the status that was read.
  abbrev pub IsSaved : List NmcliCommand → List ℕ → Type 0
  IsSaved before name =
      (status : NetworkStatus) × ((network_status nmcli before).0 ≡ Result.ok status)
      × (has_profile name status.profiles ≡ true)

  -- An error behind commands that change nothing, or the switch as the last command.
  pub data Switches (before : List NmcliCommand) (name : List ℕ)
      : Option NetworkError → List NmcliCommand → Type 0 where
    refused :
        (e : NetworkError) {issued : List NmcliCommand}
        → Ran Lists before issued
        → Switches before name (some e) issued
    switched :
        (answer : Option NetworkError) {issued : List NmcliCommand}
        → IsSaved before name
        → Ran Lists before issued
        → Switches before name answer (connection_up name ∷ issued)

  module _ (before : List NmcliCommand) (name : List ℕ) where
    abbrev later : List NmcliCommand
    later = (network_status nmcli before).1

    activate_known-Switches :
        (known : Bool)
        → (known ≡ true → IsSaved before name)
        → Switches before name
            (activate_known nmcli name known later).0
            (activate_known nmcli name known later).1
    unfolding run
    activate_known-Switches false saved = refused _ (Runs-network_status before)
    activate_known-Switches true saved = switched _ (saved refl) (Runs-network_status before)

    activate_in-Switches :
        (read : Result NetworkError NetworkStatus)
        → (network_status nmcli before).0 ≡ read
        → Switches before name
            (activate_in nmcli name read later).0
            (activate_in nmcli name read later).1
    activate_in-Switches (err e) r = refused _ (Runs-network_status before)
    activate_in-Switches (ok status) r = activate_known-Switches _ (λ known. (status, r, known))

  -- Activate ends with an error behind commands that change nothing, or it brings up, as its last command,
  -- the trimmed name, and that is the name of a saved wireless profile in the status that it read.
  pub activate-Switches :
      (before : List NmcliCommand) (profile_name : List ℕ)
      → Switches before
          (trim_space profile_name)
          (activate nmcli profile_name before).0
          (activate nmcli profile_name before).1
  unfolding activate
  activate-Switches before profile_name =
      if_cases
        (λ (m : M NmcliCommand (Option NetworkError)).
          Switches before (trim_space profile_name) (m before).0 (m before).1)
        (is_empty (trim_space profile_name)) (λ _. refused _ same)
        (λ _. activate_in-Switches before (trim_space profile_name) _ refl)
