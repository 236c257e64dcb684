-- ===== src/Printer/Status.antt =====
-- internal/printer/brother.go: Status and what it calls, Ready, validateStatus and IsAvailable.
pub mod Agree
use raku_sika_hub.Prelude.{
  ℕ, Bool, true, false, not, ◌&&◌, ◌||◌, Option, none, some, List, [], ◌∷◌, if◌then◌else◌, bytes,
  map,
}
use raku_sika_hub.Result
use raku_sika_hub.Result.{Result, ok, err}
use raku_sika_hub.Scale.Text.{is_empty, same_bytes}
use raku_sika_hub.Scale.Protocol.{trim_space}
use raku_sika_hub.Strings.{to_lower}
use raku_sika_hub.Printer.{
  PrinterStatus, Source, from_config, StatusError, lpstat_failed, PrinterError, printer_unavailable,
  no_backend, config_error,
}
use raku_sika_hub.Printer.Names.{
  has, parse_configured_printer_names, resolve_printer, printer_model,
}
use raku_sika_hub.Printer.Lpstat.{
  is_no_destinations_output, parse_available_printers, parse_default_printer,
  parse_printer_device_uri, parse_printer_state_and_backend_error, is_raw_queue,
}
use raku_sika_hub.Printer.Cups.{
  Reading, all_printers, default_printer, printer_info, device_of, long_state, options_of, Command,
  Outcome, Url, Outside, M, pure, ◌>>=◌, read,
}

abbrev pub is_localhost : List ℕ → Bool
is_localhost host =
    let h = to_lower (trim_space host) in
    same_bytes h (bytes "localhost")
    || same_bytes h (bytes "127.0.0.1")
    || same_bytes h (bytes "::1")

abbrev is_from_config : Source → Bool
is_from_config from_config = true
is_from_config _ = false

-- "CUPS に rakuql バックエンドがありません。..."
unfoldable pub no_wrapper_text : List ℕ
no_wrapper_text =
    bytes "CUPS に rakuql バックエンドがありません。raku-sika-ops の switch-printer-backend.sh --to raw をやり直してください"

-- BackendReady and BackendError after a check.
abbrev pub checked : Option (List ℕ) → Bool × List ℕ
checked none = (true, [])
checked (some text) = (false, text)

module _ (outside : Outside) where
  unfoldable pub first_existing_printer : List (List ℕ) → M (List ℕ)
  unfolding read
  first_existing_printer [] = pure []
  first_existing_printer (name ∷ names) = do
    reply ← read outside (printer_info name)
    let rest = first_existing_printer names
    if not reply.failed && has (parse_available_printers reply.out) name then pure name else rest

  abbrev default_of : Outcome → List ℕ
  default_of reply = if reply.failed then [] else parse_default_printer reply.out

  unfoldable pub status_from_all_destinations :
      List ℕ → List (List ℕ) → M (Result StatusError PrinterStatus)
  unfolding read
  status_from_all_destinations configured_name configured = do
    reply ← read outside all_printers
    let failed = Result.err (lpstat_failed reply.reason (trim_space reply.out))
    let rest = do
      default_reply ← read outside default_printer
      let available = parse_available_printers reply.out
      let default_name = default_of default_reply
      let chosen = resolve_printer outside.is_wide configured available default_name
      pure (
          Result.ok (record {
            configured_name = configured_name;
            selected_name = chosen.0;
            default_name = default_name;
            available = available;
            source = chosen.1;
            model = [];
            device_uri = [];
            cups_state = [];
            backend_ready = false;
            backend_error = [];
            raw = false;
          }))
    if reply.failed && not (is_no_destinations_output reply.out) then pure failed else rest

  abbrev pub reach : Url → Option (List ℕ)
  reach url =
      if not (is_localhost url.host)
      then none
      else if not (is_empty url.port)
      then outside.dial url.host url.port
      else if same_bytes url.scheme (bytes "ipp") || same_bytes url.scheme (bytes "ipps")
      then outside.dial url.host (bytes "631")
      else none

  abbrev pub reach_parsed : Result (List ℕ) Url → Option (List ℕ)
  reach_parsed (err text) = some text
  reach_parsed (ok url) = reach url

  -- What keeps the backend of a device from being used, if anything does.
  unfoldable pub check_printer_backend : List ℕ → Option (List ℕ)
  check_printer_backend uri =
      if is_empty (trim_space uri)
      then some (bytes "device URI is empty")
      else reach_parsed (outside.parse_url uri)

  abbrev has_scheme : Result (List ℕ) Url → Bool
  has_scheme (err text) = false
  has_scheme (ok url) = same_bytes url.scheme (bytes "rakuql")

  unfoldable pub uses_ql_backend : List ℕ → Bool
  uses_ql_backend uri = has_scheme (outside.parse_url uri)

  -- A queue of the hub's own backend needs the wrapper, and the printer on USB.
  unfoldable pub ql_backend_state : List ℕ → Bool × List ℕ → Bool × List ℕ
  unfolding no_wrapper_text
  ql_backend_state uri first =
      if not outside.has_wrapper
      then (false, no_wrapper_text)
      else elim (outside.no_device uri) [ none ↦ first | some text ↦ (false, text) ]

  -- BackendReady and BackendError; the second argument is the error that lpstat shows.
  unfoldable pub backend_state : List ℕ → List ℕ → Bool × List ℕ
  unfolding check_printer_backend uses_ql_backend ql_backend_state
  backend_state uri error =
      let first = if is_empty error then checked (check_printer_backend uri) else (false, error) in
      if first.0 && uses_ql_backend uri then ql_backend_state uri first else first

  abbrev uri_of : Outcome → List ℕ
  uri_of reply = if reply.failed then [] else parse_printer_device_uri reply.out

  abbrev state_of : Outcome → List ℕ × List ℕ
  state_of reply =
      if reply.failed && is_empty (trim_space reply.out)
      then ([], reply.reason)
      else parse_printer_state_and_backend_error reply.out

  unfoldable pub read_queue_is_raw : List ℕ → M Bool
  unfolding read
  read_queue_is_raw name = do
    reply ← read outside (options_of name)
    pure (not reply.failed && is_raw_queue reply.out)

  unfoldable pub fill_selected : PrinterStatus → List ℕ → M PrinterStatus
  unfolding read read_queue_is_raw uses_ql_backend backend_state
  fill_selected status name = do
    uri_reply ← read outside (device_of name)
    let uri = uri_of uri_reply
    raw ← (if uses_ql_backend uri then pure true else read_queue_is_raw name)
    state_reply ← read outside (long_state name)
    let state = state_of state_reply
    let backend = backend_state uri state.1
    pure (record status {
      device_uri = uri;
      raw = raw;
      cups_state = state.0;
      backend_ready = backend.0;
      backend_error = backend.1;
    })

  unfoldable pub fill_status : PrinterStatus → M PrinterStatus
  unfolding fill_selected
  fill_status status =
      let name = status.selected_name in
      let named = record status { model = printer_model outside.is_wide name } in
      if is_empty name then pure named else fill_selected named name

  abbrev pub fill_ok : Result StatusError PrinterStatus → M (Result StatusError PrinterStatus)
  fill_ok (err e) = pure (Result.err e)
  fill_ok (ok status) = do filled ← fill_status status; pure (Result.ok filled)

  -- A configured queue that CUPS has.
  abbrev existing_status : List ℕ → List ℕ → PrinterStatus
  existing_status configured_name name = record {
    configured_name = configured_name;
    selected_name = name;
    default_name = [];
    available = name ∷ [];
    source = from_config;
    model = [];
    device_uri = [];
    cups_state = [];
    backend_ready = false;
    backend_error = [];
    raw = false;
  }

  -- Status; the argument is Brother.name.
  unfoldable pub status_of : List ℕ → M (Result StatusError PrinterStatus)
  unfolding first_existing_printer status_from_all_destinations fill_status
  status_of configured_name = do
    let configured = parse_configured_printer_names configured_name
    name ← first_existing_printer configured
    let all = status_from_all_destinations configured_name configured
    found ← (if is_empty name then all else pure (Result.ok (existing_status configured_name name)))
    fill_ok found

-- PrinterStatus.Ready.
unfoldable pub ready : PrinterStatus → Bool
ready status =
    if is_empty status.selected_name
    then false
    else if is_from_config status.source && not (has status.available status.selected_name)
    then false
    else status.backend_ready

-- The errors of validateStatus, by their prefix.
unfoldable pub validate_status : PrinterStatus → Option PrinterError
validate_status status =
    if is_empty status.selected_name
    then some (config_error status)
    else if is_from_config status.source && not (has status.available status.selected_name)
    then some (config_error status)
    else if not status.backend_ready && not (is_empty status.backend_error)
    then some (record { prefix = printer_unavailable; detail = no_backend status })
    else none
