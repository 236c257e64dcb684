-- ===== src/App.antt =====
-- internal/app/app.go and internal/ws/handler.go: the state of the printer that the hub tells its clients
-- every second when it changes, and the health that it tells every thirty seconds.
pub mod Changes
use raku_sika_hub.Prelude.{
  ℕ, Bool, true, false, not, ◌&&◌, Option, none, some, List, [], ◌∷◌, if◌then◌else◌,
}
use raku_sika_hub.Result.{Result, ok, err}
use raku_sika_hub.Scale.Text.{is_empty, same_bytes}
use raku_sika_hub.Printer.{PrinterStatus, StatusError}
use raku_sika_hub.Printer.Status.{ready}

-- PrinterStatusEvent without the model, and printerState.
pub record PrinterState : Type 0 where
  pub connected : Bool
  pub name : List ℕ

-- PrinterStatusEvent of what Status returns; with an error the status is empty.
unfoldable pub status_event : Result StatusError PrinterStatus → PrinterState
unfolding ready
status_event (err e) = record { connected = false; name = [] }
status_event (ok status) = record {
  connected = ready status;
  name = if is_empty status.selected_name then status.configured_name else status.selected_name;
}

-- printerConnected of the health that runHealthBroadcast tells.
unfoldable pub health_connected : Result StatusError PrinterStatus → Bool
health_connected (err e) = false
health_connected (ok status) = not (is_empty status.selected_name)

abbrev same_flag : Bool → Bool → Bool
same_flag true b = b
same_flag false b = not b

-- current == last.
unfoldable pub same_state : PrinterState → PrinterState → Bool
unfolding same_bytes
same_state s t = same_flag s.connected t.connected && same_bytes s.name t.name

-- A tick: what currentPrinterState returns, and what the event that is broadcast on a change reads again.
pub record Tick : Type 0 where
  pub current : PrinterState
  pub again : PrinterState

-- The loop of runPrinterStatusBroadcast: the events, oldest first.
unfoldable pub status_broadcasts : PrinterState → List Tick → List PrinterState
unfolding same_state
status_broadcasts last [] = []
status_broadcasts last (tick ∷ ticks) =
    let quiet = status_broadcasts last ticks in
    let told = tick.again ∷ status_broadcasts tick.current ticks in
    if same_state tick.current last then quiet else told
