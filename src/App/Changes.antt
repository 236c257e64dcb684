-- ===== src/App/Changes.antt =====
-- internal/app/app.go: what the clients know of the printer.
use raku_sika_hub.Prelude.{
  ℕ, ◌≡◌, refl, sym, ap, ◌∙◌, Bool, true, false, List, [], ◌∷◌, All, if_cases, arith,
}
use raku_sika_hub.Result.{Result, ok, err}
use raku_sika_hub.Strings.Compare.{same_bytes-eq}
use raku_sika_hub.Printer.{PrinterStatus, StatusError}
use raku_sika_hub.Printer.Status.{ready}
use raku_sika_hub.App.{
  PrinterState, status_event, health_connected, same_state, Tick, status_broadcasts,
}

-- The state that stands last.
abbrev pub last_or : PrinterState → List PrinterState → PrinterState
last_or s [] = s
last_or s (t ∷ ts) = last_or t ts

abbrev pub last_read : PrinterState → List Tick → PrinterState
last_read s [] = s
last_read s (t ∷ ts) = last_read t.current ts

abbrev pub IsSteady : Tick → Type 0
IsSteady tick = tick.again ≡ tick.current

same_state_fields :
    (a b : Bool) (m n : List ℕ)
    → same_state (record { connected = a; name = m }) (record { connected = b; name = n }) ≡ true
    → (a ≡ b) × (m ≡ n)
unfolding same_state
same_state_fields true true m n h = (refl, same_bytes-eq m n h)
same_state_fields true false m n h = absurd (cc)
same_state_fields false true m n h = absurd (cc)
same_state_fields false false m n h = (refl, same_bytes-eq m n h)

same_state-eq : (s t : PrinterState) → same_state s t ≡ true → s ≡ t
same_state-eq s t h =
    let (c, n) = same_state_fields s.connected t.connected s.name t.name h in
    λ i. record { connected = c i; name = n i }

-- While the printer does not change between the two readings of a tick, a client that knew the state at the
-- start knows, behind the broadcasts, the state that was read last.
pub last_or-status_broadcasts :
    (start : PrinterState) (ticks : List Tick)
    → All IsSteady ticks
    → last_or start (status_broadcasts start ticks) ≡ last_read start ticks
unfolding status_broadcasts
last_or-status_broadcasts start [] a = refl
last_or-status_broadcasts start (tick ∷ ticks) a =
    if_cases (λ told. last_or start told ≡ last_read tick.current ticks)
      (same_state tick.current start)
      (λ same.
        last_or-status_broadcasts start ticks a.1
        ∙ ap (λ s. last_read s ticks) (sym (same_state-eq tick.current start same)))
      (λ _.
        ap (λ s. last_or s (status_broadcasts tick.current ticks)) a.0
        ∙ last_or-status_broadcasts tick.current ticks a.1)

-- Whenever the status event shows the printer as connected, so does the health.
event-health :
    (found : Result StatusError PrinterStatus)
    → (status_event found).connected ≡ true
    → health_connected found ≡ true
unfolding status_event health_connected ready
event-health (err e) h = absurd (cc)
event-health (ok status) h = ground (arith, h)
