-- ===== src/Scale/Loop.antt =====
-- internal/scale/client.go: reconnectLoop, and the calls that other goroutines make between its turns.
-- Each holds the lock while it touches the port, so they follow one another.
use raku_sika_hub.Prelude.{
  ℕ, ◌≡◌, refl, ◌∙◌, Bool, true, false, not, ◌||◌, Option, none, List, [], ◌∷◌, arith,
  if◌then◌else◌, if_cases,
}
use raku_sika_hub.Result.{ok, err}
use raku_sika_hub.Scale.Client.{
  Fault, Turn, Client, send_command, disconnect, close_port, set_status, health_check, tare,
  zero_scale, watchdog_check, try_connect, weigh,
}
use raku_sika_hub.Scale.Protocol.{cmd_weigh, cmd_tare, cmd_zero}
use raku_sika_hub.Scale.Client.Sound.{
  IsSound, health_check-IsSound, acknowledge-IsSound, watchdog_check-IsSound, try_connect-IsSound,
}
use raku_sika_hub.Scale.Client.Weighing.{weigh-IsSound}
use raku_sika_hub.Scale.Client.Induction.{send_command-Keeps}

-- Weigh, Tare, Zero, HealthCheck, TryConnect or a tick of the reconnect timer, a tick of the watchdog.
pub data Event : Type 0 where
  weighing : List Turn → ℕ → ℕ → Event
  taring zeroing checking : Event
  connecting : List ℕ → Option (List ℕ) → Bool → Event
  watching : Bool → Event

module _ {F : Type 0} where
  -- NewClient: nothing is open yet.
  abbrev pub new_client : Client F
  new_client = record {
    port_open = false;
    connected = false;
    port_name = [];
    cached = none;
    writes = [];
    polls = [];
    sent = [];
    told = [];
    progress = [];
  }

  module _ (zero_value : F) (parse_float : List ℕ → Option F) where
    unfoldable pub step : Event → Client F → Client F
    step (weighing turns now later) c = (weigh zero_value parse_float turns now later c).1
    step taring c = (tare c).1
    step zeroing c = (zero_scale c).1
    step checking c = (health_check c).1
    step (connecting configured detected opens) c =
        if c.connected then c else try_connect configured detected opens c
    step (watching free) c = if c.connected then watchdog_check free c else c

    unfoldable pub run : List Event → Client F → Client F
    unfolding step
    run [] c = c
    run (e ∷ es) c = run es (step e c)

    step-IsSound : (e : Event) (c : Client F) → IsSound c → IsSound (step e c)
    unfolding step tare zero_scale
    step-IsSound (weighing turns now later) c s =
        weigh-IsSound zero_value parse_float turns now later c s
    step-IsSound taring c s = acknowledge-IsSound cmd_tare c s
    step-IsSound zeroing c s = acknowledge-IsSound cmd_zero c s
    step-IsSound checking c s = health_check-IsSound c s
    step-IsSound (connecting configured detected opens) c s =
        if_cases IsSound c.connected (λ _. s)
          (λ off. try_connect-IsSound configured detected opens c off s)
    step-IsSound (watching free) c s =
        if_cases IsSound c.connected (λ _. watchdog_check-IsSound free c s) (λ _. s)

    -- Whatever calls and ticks follow one another, the port stays open exactly while the client counts
    -- as connected, which is what onStatus was told last, and only stable readings are cached.
    pub run-IsSound : (es : List Event) (c : Client F) → IsSound c → IsSound (run es c)
    unfolding run
    run-IsSound [] c s = s
    run-IsSound (e ∷ es) c s = run-IsSound es (step e c) (step-IsSound e c s)

  -- The watchdog gives a connected scale up only after two failed commands.
  watchdog_check-tolerates :
      (free : Bool) (c : Client F)
      → c.connected ≡ true
      → (watchdog_check free c).connected ≡ false
      → (free ≡ true)
        × ((f : Fault) × ((g : Fault) × (((send_command cmd_weigh c).0 ≡ err f)
                × ((send_command cmd_weigh (send_command cmd_weigh c).1).0 ≡ err g))))
  unfolding watchdog_check disconnect close_port set_status
  watchdog_check-tolerates free c on =
      let c' = (send_command cmd_weigh c).1 in
      let c'' = (send_command cmd_weigh c').1 in
      let first = (send_command cmd_weigh c).0 in
      let again = (send_command cmd_weigh c').0 in
      let on' = (send_command-Keeps cmd_weigh c).1.0 ∙ on in
      let on'' = (send_command-Keeps cmd_weigh c').1.0 ∙ on' in
      let Failed =
        (free ≡ true) × ((f : Fault) × ((g : Fault) × ((first ≡ err f) × (again ≡ err g)))) in
      let P = λ (r : Client F). r.connected ≡ false → Failed in
      if_cases P (not free) (λ _ off. absurd (cc))
        λ locked.
          if_cases P (not c.connected || not c.port_open) (λ _ off. absurd (cc))
            λ _.
              (elim first
                  as (λ a.
                    first ≡ a
                    → P (elim a [
                      | ok _ ↦ c'
                      | err _ ↦ elim again [ ok _ ↦ c'' | err _ ↦ disconnect c'' ]
                    ])) [
                      | ok _ ↦ λ e off. absurd (cc)
                      | err f ↦ λ e.
                          (elim again
                              as (λ b.
                                again ≡ b → P (elim b [ ok _ ↦ c'' | err _ ↦ disconnect c'' ])) [
                                  | ok _ ↦ λ d off. absurd (cc)
                                  | err g ↦ λ d _. (ground arith, (f, (g, (e, d))))
                                ])
                            refl
                    ])
                refl
