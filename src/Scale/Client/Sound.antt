-- ===== src/Scale/Client/Sound.antt =====
-- internal/scale/client.go: what holds of the client between the calls, reconnectLoop's turns included.
use raku_sika_hub.Prelude.{
  ℕ, ◌≡◌, refl, sym, ◌∙◌, ap, Bool, true, false, not, ◌||◌, Option, none, some, List, [], ◌∷◌,
  if_cases,
}
use raku_sika_hub.Result.{ok, err}
use raku_sika_hub.Scale.Text.{same_bytes, is_empty}
use raku_sika_hub.Scale.Protocol.{WeighResult, header_st, cmd_weigh, parse_ack_response}
use raku_sika_hub.Scale.Client.{
  WeighError, AckError, Client, send_command, disconnect, close_port, set_status, health_check,
  acknowledge, watchdog_check, connect_to, try_connect, unexpected_response, ack_port_error,
}
use raku_sika_hub.Scale.Client.Induction.{Keeps, send_command-Keeps}

-- What onStatus was told last: at first nothing, which is as good as not connected.
abbrev pub last_told : List (Bool × List ℕ) → Bool
last_told [] = false
last_told (t ∷ ts) = t.0

module _ {F : Type 0} where
  -- Only stable readings are cached.
  abbrev pub CacheIsStable : Option (WeighResult F × ℕ) → Type 0
  CacheIsStable none = Unit {0}
  CacheIsStable (some kept) = same_bytes kept.0.header header_st ≡ true

  -- The port is open exactly while the client counts as connected, which is what onStatus was told
  -- last, and a cached reading is stable.
  abbrev pub IsSound : Client F → Type 0
  IsSound c =
      (c.port_open ≡ c.connected) × ((last_told c.told ≡ c.connected) × CacheIsStable c.cached)

  pub Keeps-IsSound : (c c' : Client F) → Keeps c c' → IsSound c → IsSound c'
  Keeps-IsSound c c' k s =
      (k.0 ∙ s.0 ∙ sym k.1.0, (ap last_told k.1.1.0 ∙ s.1.0 ∙ sym k.1.0, rw k.1.1.1 s.1.1))

  pub disconnect-IsSound : (c : Client F) → CacheIsStable c.cached → IsSound (disconnect c)
  unfolding disconnect close_port set_status
  disconnect-IsSound c s = (refl, (refl, s))

  command-IsSound : (cmd : List ℕ) (c : Client F) → IsSound c → IsSound (send_command cmd c).1
  command-IsSound cmd c s = Keeps-IsSound c (send_command cmd c).1 (send_command-Keeps cmd c) s

  pub health_check-IsSound : (c : Client F) → IsSound c → IsSound (health_check c).1
  unfolding health_check
  health_check-IsSound c s =
      if_cases (λ (r : Option WeighError × Client F). IsSound r.1) (not c.connected) (λ _. s)
        λ _.
          if_cases (λ (r : Option WeighError × Client F). IsSound r.1) (not c.port_open)
            (λ _. disconnect-IsSound c s.1.1) (λ _. s)

  pub acknowledge-IsSound :
      (cmd : List ℕ) (c : Client F) → IsSound c → IsSound (acknowledge cmd c).1
  unfolding acknowledge
  acknowledge-IsSound cmd c s =
      let c' = (send_command cmd c).1 in
      let s' = command-IsSound cmd c s in
      if_cases (λ (r : Option AckError × Client F). IsSound r.1) (not c.connected) (λ _. s)
        λ _.
          elim (send_command cmd c).0
            as (λ reply.
              IsSound
                (elim reply as (λ _. Option AckError × Client F) [
                  | err fault ↦ (some (ack_port_error fault), disconnect c')
                  | ok resp ↦ elim (parse_ack_response resp) [
                    | none ↦ (some (unexpected_response resp), c')
                    | some header ↦ (none, c')
                  ]
                ]).1) [
                  | err fault ↦ disconnect-IsSound c' s'.1.1
                  | ok resp ↦
                      elim (parse_ack_response resp)
                        as (λ a.
                          IsSound
                            (elim a as (λ _. Option AckError × Client F) [
                              | none ↦ (some (unexpected_response resp), c')
                              | some header ↦ (none, c')
                            ]).1) [ none ↦ s' | some header ↦ s' ]
                ]

  pub watchdog_check-IsSound :
      (free : Bool) (c : Client F) → IsSound c → IsSound (watchdog_check free c)
  unfolding watchdog_check
  watchdog_check-IsSound free c s =
      let c' = (send_command cmd_weigh c).1 in
      let c'' = (send_command cmd_weigh c').1 in
      let s' = command-IsSound cmd_weigh c s in
      let s'' = command-IsSound cmd_weigh c' s' in
      if_cases IsSound (not free) (λ _. s)
        λ _.
          if_cases IsSound (not c.connected || not c.port_open) (λ _. s)
            λ _.
              elim (send_command cmd_weigh c).0
                as (λ first. IsSound (elim first [
                  | ok _ ↦ c'
                  | err _ ↦ elim (send_command cmd_weigh c').0 [
                    | ok _ ↦ c''
                    | err _ ↦ disconnect c''
                  ]
                ])) [
                  | ok _ ↦ s'
                  | err _ ↦
                      elim (send_command cmd_weigh c').0
                        as (λ again. IsSound (elim again [ ok _ ↦ c'' | err _ ↦ disconnect c'' ])) [
                          | ok _ ↦ s''
                          | err _ ↦ disconnect-IsSound c'' s''.1.1
                        ]
                ]

  connect_to-IsSound :
      (opens : Bool) (name : List ℕ) (c : Client F)
      → c.connected ≡ false
      → IsSound c
      → IsSound (connect_to opens name c)
  unfolding connect_to set_status
  connect_to-IsSound opens name c off s =
      let c₀ = record c { port_open = true } in
      let c' = (send_command cmd_weigh c₀).1 in
      let k = send_command-Keeps cmd_weigh c₀ in
      if_cases IsSound (not opens) (λ _. s)
        λ _.
          elim (send_command cmd_weigh c₀).0
            as (λ reply. IsSound (elim reply as (λ _. Client F) [
              | err _ ↦ record c' { port_open = false }
              | ok _ ↦ set_status true name (record c' { port_name = name; connected = true })
            ])) [
              | err _ ↦
                  (sym (k.1.0 ∙ off), (ap last_told k.1.1.0 ∙ s.1.0 ∙ sym k.1.0, rw k.1.1.1 s.1.1))
              | ok _ ↦ (k.0, (refl, rw k.1.1.1 s.1.1))
            ]

  pub try_connect-IsSound :
      (configured : List ℕ) (detected : Option (List ℕ)) (opens : Bool) (c : Client F)
      → c.connected ≡ false
      → IsSound c
      → IsSound (try_connect configured detected opens c)
  unfolding try_connect
  try_connect-IsSound configured none opens c off s =
      if_cases IsSound (is_empty configured) (λ _. s)
        (λ _. connect_to-IsSound opens configured c off s)
  try_connect-IsSound configured (some name) opens c off s =
      if_cases IsSound (is_empty configured) (λ _. connect_to-IsSound opens name c off s)
        (λ _. connect_to-IsSound opens configured c off s)
