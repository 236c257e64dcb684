-- ===== src/Scale/Client/Weighing.antt =====
-- internal/scale/client.go: what Weigh promises.
use raku_sika_hub.Prelude.{
  ℕ, suc, ◌+◌, ◌-◌, ◌≤◌, ◌≡◌, refl, true, false, not, Option, none, some, List, arith,
  if◌then◌else◌, if_cases, ltb, length,
}
use raku_sika_hub.Result.{Result}
use raku_sika_hub.Scale.Text.{same_bytes}
use raku_sika_hub.Scale.Protocol.{WeighResult, header_st, cmd_weigh}
use raku_sika_hub.Scale.Client.{
  Fault, not_connected, port_error, Turn, Reading, Client, give_up, next_write, send_command,
  send_weigh, disconnect, close_port, set_status, weigh_loop, weigh_port, weigh, max_weigh_retries,
  weigh_cache_ttl,
}
use raku_sika_hub.Scale.Client.Induction.{send_weigh-Keeps, weigh_loop_induction, seen_by}
use raku_sika_hub.Scale.Client.Sound.{last_told, IsSound, Keeps-IsSound, disconnect-IsSound}

module _ {F : Type 0} where
  -- The client gave the scale up: the port is closed, and onStatus was told.
  abbrev pub IsGone : Client F → Type 0
  IsGone c = (c.port_open ≡ false) × ((c.connected ≡ false) × (last_told c.told ≡ false))

  disconnect-IsGone : (c : Client F) → IsGone (disconnect c)
  unfolding disconnect close_port set_status
  disconnect-IsGone c = (refl, (refl, refl))

  -- A result without an error is a stable reading.
  abbrev pub IsSettled : Reading F → Type 0
  IsSettled out =
      out.error ≡ none
      → (r : WeighResult F) × ((out.reading ≡ some r) × (same_bytes r.header header_st ≡ true))

  send_command-sent :
      (cmd : List ℕ) (c : Client F) → length (send_command cmd c).1.sent ≤ suc (length c.sent)
  unfolding send_command
  send_command-sent cmd c =
      if_cases (λ (r : Result Fault (List ℕ) × Client F). length r.1.sent ≤ suc (length c.sent))
        (not c.port_open) (λ _. omega arith)
        (λ _.
          if_cases (λ (r : Result Fault (List ℕ) × Client F). length r.1.sent ≤ suc (length c.sent))
            (next_write c.writes).0 (λ _. omega arith) (λ _. omega arith))

  disconnect-sent : (c : Client F) → (disconnect c).sent ≡ c.sent
  unfolding disconnect close_port set_status
  disconnect-sent c = refl

  module _ (zero_value : F) (parse_float : List ℕ → Option F) where
    abbrev weigh_once : Client F → Result Fault (WeighResult F) × Client F
    weigh_once c = send_weigh zero_value parse_float c

    weigh_once-sent : (c : Client F) → length (weigh_once c).1.sent ≤ suc (length c.sent)
    unfolding send_weigh
    weigh_once-sent c = send_command-sent cmd_weigh c

    weigh_once-IsSound : (c : Client F) → IsSound c → IsSound (weigh_once c).1
    weigh_once-IsSound c s =
        Keeps-IsSound c (weigh_once c).1 (send_weigh-Keeps zero_value parse_float c) s

    weigh_loop-IsSound :
        (turns : List Turn) (left i : ℕ) (last : Option (WeighResult F)) (now : ℕ) (c : Client F)
        → IsSound c
        → IsSound (weigh_loop zero_value parse_float turns left i last now c).1
    weigh_loop-IsSound turns left i last now c =
        weigh_loop_induction zero_value parse_float (λ left i last c r. IsSound c → IsSound r.1) now
          (λ i last c s. s) (λ left i last c s. s)
          (λ left i last c f _ s. disconnect-IsSound (weigh_once c).1 (weigh_once-IsSound c s).1.1)
          (λ left i last c r _ st s. let s' = weigh_once-IsSound c s in (s'.0, (s'.1.0, st)))
          (λ left i last c s. weigh_once-IsSound c s) (λ left i last c h s. weigh_once-IsSound c s)
          (λ left i last c r out ih s. ih (weigh_once-IsSound c s))
          (λ left i last c s. disconnect-IsSound _ (weigh_once-IsSound c s).1.1)
          (λ left i last c s. weigh_once-IsSound c s) turns left i last c

    -- The ways in which Weigh answers.
    pub weigh_cases {ℓ} :
        (P : Reading F × Client F → Type ℓ) (turns : List Turn) (now later : ℕ) (c : Client F)
        → ((kept : WeighResult F × ℕ)
            → c.cached ≡ some kept
            → P (record { reading = some kept.0; error = none }, c))
        → (c.connected ≡ true
            → P (weigh_loop zero_value parse_float turns max_weigh_retries 0 none later c))
        → P (give_up not_connected, c)
        → P (weigh zero_value parse_float turns now later c)
    unfolding weigh weigh_port
    weigh_cases P turns now later c k l n =
        let fresh = weigh_port zero_value parse_float turns later c in
        let read = if_cases P c.connected l (λ _. n) in
        (elim c.cached
            as (λ o.
              c.cached ≡ o
              → P (elim o as (λ _. Reading F × Client F) [
                | none ↦ fresh
                | some kept ↦
                    if ltb (now - kept.1) weigh_cache_ttl
                    then (record { reading = some kept.0; error = none }, c)
                    else fresh
              ])) [
                | none ↦ λ e. read
                | some kept ↦
                    λ e. if_cases P (ltb (now - kept.1) weigh_cache_ttl) (λ _. k kept e) (λ _. read)
              ])
          refl

    pub weigh-IsSound :
        (turns : List Turn) (now later : ℕ) (c : Client F)
        → IsSound c
        → IsSound (weigh zero_value parse_float turns now later c).1
    weigh-IsSound turns now later c s =
        weigh_cases (λ r. IsSound r.1) turns now later c (λ _ _. s)
          (λ _. weigh_loop-IsSound turns max_weigh_retries 0 none later c s) s

    -- If Weigh returns no error, it returns a reading that the scale marked as stable.
    pub weigh-IsSettled :
        (turns : List Turn) (now later : ℕ) (c : Client F)
        → IsSound c
        → IsSettled (weigh zero_value parse_float turns now later c).0
    weigh-IsSettled turns now later c s =
        weigh_cases (λ r. IsSettled r.0) turns now later c
          (λ kept e _. (kept.0, (refl, (rw e at (s.1.1)))))
          (λ _.
            weigh_loop_induction zero_value parse_float (λ left i last c r. IsSettled r.0) later
              (λ i last c h. absurd (ground arith)) (λ left i last c h. absurd (ground arith))
              (λ left i last c f _ h. absurd (ground arith))
              (λ left i last c r _ st _. (r, (refl, st))) (λ left i last c h. absurd (ground arith))
              (λ left i last c x h. absurd (ground arith)) (λ left i last c r out ih. ih)
              (λ left i last c h. absurd (ground arith)) (λ left i last c h. absurd (ground arith))
              turns max_weigh_retries 0 none c)
          (λ h. absurd (ground arith))

    -- If Weigh fails with an error of the port, the port is closed, the client counts as not
    -- connected, and onStatus was told so.
    pub weigh-IsGone :
        (turns : List Turn) (now later : ℕ) (c : Client F) (f : Fault)
        → (weigh zero_value parse_float turns now later c).0.error ≡ some (port_error f)
        → IsGone (weigh zero_value parse_float turns now later c).1
    weigh-IsGone turns now later c f =
        weigh_cases (λ r. r.0.error ≡ some (port_error f) → IsGone r.1) turns now later c
          (λ kept _ h. absurd (ground arith))
          (λ _.
            weigh_loop_induction zero_value parse_float
              (λ left i last c r. r.0.error ≡ some (port_error f) → IsGone r.1) later
              (λ i last c h. absurd (ground arith)) (λ left i last c h. absurd (ground arith))
              (λ left i last c g _ h. disconnect-IsGone (weigh_once c).1)
              (λ left i last c r _ st h. absurd (ground arith))
              (λ left i last c h. absurd (ground arith))
              (λ left i last c x h. absurd (ground arith)) (λ left i last c r out ih. ih)
              (λ left i last c h. absurd (ground arith)) (λ left i last c h. absurd (ground arith))
              turns max_weigh_retries 0 none c)
          (λ h. absurd (ground arith))

    weigh_loop-sent :
        (turns : List Turn) (left i : ℕ) (last : Option (WeighResult F)) (now : ℕ) (c : Client F)
        → length (weigh_loop zero_value parse_float turns left i last now c).1.sent
          ≤ left + length c.sent
    weigh_loop-sent turns left i last now c =
        weigh_loop_induction zero_value parse_float
          (λ left i last c r. length r.1.sent ≤ left + length c.sent) now (λ i last c. omega arith)
          (λ left i last c. omega arith)
          (λ left i last c f _.
            rw (disconnect-sent (weigh_once c).1) (omega (arith, weigh_once-sent c)))
          (λ left i last c r _ st. omega (arith, weigh_once-sent c))
          (λ left i last c. omega (arith, weigh_once-sent c))
          (λ left i last c h. omega (arith, weigh_once-sent c))
          (λ left i last c r out ih. omega (arith, ih, weigh_once-sent c))
          (λ left i last c.
            rw (disconnect-sent (seen_by zero_value parse_float i c))
              (omega (arith, weigh_once-sent c)))
          (λ left i last c. omega (arith, weigh_once-sent c)) turns left i last c

    -- Weigh sends the scale at most ten commands.
    weigh-sent :
        (turns : List Turn) (now later : ℕ) (c : Client F)
        → length (weigh zero_value parse_float turns now later c).1.sent ≤ 10 + length c.sent
    weigh-sent turns now later c =
        weigh_cases (λ r. length r.1.sent ≤ 10 + length c.sent) turns now later c
          (λ _ _. omega arith) (λ _. weigh_loop-sent turns max_weigh_retries 0 none later c)
          (omega arith)
