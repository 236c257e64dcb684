-- ===== src/Scale/Client/Induction.antt =====
-- internal/scale/client.go: what a command leaves as it is, and the ways in which a weighing goes on and ends.
use raku_sika_hub.Prelude.{
  ℕ, zero, suc, ◌≡◌, refl, true, not, ◌==◌, Option, none, some, List, ◌∷◌, if◌then◌else◌, if_cases,
}
use raku_sika_hub.Result.{Result, ok, err}
use raku_sika_hub.Scale.Text.{same_bytes}
use raku_sika_hub.Scale.Protocol.{WeighResult, header_st, header_us, header_ol, cmd_weigh}
use raku_sika_hub.Scale.Client.{
  Fault, not_connected, context_done, overload, unstable, port_error, unexpected_header, Turn,
  undisturbed, lost, canceled, Reading, Client, next_turn, next_write, send_command, disconnect,
  send_weigh, give_up, weigh_loop,
}

module _ {F : Type 0} where
  -- The connection, what was told of it and the cache are the same.
  abbrev pub Keeps : Client F → Client F → Type 0
  Keeps c c' =
      (c'.port_open ≡ c.port_open)
      × ((c'.connected ≡ c.connected) × ((c'.told ≡ c.told) × (c'.cached ≡ c.cached)))

  pub send_command-Keeps : (cmd : List ℕ) (c : Client F) → Keeps c (send_command cmd c).1
  unfolding send_command
  send_command-Keeps cmd c =
      if_cases (λ (r : Result Fault (List ℕ) × Client F). Keeps c r.1) (not c.port_open)
        (λ _. (refl, (refl, (refl, refl))))
        (λ _.
          if_cases (λ (r : Result Fault (List ℕ) × Client F). Keeps c r.1) (next_write c.writes).0
            (λ _. (refl, (refl, (refl, refl)))) (λ _. (refl, (refl, (refl, refl)))))

  module _ (zero_value : F) (parse_float : List ℕ → Option F) where
    pub send_weigh-Keeps : (c : Client F) → Keeps c (send_weigh zero_value parse_float c).1
    unfolding send_weigh
    send_weigh-Keeps c = send_command-Keeps cmd_weigh c

    abbrev pub weighed : Client F → Result Fault (WeighResult F)
    weighed c = (send_weigh zero_value parse_float c).0

    abbrev pub after_weigh : Client F → Client F
    after_weigh c = (send_weigh zero_value parse_float c).1

    -- Progress is told of an unstable reading.
    abbrev pub seen_by : ℕ → Client F → Client F
    seen_by i c = record (after_weigh c) { progress = suc i ∷ (after_weigh c).progress }

    -- Whatever holds of each end of a weighing, and is handed on by each turn, holds of it.
    module _ {ℓ} (P : ℕ → ℕ → Option (WeighResult F) → Client F → Reading F × Client F → Type ℓ)
        (now : ℕ)
        (exhausted : (i : ℕ) (last : Option (WeighResult F)) (c : Client F)
          → P zero i last c (record { reading = last; error = some unstable }, c))
        (done_before : (left i : ℕ) (last : Option (WeighResult F)) (c : Client F)
          → P (suc left) i last c (give_up context_done, c))
        (failing : (left i : ℕ) (last : Option (WeighResult F)) (c : Client F) (f : Fault)
          → weighed c ≡ err f
          → P (suc left) i last c (give_up (port_error f), disconnect (after_weigh c)))
        (settled : (left i : ℕ) (last : Option (WeighResult F)) (c : Client F) (r : WeighResult F)
          → weighed c ≡ ok r
          → same_bytes r.header header_st ≡ true
          → P (suc left) i last c (
            record { reading = some r; error = none },
            record (after_weigh c) { cached = some (r, now) },
          ))
        (over : (left i : ℕ) (last : Option (WeighResult F)) (c : Client F)
          → P (suc left) i last c (give_up overload, after_weigh c))
        (odd : (left i : ℕ) (last : Option (WeighResult F)) (c : Client F) (h : List ℕ)
          → P (suc left) i last c (give_up (unexpected_header h), after_weigh c))
        (again : (left i : ℕ) (last : Option (WeighResult F)) (c : Client F) (r : WeighResult F)
            (out : Reading F × Client F)
          → P left (suc i) (some r) (seen_by i c) out
          → P (suc left) i last c out)
        (dropped : (left i : ℕ) (last : Option (WeighResult F)) (c : Client F)
          → P (suc left) i last c (give_up not_connected, disconnect (seen_by i c)))
        (stopped : (left i : ℕ) (last : Option (WeighResult F)) (c : Client F)
          → P (suc left) i last c (give_up context_done, seen_by i c)) where
      pub weigh_loop_induction :
          (turns : List Turn) (left i : ℕ) (last : Option (WeighResult F)) (c : Client F)
          → P left i last c (weigh_loop zero_value parse_float turns left i last now c)
      unfolding weigh_loop
      weigh_loop_induction turns zero i last c = exhausted i last c
      weigh_loop_induction turns (suc left) i last c =
          let turn = (next_turn turns).0 in
          let turns' = (next_turn turns).1 in
          let rest = λ (r : WeighResult F).
            weigh_loop_induction turns' left (suc i) (some r) (seen_by i c) in
          if_cases (P (suc left) i last c) turn.ctx_done (λ _. done_before left i last c)
            λ _.
              (elim (weighed c)
                  as (λ result.
                    weighed c ≡ result
                    → P (suc left) i last c (elim result [
                      | err fault ↦ (give_up (port_error fault), disconnect (after_weigh c))
                      | ok r ↦
                          let go_on =
                            weigh_loop zero_value parse_float turns' left (suc i) (some r) now
                              (seen_by i c) in
                          if same_bytes r.header header_st
                          then (
                            record { reading = some r; error = none },
                            record (after_weigh c) { cached = some (r, now) },
                          )
                          else if same_bytes r.header header_ol
                          then (give_up overload, after_weigh c)
                          else if same_bytes r.header header_us
                          then if left == 0 then go_on else elim turn.pause [
                            | undisturbed ↦ go_on
                            | lost ↦ (give_up not_connected, disconnect (seen_by i c))
                            | canceled ↦ (give_up context_done, seen_by i c)
                          ]
                          else (give_up (unexpected_header r.header), after_weigh c)
                    ])) [
                      | err fault ↦ λ e. failing left i last c fault e
                      | ok r ↦ λ e.
                          if_cases (P (suc left) i last c) (same_bytes r.header header_st)
                            (λ st. settled left i last c r e st)
                            λ _.
                              if_cases (P (suc left) i last c) (same_bytes r.header header_ol)
                                (λ _. over left i last c)
                                λ _.
                                  if_cases (P (suc left) i last c) (same_bytes r.header header_us)
                                    (λ _.
                                      if_cases (P (suc left) i last c) (left == 0)
                                        (λ _. again left i last c r _ (rest r))
                                        λ _.
                                          elim turn.pause
                                            as (λ p. P (suc left) i last c (elim p [
                                              | undisturbed ↦
                                                  weigh_loop zero_value parse_float turns' left
                                                    (suc i) (some r) now (seen_by i c)
                                              | lost ↦
                                                  (give_up not_connected, disconnect (seen_by i c))
                                              | canceled ↦ (give_up context_done, seen_by i c)
                                            ])) [
                                              | undisturbed ↦ again left i last c r _ (rest r)
                                              | lost ↦ dropped left i last c
                                              | canceled ↦ stopped left i last c
                                            ])
                                    (λ _. odd left i last c r.header)
                    ])
                refl
