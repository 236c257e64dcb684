-- ===== src/Scale/Client/Panics.antt =====
-- internal/scale/client.go: no operation calls a method of a nil port.
use raku_sika_hub.Prelude.{
  ℕ, ◌≡◌, refl, ◌≢◌, ◌∙◌, ap, true, not, ◌==◌, ◌++◌, Option, none, some, List, [], ◌∷◌, arith,
  if_cases,
}
use raku_sika_hub.Result.{Result, ok, err}
use raku_sika_hub.Scale.Protocol.{WeighResult, cmd_weigh, parse_weigh_response, parse_ack_response}
use raku_sika_hub.Scale.Client.{
  Poll, late, broken, idle, got, Fault, no_port, bad_reply, port_error, AckError, ack_port_error,
  unexpected_response, Turn, Client, next_write, read_line, send_command, send_weigh, disconnect,
  acknowledge, weigh,
}
use raku_sika_hub.Scale.Client.Induction.{send_weigh-Keeps, weigh_loop_induction, weighed}
use raku_sika_hub.Scale.Client.Sound.{IsSound}
use raku_sika_hub.Scale.Client.Weighing.{weigh_cases}
use raku_sika_hub.Scale.Client.{max_weigh_retries}

read_line-no_port : (polls : List Poll) (line : List ℕ) → (read_line polls line).0 ≢ err no_port
unfolding read_line
read_line-no_port [] line h = ground arith
read_line-no_port (late ∷ polls) line h = ground arith
read_line-no_port (broken ∷ polls) line h = ground arith
read_line-no_port (idle ∷ polls) line h = read_line-no_port polls line h
read_line-no_port (got b ∷ polls) line h =
    if_cases (λ (r : Result Fault (List ℕ) × List Poll). r.0 ≢ err no_port) (b == 0x0A)
      (λ _ h. ground arith) (λ _. read_line-no_port polls (line ++ (b ∷ []))) h

port_fault : (f : Fault) → some (port_error f) ≡ some (port_error no_port) → f ≡ no_port
port_fault f h = cc

module _ {F : Type 0} where
  send_command-no_port :
      (cmd : List ℕ) (c : Client F) → c.port_open ≡ true → (send_command cmd c).0 ≢ err no_port
  unfolding send_command
  send_command-no_port cmd c on =
      if_cases (λ (r : Result Fault (List ℕ) × Client F). r.0 ≢ err no_port) (not c.port_open)
        (λ off h. absurd (ground arith))
        λ _.
          if_cases (λ (r : Result Fault (List ℕ) × Client F). r.0 ≢ err no_port)
            (next_write c.writes).0 (λ _. read_line-no_port c.polls []) (λ _ h. ground arith)

  -- Between the calls, neither Tare nor Zero calls a method of a nil port.
  acknowledge-no_port :
      (cmd : List ℕ) (c : Client F)
      → IsSound c
      → (acknowledge cmd c).0 ≢ some (ack_port_error no_port)
  unfolding acknowledge
  acknowledge-no_port cmd c s =
      let c' = (send_command cmd c).1 in
      if_cases (λ (r : Option AckError × Client F). r.0 ≢ some (ack_port_error no_port))
        (not c.connected) (λ _ h. ground arith)
        λ on.
          (elim (send_command cmd c).0
              as (λ reply.
                (send_command cmd c).0 ≡ reply
                → (elim reply as (λ _. Option AckError × Client F) [
                  | err fault ↦ (some (ack_port_error fault), disconnect c')
                  | ok resp ↦ elim (parse_ack_response resp) [
                    | none ↦ (some (unexpected_response resp), c')
                    | some header ↦ (none, c')
                  ]
                ]).0
                  ≢ some (ack_port_error no_port)) [
                    | err fault ↦ λ e h.
                        send_command-no_port cmd c (s.0 ∙ ground arith)
                          (e ∙ ap err (fault_of fault h))
                    | ok resp ↦ λ e.
                        elim (parse_ack_response resp)
                          as (λ a.
                            (elim a as (λ _. Option AckError × Client F) [
                              | none ↦ (some (unexpected_response resp), c')
                              | some header ↦ (none, c')
                            ]).0
                            ≢ some (ack_port_error no_port)) [
                              | none ↦ λ h. ground arith
                              | some header ↦ λ h. ground arith
                            ]
                  ])
            refl
    where
      fault_of :
          (fault : Fault)
          → some (ack_port_error fault) ≡ some (ack_port_error no_port)
          → fault ≡ no_port
      fault_of fault h = cc

  module _ (zero_value : F) (parse_float : List ℕ → Option F) where
    weighed-no_port :
        (c : Client F) → c.port_open ≡ true → weighed zero_value parse_float c ≢ err no_port
    unfolding send_weigh
    weighed-no_port c on =
        (elim (send_command cmd_weigh c).0
            as (λ reply.
              (send_command cmd_weigh c).0 ≡ reply
              → (elim reply as (λ _. Result Fault (WeighResult F)) [
                | err fault ↦ err fault
                | ok resp ↦ elim (parse_weigh_response zero_value parse_float resp) [
                  | err e ↦ err (bad_reply e)
                  | ok r ↦ ok r
                ]
              ])
                ≢ err no_port) [
                  | err fault ↦ λ e h. send_command-no_port cmd_weigh c on (cc)
                  | ok resp ↦ λ _.
                      elim (parse_weigh_response zero_value parse_float resp)
                        as (λ p.
                          (elim p as (λ _. Result Fault (WeighResult F)) [
                            | err e ↦ err (bad_reply e)
                            | ok r ↦ ok r
                          ])
                          ≢ err no_port) [ err e ↦ λ h. ground arith | ok r ↦ λ h. ground arith ]
                ])
          refl

    -- Between the calls, Weigh does not call a method of a nil port, in none of its attempts.
    pub weigh-no_port :
        (turns : List Turn) (now later : ℕ) (c : Client F)
        → IsSound c
        → (weigh zero_value parse_float turns now later c).0.error ≢ some (port_error no_port)
    weigh-no_port turns now later c s =
        weigh_cases zero_value parse_float (λ r. r.0.error ≢ some (port_error no_port)) turns now
          later c (λ kept _ h. ground arith)
          (λ on.
            weigh_loop_induction zero_value parse_float
              (λ left i last c r. c.port_open ≡ true → r.0.error ≢ some (port_error no_port)) later
              (λ i last c _ h. ground arith) (λ left i last c _ h. ground arith)
              (λ left i last c f e open_ h. weighed-no_port c open_ (e ∙ ap err (port_fault f h)))
              (λ left i last c r _ st _ h. ground arith) (λ left i last c _ h. ground arith)
              (λ left i last c x _ h. ground arith)
              (λ left i last c r out ih open_.
                ih ((send_weigh-Keeps zero_value parse_float c).0 ∙ open_))
              (λ left i last c _ h. ground arith) (λ left i last c _ h. ground arith) turns
              max_weigh_retries 0 none c (s.0 ∙ on))
          (λ h. ground arith)
