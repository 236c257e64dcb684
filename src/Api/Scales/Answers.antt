-- ===== src/Api/Scales/Answers.antt =====
-- internal/httpapi/handler.go: what a weighing answers.
use raku_sika_hub.Prelude.{
  ℕ, ◌+◌, ◌≤◌, ◌<◌, ◌≡◌, ◌≢◌, refl, sym, ap, true, not, Option, none, some, List, [], ◌∷◌, All,
  arith, if_cases, String, bytes,
}
use mathlib.Core.Path.{subst}
use raku_sika_hub.Result.{Result}
use raku_sika_hub.Strings.{contains}
use raku_sika_hub.Scale.Text.{same_bytes}
use raku_sika_hub.Scale.Protocol.{WeighResult, header_st, cmd_weigh}
use raku_sika_hub.Scale.Client.{
  Fault, no_port, write_failed, read_failed, timed_out, bad_reply, WeighError, not_connected,
  context_done, overload, unstable, port_error, unexpected_header, Turn, Reading, Client,
  max_weigh_retries, next_write, send_command, send_weigh, disconnect, close_port, set_status,
  weigh,
}
use raku_sika_hub.Scale.Client.Induction.{weigh_loop_induction, after_weigh}
use raku_sika_hub.Scale.Client.Sound.{IsSound, try_connect-IsSound}
use raku_sika_hub.Scale.Client.Panics.{weigh-no_port}
use raku_sika_hub.Scale.Client.Weighing.{IsSettled, weigh_cases, weigh-IsSettled, weigh-IsSound}
use raku_sika_hub.Api.Errors.{Texts, weigh_text}
use raku_sika_hub.Api.Scales.{
  Answer, unavailable, weighed, weighing, failed, Plug, reconnected, settled_answer, weigh_failed,
  weigh_panics, weigh_answer, handle_scale_weigh,
}

abbrev IsCount : ℕ → Type 0
IsCount n = (0 < n) × (n ≤ max_weigh_retries)

weigh_panics-port : (e : WeighError) → weigh_panics e ≡ true → e ≡ port_error no_port
weigh_panics-port (port_error no_port) h = refl
weigh_panics-port (port_error write_failed) h = absurd (cc)
weigh_panics-port (port_error read_failed) h = absurd (cc)
weigh_panics-port (port_error timed_out) h = absurd (cc)
weigh_panics-port (port_error (bad_reply e)) h = absurd (cc)
weigh_panics-port not_connected h = absurd (cc)
weigh_panics-port context_done h = absurd (cc)
weigh_panics-port overload h = absurd (cc)
weigh_panics-port unstable h = absurd (cc)
weigh_panics-port (unexpected_header e) h = absurd (cc)

module _ {F : Type 0} where
  progress-send_command :
      (cmd : List ℕ) (c : Client F) → (send_command cmd c).1.progress ≡ c.progress
  unfolding send_command
  progress-send_command cmd c =
      if_cases (λ (r : Result Fault (List ℕ) × Client F). r.1.progress ≡ c.progress)
        (not c.port_open) (λ _. refl)
        (λ _.
          if_cases (λ (r : Result Fault (List ℕ) × Client F). r.1.progress ≡ c.progress)
            (next_write c.writes).0 (λ _. refl) (λ _. refl))

  progress-disconnect : (c : Client F) → (disconnect c).progress ≡ c.progress
  unfolding disconnect close_port set_status
  progress-disconnect c = refl

  module _ (zero_value : F) (parse_float : List ℕ → Option F) where
    progress-after_weigh :
        (c : Client F) → (after_weigh zero_value parse_float c).progress ≡ c.progress
    unfolding send_weigh
    progress-after_weigh c = progress-send_command cmd_weigh c

    -- In the loop, what is told as progress counts the attempts.
    abbrev Counts : ℕ → ℕ → Option (WeighResult F) → Client F → Reading F × Client F → Type 0
    Counts left i last c r =
        left + i ≤ max_weigh_retries → All IsCount c.progress → All IsCount r.1.progress

    kept_counts :
        (c c' : Client F)
        → c'.progress ≡ c.progress
        → All IsCount c.progress
        → All IsCount c'.progress
    kept_counts c c' e a = subst (All IsCount) (sym e) a

    weigh_counts :
        (turns : List Turn) (now later : ℕ) (c : Client F)
        → All IsCount c.progress
        → All IsCount (weigh zero_value parse_float turns now later c).1.progress
    weigh_counts turns now later c a =
        let after = λ (d : Client F) (b : All IsCount d.progress).
          kept_counts d (after_weigh zero_value parse_float d) (progress-after_weigh d) b in
        let gone = λ (d : Client F) (b : All IsCount d.progress).
          kept_counts d (disconnect d) (progress-disconnect d) b in
        weigh_cases zero_value parse_float (λ r. All IsCount r.1.progress) turns now later c
          (λ kept e. a)
          (λ _.
            weigh_loop_induction zero_value parse_float Counts later (λ i last c l b. b)
              (λ left i last c l b. b) (λ left i last c f e l b. gone _ (after c b))
              (λ left i last c r e st l b. after c b) (λ left i last c l b. after c b)
              (λ left i last c h l b. after c b)
              (λ left i last c r out ih l b.
                ih (omega (arith, l)) ((omega arith, omega (arith, l)), after c b))
              (λ left i last c l b. gone _ ((omega arith, omega (arith, l)), after c b))
              (λ left i last c l b. ((omega arith, omega (arith, l)), after c b)) turns
              max_weigh_retries 0 none c (omega arith) a)
          a

  -- What a weighing may answer: a reading that is stable, one that is not behind one to ten attempts, or
  -- the code of an error.
  pub data IsProper : Answer F → Type 0 where
    absent : IsProper unavailable
    stable : (r : WeighResult F) → same_bytes r.header header_st ≡ true → IsProper (weighed r)
    unsteady :
        (retry : ℕ) (last : Option (WeighResult F))
        → 0 < retry
        → retry ≤ max_weigh_retries
        → IsProper (weighing retry max_weigh_retries last)
    coded : (code : String) → IsProper (failed code)

  module _ (texts : Texts) where
    weigh_failed-IsProper :
        (e : WeighError) (last : Option (WeighResult F)) (progress : List ℕ)
        → some e ≢ some (port_error no_port)
        → All IsCount progress
        → IsProper (weigh_failed texts e last progress)
    weigh_failed-IsProper e last [] ported a =
        if_cases IsProper (weigh_panics e) (λ p. absurd (ported (ap some (weigh_panics-port e p))))
          (λ _. coded _)
    weigh_failed-IsProper e last (n ∷ ns) ported a =
        if_cases IsProper (weigh_panics e) (λ p. absurd (ported (ap some (weigh_panics-port e p))))
          (λ _.
            if_cases IsProper (contains (bytes "UNSTABLE") (weigh_text texts e))
              (λ _. unsteady n last a.0.0 a.0.1) (λ _. coded _))

    weigh_answer-IsProper :
        (error : Option WeighError) (reading : Option (WeighResult F)) (progress : List ℕ)
        → IsSettled (record { reading = reading; error = error })
        → error ≢ some (port_error no_port)
        → All IsCount progress
        → IsProper (weigh_answer texts error reading progress)
    weigh_answer-IsProper none reading progress s ported a =
        let (r, (e, st)) = s refl in subst (λ o. IsProper (settled_answer o)) (sym e) (stable r st)
    weigh_answer-IsProper (some e) reading progress s ported a =
        weigh_failed-IsProper e reading progress ported a

    module _ (zero_value : F) (parse_float : List ℕ → Option F) (plug : Plug) where
      reconnected-IsSound : (c : Client F) → IsSound c → IsSound (reconnected plug c)
      unfolding reconnected
      reconnected-IsSound c s =
          if_cases IsSound c.connected (λ _. s)
            (λ off. try_connect-IsSound plug.configured plug.detected plug.opens c off s)

      -- Between the calls, a weighing over HTTP answers 503, a stable reading, one that is not stable with
      -- one to ten attempts of ten, or the code of an error; it panics neither on a reading that is not
      -- there nor on a nil port, and the client stays sound.
      pub handle_scale_weigh-IsProper :
          (turns : List Turn) (now later : ℕ) (c : Client F)
          → IsSound c
          → IsProper (handle_scale_weigh texts zero_value parse_float plug turns now later c).0
            × IsSound (handle_scale_weigh texts zero_value parse_float plug turns now later c).1
      unfolding handle_scale_weigh
      handle_scale_weigh-IsProper turns now later c s =
          let there = reconnected plug c in
          let there-IsSound = reconnected-IsSound c s in
          let fresh : Client F = record there { progress = [] } in
          if_cases (λ (r : Answer F × Client F). IsProper r.0 × IsSound r.1) (not there.connected)
            (λ _. (absent, there-IsSound))
            (λ _. (
              weigh_answer-IsProper _ _ _
                  (weigh-IsSettled zero_value parse_float turns now later fresh there-IsSound)
                  (weigh-no_port zero_value parse_float turns now later fresh there-IsSound)
                  (weigh_counts zero_value parse_float turns now later fresh tt),
              weigh-IsSound zero_value parse_float turns now later fresh there-IsSound,
            ))
