-- ===== src/Api/Scales.antt =====
-- internal/httpapi/handler.go: the handlers of the scale. A request has the POST method, and its context
-- and the port are the scripts of the client.
pub mod Answers
use raku_sika_hub.Prelude.{
  ℕ, Bool, true, false, not, ◌&&◌, Option, none, some, List, [], ◌∷◌, String, bytes, if◌then◌else◌,
}
use raku_sika_hub.Strings.{contains}
use raku_sika_hub.Scale.Protocol.{WeighResult}
use raku_sika_hub.Scale.Client.{
  Fault, no_port, WeighError, port_error, AckError, ack_port_error, Turn, Reading, Client,
  max_weigh_retries, try_connect, weigh, tare, zero_scale, health_check,
}
use raku_sika_hub.Api.Errors.{Texts, weigh_text, ack_text, http_code, socket_code}

-- The answers: 503 for a scale that is not there, a reading, a reading that is not stable with the count
-- of attempts, an acknowledgement, and 500 with a code. `panicked` is a panic of the handler.
pub data Answer (F : Type 0) : Type 0 where
  unavailable acknowledged panicked : Answer F
  weighed : WeighResult F → Answer F
  weighing : (retry max_retry : ℕ) → Option (WeighResult F) → Answer F
  failed : (code : String) → Answer F

-- What DetectPort finds and whether the port opens, for TryConnect.
pub record Plug : Type 0 where
  pub configured : List ℕ
  pub detected : Option (List ℕ)
  pub opens : Bool

-- The calls of onProgress in this request.
abbrev pub in_progress : List ℕ → Bool
in_progress [] = false
in_progress (n ∷ ns) = true

abbrev pub last_retry : List ℕ → ℕ
last_retry [] = 0
last_retry (n ∷ ns) = n

-- An error that is a panic of the client, on the nil port, has no answer.
abbrev is_panic : Fault → Bool
is_panic no_port = true
is_panic _ = false

abbrev pub weigh_panics : WeighError → Bool
weigh_panics (port_error f) = is_panic f
weigh_panics _ = false

abbrev pub ack_panics : AckError → Bool
ack_panics (ack_port_error f) = is_panic f
ack_panics _ = false

module _ {F : Type 0} where
  -- TryConnect, which does nothing to a client that is connected.
  unfoldable pub reconnected : Plug → Client F → Client F
  unfolding try_connect
  reconnected plug c =
      if c.connected then c else try_connect plug.configured plug.detected plug.opens c

  abbrev pub settled_answer : Option (WeighResult F) → Answer F
  settled_answer none = panicked
  settled_answer (some r) = weighed r

  module _ (texts : Texts) where
    abbrev pub weigh_failed : WeighError → Option (WeighResult F) → List ℕ → Answer F
    weigh_failed e reading progress =
        if weigh_panics e
        then panicked
        else if in_progress progress && contains (bytes "UNSTABLE") (weigh_text texts e)
        then weighing (last_retry progress) max_weigh_retries reading
        else failed (http_code (weigh_text texts e))

    abbrev pub weigh_answer : Option WeighError → Option (WeighResult F) → List ℕ → Answer F
    weigh_answer none reading progress = settled_answer reading
    weigh_answer (some e) reading progress = weigh_failed e reading progress

    abbrev pub ack_answer : String → Option AckError → Answer F
    ack_answer name none = acknowledged
    ack_answer name (some e) =
        if ack_panics e then panicked else failed (http_code (ack_text texts name e))

    module _ (zero_value : F) (parse_float : List ℕ → Option F) (plug : Plug) where
      abbrev pub weigh_connected : List Turn → ℕ → ℕ → Client F → Answer F × Client F
      weigh_connected turns now later c =
          let (out, c') =
            weigh zero_value parse_float turns now later (record c { progress = [] }) in
          (weigh_answer out.error out.reading c'.progress, c')

      unfoldable pub handle_scale_weigh : List Turn → ℕ → ℕ → Client F → Answer F × Client F
      unfolding reconnected weigh weigh_text http_code
      handle_scale_weigh turns now later c =
          let there = reconnected plug c in
          if not there.connected
          then (unavailable, there)
          else weigh_connected turns now later there

    module _ (plug : Plug) where
      unfoldable pub handle_scale_tare : Client F → Answer F × Client F
      unfolding reconnected tare ack_text http_code
      handle_scale_tare c =
          let there = reconnected plug c in
          let (error, c') = tare there in
          if not there.connected then (unavailable, there) else (ack_answer "tare" error, c')

      unfoldable pub handle_scale_zero : Client F → Answer F × Client F
      unfolding reconnected zero_scale ack_text http_code
      handle_scale_zero c =
          let there = reconnected plug c in
          let (error, c') = zero_scale there in
          if not there.connected then (unavailable, there) else (ack_answer "zero" error, c')
