-- ===== src/Api/Socket/Scales.antt =====
-- internal/ws/handler.go: the dispatch of a message, and the handlers of the scale. What encoding/json
-- makes of a message is given.
use raku_sika_hub.Prelude.{
  ℕ, Bool, not, Option, none, some, List, [], ◌∷◌, ◌++◌, String, str_eq, if◌then◌else◌,
}
use raku_sika_hub.Scale.Text.{is_empty}
use raku_sika_hub.Scale.Protocol.{WeighResult, trim_space}
use raku_sika_hub.Scale.Client.{
  WeighError, AckError, Turn, Client, max_weigh_retries, weigh, tare, zero_scale, health_check,
}
use raku_sika_hub.Api.Scales.{weigh_panics, ack_panics}
use raku_sika_hub.Api.Errors.{Texts, weigh_text, ack_text, socket_code}

-- Request: the type and the id of a request.
pub record Request : Type 0 where
  pub kind : String
  pub request_id : List ℕ

-- What HandleMessage starts for a message, or the code of the error that it sends, with the id.
pub data Handling : Type 0 where
  weighing taring zeroing checking telling testing printing : Handling
  rejected : (code : String) (request_id : List ℕ) → Handling

abbrev dispatch : String → List ℕ → Handling
dispatch kind id =
    if str_eq kind ""
    then rejected "INVALID_REQUEST" id
    else if str_eq kind "weigh"
    then weighing
    else if str_eq kind "tare"
    then taring
    else if str_eq kind "zero"
    then zeroing
    else if str_eq kind "health"
    then checking
    else if str_eq kind "status"
    then telling
    else if str_eq kind "print_test"
    then testing
    else if str_eq kind "print"
    then printing
    else rejected "UNKNOWN_TYPE" id

abbrev handle_decoded : Option Request → Handling
handle_decoded none = rejected "INVALID_REQUEST" []
handle_decoded (some req) = dispatch req.kind req.request_id

unfoldable pub handle_message : List ℕ → Option Request → Handling
handle_message raw decoded =
    if is_empty (trim_space raw) then rejected "INVALID_REQUEST" [] else handle_decoded decoded

-- The messages to the client that asks.
pub data Reply (F : Type 0) : Type 0 where
  error_reply : (code : String) → Reply F
  weighing_reply : (retry max_retry : ℕ) → Reply F
  weight_reply : WeighResult F → Reply F
  tare_ok zero_ok : Reply F
  -- No message: the panic of the client on a nil port.
  panicked : Reply F
  health_ok : (connected : Bool) (port : List ℕ) (printer_connected : Bool) → Reply F

module _ {F : Type 0} where
  abbrev told_progress : List ℕ → List (Reply F)
  told_progress [] = []
  told_progress (n ∷ ns) = told_progress ns ++ weighing_reply n max_weigh_retries ∷ []

  abbrev weight_of : Option (WeighResult F) → List (Reply F)
  weight_of none = []
  weight_of (some r) = weight_reply r ∷ []

  module _ (texts : Texts) where
    -- `ctx_done` is ctx.Err() != nil behind Weigh.
    abbrev weigh_reply : Bool → Option WeighError → Option (WeighResult F) → List (Reply F)
    weigh_reply ctx_done none reading = weight_of reading
    weigh_reply ctx_done (some e) reading =
        (if weigh_panics e
          then panicked
          else error_reply (if ctx_done then "TIMEOUT" else socket_code (weigh_text texts e)))
        ∷ []

    module _ (zero_value : F) (parse_float : List ℕ → Option F) where
      abbrev weigh_now : List Turn → ℕ → ℕ → Bool → Client F → List (Reply F) × Client F
      weigh_now turns now later ctx_done c =
          let (out, c') =
            weigh zero_value parse_float turns now later (record c { progress = [] }) in
          (told_progress c'.progress ++ weigh_reply ctx_done out.error out.reading, c')

      -- handleWeigh: the messages in their order.
      unfoldable pub handle_weigh : List Turn → ℕ → ℕ → Bool → Client F → List (Reply F) × Client F
      unfolding weigh weigh_text socket_code
      handle_weigh turns now later ctx_done c =
          if not c.connected
          then (error_reply "SCALE_NOT_CONNECTED" ∷ [], c)
          else weigh_now turns now later ctx_done c

    abbrev acknowledged : String → Reply F → Option AckError → Reply F
    acknowledged name done none = done
    acknowledged name done (some e) =
        if ack_panics e then panicked else error_reply (socket_code (ack_text texts name e))

    unfoldable pub handle_tare : Client F → Reply F × Client F
    unfolding tare ack_text socket_code
    handle_tare c =
        let (error, c') = tare c in
        if not c.connected
        then (error_reply "SCALE_NOT_CONNECTED", c)
        else (acknowledged "tare" tare_ok error, c')

    unfoldable pub handle_zero : Client F → Reply F × Client F
    unfolding zero_scale ack_text socket_code
    handle_zero c =
        let (error, c') = zero_scale c in
        if not c.connected
        then (error_reply "SCALE_NOT_CONNECTED", c)
        else (acknowledged "zero" zero_ok error, c')

    abbrev health_reply : Bool → Client F → Option WeighError → Reply F
    health_reply printer c none = health_ok c.connected c.port_name printer
    health_reply printer c (some e) =
        if weigh_panics e then panicked else error_reply (socket_code (weigh_text texts e))

    -- handleHealth, with what IsAvailable of the printer says.
    unfoldable pub handle_health : Bool → Client F → Reply F × Client F
    unfolding health_check weigh_text socket_code
    handle_health printer_available c =
        let (error, c') = health_check c in (health_reply printer_available c' error, c')
