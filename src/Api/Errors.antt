-- ===== src/Api/Errors.antt =====
-- internal/httpapi/handler.go and internal/ws/handler.go: classifyScaleError of both, on the texts that
-- internal/scale/client.go gives its errors. The texts that follow a code are left out.
pub mod Agree
use raku_sika_hub.Prelude.{
  ℕ, Bool, true, false, ◌&&◌, ◌||◌, List, [], ◌∷◌, ◌++◌, String, bytes, if◌then◌else◌,
}
use raku_sika_hub.Strings.{contains}
use raku_sika_hub.Scale.Protocol.{ParseError}
use raku_sika_hub.Scale.Client.{
  Fault, no_port, write_failed, read_failed, timed_out, bad_reply, WeighError, not_connected,
  context_done, overload, unstable, port_error, unexpected_header, AckError, ack_not_connected,
  ack_port_error, unexpected_response,
}

-- The parts that come from outside: the texts of the errors of the port, of ctx.Err() and of
-- ParseWeighResponse, the number of bytes that were read, and %q of a response.
pub record Texts : Type 0 where
  pub write_reason : List ℕ
  pub read_reason : List ℕ
  pub bytes_read : List ℕ
  pub context_reason : List ℕ
  pub parse_reason : ParseError → List ℕ
  pub quoted : List ℕ → List ℕ

module _ (texts : Texts) where
  -- A panic has no text.
  unfoldable pub fault_text : Fault → List ℕ
  fault_text no_port = []
  fault_text write_failed = bytes "write: " ++ texts.write_reason
  fault_text read_failed = bytes "read: " ++ texts.read_reason
  fault_text timed_out = bytes "read timeout (3s) after " ++ texts.bytes_read ++ bytes " bytes"
  fault_text (bad_reply e) = texts.parse_reason e

  unfoldable pub weigh_text : WeighError → List ℕ
  unfolding fault_text
  weigh_text not_connected = bytes "not connected"
  weigh_text context_done = texts.context_reason
  weigh_text overload = bytes "OVERLOAD"
  weigh_text unstable = bytes "UNSTABLE"
  weigh_text (port_error f) = bytes "PORT_ERROR: " ++ fault_text f
  weigh_text (unexpected_header h) = bytes "unexpected header: " ++ h

  -- Of Tare or Zero, the name given.
  unfoldable pub ack_text : String → AckError → List ℕ
  unfolding fault_text
  ack_text name ack_not_connected = bytes "not connected"
  ack_text name (ack_port_error f) = bytes "PORT_ERROR: " ++ fault_text f
  ack_text name (unexpected_response r) =
      bytes "unexpected " ++ bytes name ++ bytes " response: " ++ texts.quoted r

-- classifyScaleError of internal/httpapi.
unfoldable pub http_code : List ℕ → String
http_code msg =
    if contains (bytes "not connected") msg
    then "SCALE_NOT_CONNECTED"
    else if contains (bytes "UNSTABLE") msg
    then "UNSTABLE"
    else if contains (bytes "OVERLOAD") msg
    then "OVERLOAD"
    else if contains (bytes "PORT_ERROR") msg
    then "PORT_ERROR"
    else if contains (bytes "Permission denied") msg
    then "PERMISSION_DENIED"
    else "UNKNOWN_ERROR"

-- Its last cases, for a text that has none of the codes of the scale.
abbrev last_codes : List ℕ → String
last_codes msg =
    if contains (bytes "EBUSY") msg || contains (bytes "Resource busy") msg
    then "PORT_IN_USE"
    else if contains (bytes "FTDI_NOT_FOUND") msg
    then "FTDI_NOT_FOUND"
    else if contains (bytes "unexpected tare") msg
    then "TARE_FAILED"
    else if contains (bytes "unexpected zero") msg
    then "ZERO_FAILED"
    else if contains (bytes "unexpected header") msg
    then "UNEXPECTED_RESPONSE"
    else "UNKNOWN_ERROR"

-- classifyScaleError of internal/ws.
unfoldable pub socket_code : List ℕ → String
socket_code msg =
    if contains (bytes "not connected") msg
    then "SCALE_NOT_CONNECTED"
    else if contains (bytes "UNSTABLE") msg
    then "UNSTABLE"
    else if contains (bytes "OVERLOAD") msg
    then "OVERLOAD"
    else if contains (bytes "PORT_ERROR") msg && contains (bytes "write") msg
    then "SERIAL_WRITE_ERROR"
    else if contains (bytes "PORT_ERROR") msg && contains (bytes "read") msg
    then "PORT_ERROR"
    else if contains (bytes "PORT_ERROR") msg
    then "PORT_ERROR"
    else if contains (bytes "Permission denied") msg || contains (bytes "EACCES") msg
    then "PERMISSION_DENIED"
    else last_codes msg
