-- ===== src/Api/Errors/Agree.antt =====
-- internal/httpapi/handler.go and internal/ws/handler.go: the two classifications of an error of the scale.
use raku_sika_hub.Prelude.{
  ℕ, ◌≡◌, refl, Bool, true, false, ◌&&◌, ◌||◌, List, [], ◌∷◌, String, bytes, if◌then◌else◌,
}
use raku_sika_hub.Strings.{contains}
use raku_sika_hub.Label.{mem_text}
use raku_sika_hub.Api.Errors.{http_code, socket_code, last_codes}

-- A text that tells of a write to the port that failed.
abbrev is_port_write : List ℕ → Bool
is_port_write msg = contains (bytes "PORT_ERROR") msg && contains (bytes "write") msg

-- The codes that only the WebSocket one knows, or tells from other texts.
abbrev finer_codes : List String
finer_codes =
    "PERMISSION_DENIED" ∷ "PORT_IN_USE" ∷ "FTDI_NOT_FOUND" ∷ "TARE_FAILED" ∷ "ZERO_FAILED"
    ∷ "UNEXPECTED_RESPONSE" ∷ "UNKNOWN_ERROR" ∷ []

-- The code of HTTP and that of the WebSocket, by whether a write to the port failed: the same one, or
-- that of a failed write, or one of those above where HTTP knows none.
pub data Refines (is_write : Bool) : String → String → Type 0 where
  gone : Refines is_write "SCALE_NOT_CONNECTED" "SCALE_NOT_CONNECTED"
  unsteady : Refines is_write "UNSTABLE" "UNSTABLE"
  overloaded : Refines is_write "OVERLOAD" "OVERLOAD"
  of_port : is_write ≡ false → Refines is_write "PORT_ERROR" "PORT_ERROR"
  of_write : is_write ≡ true → Refines is_write "PORT_ERROR" "SERIAL_WRITE_ERROR"
  denied : is_write ≡ false → Refines is_write "PERMISSION_DENIED" "PERMISSION_DENIED"
  finer :
      (code : String)
      → is_write ≡ false
      → mem_text code finer_codes ≡ true
      → Refines is_write "UNKNOWN_ERROR" code

module _ (more : String) where
  -- The two switches, on how their tests come out.
  refined :
      (no_port unstable over port written no_access eacces : Bool)
      → mem_text more finer_codes ≡ true
      → Refines
          (port && written)
          (if no_port
            then "SCALE_NOT_CONNECTED"
            else if unstable
            then "UNSTABLE"
            else if over
            then "OVERLOAD"
            else if port
            then "PORT_ERROR"
            else if no_access
            then "PERMISSION_DENIED"
            else "UNKNOWN_ERROR")
          (if no_port
            then "SCALE_NOT_CONNECTED"
            else if unstable
            then "UNSTABLE"
            else if over
            then "OVERLOAD"
            else if port && written
            then "SERIAL_WRITE_ERROR"
            else if port
            then "PORT_ERROR"
            else if no_access || eacces
            then "PERMISSION_DENIED"
            else more)
  refined true u o p w d e m = gone
  refined false true o p w d e m = unsteady
  refined false false true p w d e m = overloaded
  refined false false false true true d e m = of_write refl
  refined false false false true false d e m = of_port refl
  refined false false false false w true e m = denied refl
  refined false false false false w false true m = finer "PERMISSION_DENIED" refl refl
  refined false false false false w false false m = finer more refl m

last_codes-known :
    (busy ftdi tare zero_ header : Bool)
    → mem_text
        (if busy
          then "PORT_IN_USE"
          else if ftdi
          then "FTDI_NOT_FOUND"
          else if tare
          then "TARE_FAILED"
          else if zero_
          then "ZERO_FAILED"
          else if header
          then "UNEXPECTED_RESPONSE"
          else "UNKNOWN_ERROR")
        finer_codes
      ≡ true
last_codes-known true f t z h = refl
last_codes-known false true t z h = refl
last_codes-known false false true z h = refl
last_codes-known false false false true h = refl
last_codes-known false false false false true = refl
last_codes-known false false false false false = refl

last_codes-finer : (msg : List ℕ) → mem_text (last_codes msg) finer_codes ≡ true
last_codes-finer msg =
    let says = λ (part : String). contains (bytes part) msg in
    last_codes-known (says "EBUSY" || says "Resource busy") (says "FTDI_NOT_FOUND")
      (says "unexpected tare") (says "unexpected zero") (says "unexpected header")

same_branch :
    (port read : Bool) (x y : String)
    → (if port && read then x else if port then x else y) ≡ (if port then x else y)
same_branch true true x y = refl
same_branch true false x y = refl
same_branch false r x y = refl

-- For every text of an error of the scale the two front ends give the same code, but that a failed write
-- to the port, told by PORT_ERROR and `write`, is PORT_ERROR over HTTP and SERIAL_WRITE_ERROR, and nothing
-- else, over the WebSocket, and that HTTP answers UNKNOWN_ERROR to what the WebSocket tells apart further.
pub socket_code-Refines :
    (msg : List ℕ) → Refines (is_port_write msg) (http_code msg) (socket_code msg)
unfolding http_code socket_code
socket_code-Refines msg =
    rw
      (same_branch (contains (bytes "PORT_ERROR") msg) (contains (bytes "read") msg) "PORT_ERROR" _)
      (refined (last_codes msg) _ _ _ _ _ _ _ (last_codes-finer msg))
