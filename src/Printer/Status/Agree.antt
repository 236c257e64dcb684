-- ===== src/Printer/Status/Agree.antt =====
-- internal/printer/brother.go: the two ways to ask whether the printer can be used, Ready for /health and
-- the events, and validateStatus for IsAvailable and the prints.
use raku_sika_hub.Prelude.{
  ℕ, ◌≡◌, refl, sym, ◌⊎◌, inl, inr, Bool, true, false, not, ◌&&◌, ◌||◌, Option, none, some, List,
  arith, if◌then◌else◌, if_cases, bytes,
}
use mathlib.Core.Path.{subst}
use raku_sika_hub.Printer.Names.{printer_model}
use raku_sika_hub.Result.{Result, ok, err}
use raku_sika_hub.Scale.Text.{is_empty, same_bytes}
use raku_sika_hub.Scale.Protocol.{trim_space}
use raku_sika_hub.Printer.{PrinterStatus, StatusError}
use raku_sika_hub.Printer.Cups.{Url, Outside, Command, M}
use raku_sika_hub.Printer.Status.{
  check_printer_backend, ql_backend_state, no_wrapper_text, fill_selected, fill_ok, checked,
  is_localhost, reach, reach_parsed, uses_ql_backend, backend_state, fill_status, status_of, ready,
  validate_status,
}

-- The errors of the standard library and of ResolveDevice have a text.
pub record Speaks (outside : Outside) : Type 0 where
  pub parse_url_speaks :
      (uri text : List ℕ) → outside.parse_url uri ≡ Result.err text → is_empty text ≡ false
  pub dial_speaks :
      (host port text : List ℕ) → outside.dial host port ≡ some text → is_empty text ≡ false
  pub no_device_speaks :
      (uri text : List ℕ) → outside.no_device uri ≡ some text → is_empty text ≡ false

abbrev pub is_none {ℓ} : {A : Type ℓ} → Option A → Bool
is_none none = true
is_none (some a) = false

-- A state of the backend that is not ready says why.
abbrev Told : Bool × List ℕ → Type 0
Told state = state.0 ≡ is_empty state.1

-- An error of a check has a text.
abbrev HasText : Option (List ℕ) → Type 0
HasText none = Unit
HasText (some text) = is_empty text ≡ false

checked-Told : (o : Option (List ℕ)) → HasText o → Told (checked o)
checked-Told none h = refl
checked-Told (some text) h = sym h

HasText-of :
    (o : Option (List ℕ)) → ((text : List ℕ) → o ≡ some text → is_empty text ≡ false) → HasText o
HasText-of none h = tt
HasText-of (some text) h = h text refl

ok-injective :
    (a b : PrinterStatus) → ◌≡◌ {A = Result StatusError PrinterStatus} (ok a) (ok b) → a ≡ b
ok-injective a b h = cc

ready_lem :
    (s : PrinterStatus)
    → (is_empty s.selected_name ≡ true) ⊎ (s.backend_ready ≡ is_empty s.backend_error)
    → ready s ≡ is_none (validate_status s)
unfolding ready validate_status
ready_lem s (inl e) = rw e refl
ready_lem s (inr e) = ground (arith, e)

module _ (outside : Outside) (speaks : Speaks outside) where
  reach-HasText : (url : Url) → HasText (reach outside url)
  reach-HasText url =
      let dialled = λ (port : List ℕ).
        HasText-of (outside.dial url.host port) (speaks.dial_speaks url.host port) in
      if_cases HasText (not (is_localhost url.host)) (λ _. tt)
        (λ _.
          if_cases HasText (not (is_empty url.port)) (λ _. dialled url.port)
            (λ _.
              if_cases HasText
                (same_bytes url.scheme (bytes "ipp") || same_bytes url.scheme (bytes "ipps"))
                (λ _. dialled (bytes "631")) (λ _. tt)))

  reach_parsed-HasText :
      (uri : List ℕ) (r : Result (List ℕ) Url)
      → outside.parse_url uri ≡ r
      → HasText (reach_parsed outside r)
  reach_parsed-HasText uri (err text) e = speaks.parse_url_speaks uri text e
  reach_parsed-HasText uri (ok url) e = reach-HasText url

  check_printer_backend-HasText : (uri : List ℕ) → HasText (check_printer_backend outside uri)
  unfolding check_printer_backend
  check_printer_backend-HasText uri =
      if_cases HasText (is_empty (trim_space uri)) (λ _. refl)
        (λ _. reach_parsed-HasText uri (outside.parse_url uri) refl)

  ql_backend_state-Told :
      (uri : List ℕ) (first : Bool × List ℕ)
      → Told first
      → Told (ql_backend_state outside uri first)
  unfolding ql_backend_state no_wrapper_text
  ql_backend_state-Told uri first t =
      if_cases Told (not outside.has_wrapper) {x = (false, no_wrapper_text)} (λ _. refl)
        (λ _.
          (elim (outside.no_device uri)
              as (λ o.
                outside.no_device uri ≡ o
                → Told
                    (elim o as (λ _. Bool × List ℕ) [ none ↦ first | some text ↦ (false, text) ])) [
                      | none ↦ λ _. t
                      | some text ↦ λ e. sym (speaks.no_device_speaks uri text e)
                    ])
            refl)

  backend_state-Told : (uri error : List ℕ) → Told (backend_state outside uri error)
  unfolding backend_state
  backend_state-Told uri error =
      let check = check_printer_backend outside uri in
      let first = if is_empty error then checked check else (false, error) in
      let t : Told first =
        if_cases Told (is_empty error) (λ _. checked-Told check (check_printer_backend-HasText uri))
          (λ e. sym e) in
      if_cases Told (first.0 && uses_ql_backend outside uri)
        (λ _. ql_backend_state-Told uri first t) (λ _. t)

  -- What Status fills in.
  abbrev IsFilled : PrinterStatus → Type 0
  IsFilled s = (is_empty s.selected_name ≡ true) ⊎ (s.backend_ready ≡ is_empty s.backend_error)

  fill_selected-IsFilled :
      (status : PrinterStatus) (name : List ℕ) (issued : List Command)
      → IsFilled (fill_selected outside status name issued).0
  unfolding fill_selected
  fill_selected-IsFilled status name issued = inr (backend_state-Told _ _)

  fill_status-IsFilled :
      (status : PrinterStatus) (issued : List Command)
      → IsFilled (fill_status outside status issued).0
  unfolding fill_status
  fill_status-IsFilled status issued =
      let name = status.selected_name in
      let named = record status { model = printer_model outside.is_wide name } in
      if_cases (λ (m : M PrinterStatus). IsFilled (m issued).0) (is_empty name) (λ e. inl e)
        (λ _. fill_selected-IsFilled named name issued)

  fill_ok-IsFilled :
      (found : Result StatusError PrinterStatus) (issued : List Command) (status : PrinterStatus)
      → (fill_ok outside found issued).0 ≡ Result.ok status
      → IsFilled status
  fill_ok-IsFilled (err e) issued status h = absurd (cc)
  fill_ok-IsFilled (ok s) issued status h =
      subst IsFilled (ok-injective _ _ h) (fill_status-IsFilled s issued)

  -- In every state that Status returns the two agree: the printer is ready exactly when validateStatus
  -- finds no error.
  pub validate_status-ready :
      (configured_name : List ℕ) (issued : List Command) (status : PrinterStatus)
      → (status_of outside configured_name issued).0 ≡ Result.ok status
      → ready status ≡ is_none (validate_status status)
  unfolding status_of
  validate_status-ready configured_name issued status h =
      ready_lem status (fill_ok-IsFilled _ _ status h)
