-- ===== src/Config/Listen.antt =====
-- internal/config/config.go: the address that the hub listens on.
use raku_sika_hub.Prelude.{
  ℕ, ◌≡◌, refl, true, false, none, some, List, [], ◌∷◌, ◌++◌, bytes, if_cases, arith, if◌then◌else◌,
}
use raku_sika_hub.Scale.Text.{is_empty}
use raku_sika_hub.Strings.{starts_with, contains}
use raku_sika_hub.Strings.Atoi.{atoi}
use raku_sika_hub.Config.{Config, Environment, trimmed, port_or, apply_env_overrides}

-- An address has a colon before its port.
abbrev pub HasPort : List ℕ → Type 0
HasPort addr = contains (bytes ":") addr ≡ true

contains-append :
    (front back : List ℕ)
    → contains (bytes ":") back ≡ true
    → contains (bytes ":") (front ++ back) ≡ true
contains-append [] back h = h
contains-append (b ∷ bs) back h = ground (arith, contains-append bs back h)

HasPort-starts : (value : List ℕ) → starts_with (bytes ":") value ≡ true → HasPort value
HasPort-starts [] h = absurd (cc)
HasPort-starts (b ∷ bs) h = ground (arith, h)

HasPort-port_or : (value old : List ℕ) → HasPort old → HasPort (port_or value old)
unfolding port_or
HasPort-port_or value old h =
    if_cases HasPort (is_empty value) (λ _. h)
      (λ _.
        (elim (atoi value)
          as (λ o. HasPort (elim o as (λ _. List ℕ) [
            | some n ↦ bytes "0.0.0.0:" ++ value
            | none ↦
                if starts_with (bytes ":") value
                then bytes "0.0.0.0" ++ value
                else if contains (bytes ":") value
                then value
                else old
          ])) [
            | some n ↦ refl
            | none ↦
                if_cases HasPort (starts_with (bytes ":") value)
                  (λ s. contains-append (bytes "0.0.0.0") value (HasPort-starts value s))
                  (λ _. if_cases HasPort (contains (bytes ":") value) (λ c. c) (λ _. h))
          ]))

-- The hub listens on an address with a port whenever the file gives one, and LISTEN_ADDR, if it is set,
-- is one: whatever PORT is, such as the path of a serial device, does not spoil it.
listen_addr-HasPort :
    (env : Environment) (cfg : Config)
    → HasPort cfg.listen_addr
    → (is_empty (trimmed env "LISTEN_ADDR") ≡ false → HasPort (trimmed env "LISTEN_ADDR"))
    → HasPort (apply_env_overrides env cfg).listen_addr
unfolding apply_env_overrides
listen_addr-HasPort env cfg h k =
    if_cases HasPort (is_empty (trimmed env "LISTEN_ADDR"))
      (λ _. HasPort-port_or (trimmed env "PORT") cfg.listen_addr h) k
