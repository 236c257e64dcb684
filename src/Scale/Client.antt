-- ===== src/Scale/Client.antt =====
-- internal/scale/client.go: the client of the scale. The serial port, the clock, the lock and the
-- context are a script: how writes end, what each read gets, and what happens while a weighing waits.
use raku_sika_hub.Prelude.{
  ℕ, zero, suc, ◌+◌, ◌-◌, ◌≡◌, Bool, true, false, not, ◌&&◌, ◌||◌, Option, none, some, List, [],
  ◌∷◌, ◌++◌, ltb, if◌then◌else◌, length, ◌==◌,
}
use raku_sika_hub.Result.{Result, ok, err}
use raku_sika_hub.Scale.Text.{same_bytes, is_empty}
use raku_sika_hub.Scale.Protocol.{
  WeighResult, ParseError, header_st, header_us, header_ol, cmd_weigh, cmd_tare, cmd_zero,
  parse_weigh_response, parse_ack_response,
}
pub mod Induction
pub mod Sound
pub mod Lines
pub mod Weighing
pub mod Panics

-- One turn of the loop that reads a line: the deadline has passed, or what port.Read returns.
pub data Poll : Type 0 where
  late broken idle : Poll
  got : ℕ → Poll

-- `no_port` is no error but the panic of a method call on the nil port. It is handed on like an error,
-- and the handlers end with it; on a client that is sound between its calls it does not arise.
pub data Fault : Type 0 where
  no_port write_failed read_failed timed_out : Fault
  bad_reply : ParseError → Fault

pub data WeighError : Type 0 where
  not_connected context_done overload unstable : WeighError
  port_error : Fault → WeighError
  unexpected_header : List ℕ → WeighError

-- What Tare and Zero return as an error.
pub data AckError : Type 0 where
  ack_not_connected : AckError
  ack_port_error : Fault → AckError
  unexpected_response : List ℕ → AckError

-- The pause between two readings, in which the lock is free: nothing happens, another caller finds
-- the scale gone, or the context is done.
pub data Pause : Type 0 where
  undisturbed lost canceled : Pause

-- `ctx_done` is ctx.Err() != nil at the head of the loop.
pub record Turn : Type 0 where
  pub ctx_done : Bool
  pub pause : Pause

-- What Weigh returns: a *WeighResult and an error.
pub record Reading (F : Type 0) : Type 0 where
  pub reading : Option (WeighResult F)
  pub error : Option WeighError

-- `port_open` is c.port != nil; `cached` is cachedWeigh with cacheTime, in milliseconds. The lists of
-- commands sent, of calls of onStatus and of progress have the newest first.
pub record Client (F : Type 0) : Type 0 where
  pub port_open : Bool
  pub connected : Bool
  pub port_name : List ℕ
  pub cached : Option (WeighResult F × ℕ)
  pub writes : List Bool
  pub polls : List Poll
  pub sent : List (List ℕ)
  pub told : List (Bool × List ℕ)
  pub progress : List ℕ

abbrev pub max_weigh_retries : ℕ
max_weigh_retries = 10

abbrev pub weigh_cache_ttl : ℕ
weigh_cache_ttl = 500

-- The loop of sendCommandLocked. Behind the end of the script the deadline passes.
unfoldable pub read_line : List Poll → List ℕ → Result Fault (List ℕ) × List Poll
read_line [] line = (err timed_out, [])
read_line (late ∷ polls) line = (err timed_out, polls)
read_line (broken ∷ polls) line = (err read_failed, polls)
read_line (idle ∷ polls) line = read_line polls line
read_line (got b ∷ polls) line =
    let rest = read_line polls (line ++ (b ∷ [])) in
    if b == 0x0A then (ok (line ++ (b ∷ [])), polls) else rest

abbrev pub next_write : List Bool → Bool × List Bool
next_write [] = (true, [])
next_write (w ∷ ws) = (w, ws)

abbrev pub next_turn : List Turn → Turn × List Turn
next_turn [] = (record { ctx_done = false; pause = undisturbed }, [])
next_turn (t ∷ ts) = (t, ts)

module _ {F : Type 0} where
  unfoldable pub send_command : List ℕ → Client F → Result Fault (List ℕ) × Client F
  send_command cmd c =
      let (taken, ws) = next_write c.writes in
      let (reply, polls) = read_line c.polls [] in
      if not c.port_open
      then (err no_port, c)
      else if taken
      then (reply, record c { writes = ws; polls = polls; sent = cmd ∷ c.sent })
      else (err write_failed, record c { writes = ws; sent = cmd ∷ c.sent })

  unfoldable pub close_port : Client F → Client F
  close_port c = record c { port_open = false; connected = false; port_name = [] }

  unfoldable pub set_status : Bool → List ℕ → Client F → Client F
  set_status connected port c = record c { told = (connected, port) ∷ c.told }

  -- closePortLocked and setStatusLocked(false, ""), which the code calls together.
  unfoldable pub disconnect : Client F → Client F
  unfolding close_port set_status
  disconnect c = set_status false [] (close_port c)

  unfoldable pub health_check : Client F → Option WeighError × Client F
  health_check c =
      if not c.connected
      then (some not_connected, c)
      else if not c.port_open
      then (some not_connected, disconnect c)
      else (none, c)

  -- Tare and Zero: a command that the scale acknowledges.
  unfoldable pub acknowledge : List ℕ → Client F → Option AckError × Client F
  acknowledge cmd c =
      let (reply, c') = send_command cmd c in
      if not c.connected then (some ack_not_connected, c) else elim reply [
        | err fault ↦ (some (ack_port_error fault), disconnect c')
        | ok resp ↦ elim (parse_ack_response resp) [
          | none ↦ (some (unexpected_response resp), c')
          | some header ↦ (none, c')
        ]
      ]

  unfoldable pub tare : Client F → Option AckError × Client F
  tare c = acknowledge cmd_tare c

  unfoldable pub zero_scale : Client F → Option AckError × Client F
  zero_scale c = acknowledge cmd_zero c

  -- watchdogCheck; the first argument tells whether TryLock takes the lock.
  unfoldable pub watchdog_check : Bool → Client F → Client F
  watchdog_check free c =
      let (first, c') = send_command cmd_weigh c in
      let (again, c'') = send_command cmd_weigh c' in
      if not free
      then c
      else if not c.connected || not c.port_open
      then c
      else elim first [ ok _ ↦ c' | err _ ↦ elim again [ ok _ ↦ c'' | err _ ↦ disconnect c'' ] ]

  -- tryConnect from the name of the port on: whether openPort succeeds, and the name.
  unfoldable pub connect_to : Bool → List ℕ → Client F → Client F
  connect_to opens name c =
      let (reply, c') = send_command cmd_weigh (record c { port_open = true }) in
      if not opens then c else elim reply [
        | err _ ↦ record c' { port_open = false }
        | ok _ ↦ set_status true name (record c' { port_name = name; connected = true })
      ]

  -- tryConnect: the port of the configuration, what DetectPort finds, whether openPort succeeds.
  unfoldable pub try_connect : List ℕ → Option (List ℕ) → Bool → Client F → Client F
  try_connect configured detected opens c =
      if is_empty configured
      then elim detected [ none ↦ c | some name ↦ connect_to opens name c ]
      else connect_to opens configured c

  abbrev pub give_up : WeighError → Reading F
  give_up e = record { reading = none; error = some e }

  module _ (zero_value : F) (parse_float : List ℕ → Option F) where
    unfoldable pub send_weigh : Client F → Result Fault (WeighResult F) × Client F
    send_weigh c =
        let (reply, c') = send_command cmd_weigh c in
        (
          elim reply [
            | err fault ↦ err fault
            | ok resp ↦ elim (parse_weigh_response zero_value parse_float resp) [
              | err e ↦ err (bad_reply e)
              | ok r ↦ ok r
            ]
          ],
          c',
        )

    -- The loop, with the attempts that are left, the one that is made, lastResult, and the time at
    -- which a stable reading is cached.
    unfoldable pub weigh_loop :
        List Turn → ℕ → ℕ → Option (WeighResult F) → ℕ → Client F → Reading F × Client F
    weigh_loop turns zero i last now c = (record { reading = last; error = some unstable }, c)
    weigh_loop turns (suc left) i last now c =
        let (turn, turns') = next_turn turns in
        let (result, c') = send_weigh c in
        let seen = record c' { progress = suc i ∷ c'.progress } in
        if turn.ctx_done then (give_up context_done, c) else elim result [
          | err fault ↦ (give_up (port_error fault), disconnect c')
          | ok r ↦
              let go_on = weigh_loop turns' left (suc i) (some r) now seen in
              if same_bytes r.header header_st
              then (record { reading = some r; error = none }, record c' { cached = some (r, now) })
              else if same_bytes r.header header_ol
              then (give_up overload, c')
              else if same_bytes r.header header_us
              then if left == 0 then go_on else elim turn.pause [
                | undisturbed ↦ go_on
                | lost ↦ (give_up not_connected, disconnect seen)
                | canceled ↦ (give_up context_done, seen)
              ]
              else (give_up (unexpected_header r.header), c')
        ]

    -- Weigh, called at `now` and with `later` on the clock when a stable reading is cached.
    unfoldable pub weigh_port : List Turn → ℕ → Client F → Reading F × Client F
    unfolding weigh_loop
    weigh_port turns later c =
        if c.connected
        then weigh_loop turns max_weigh_retries 0 none later c
        else (give_up not_connected, c)

    unfoldable pub weigh : List Turn → ℕ → ℕ → Client F → Reading F × Client F
    weigh turns now later c =
        let fresh = weigh_port turns later c in
        elim c.cached [
          | none ↦ fresh
          | some kept ↦
              if ltb (now - kept.1) weigh_cache_ttl
              then (record { reading = some kept.0; error = none }, c)
              else fresh
        ]
