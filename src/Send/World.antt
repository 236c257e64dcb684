-- ===== src/Send/World.antt =====
-- internal/printer/qlbackend/send.go: the state that a job's steps share, its result, and the steps
-- that only read or write: writeAll, write, drain, awaitReply and probe.
use raku_sika_hub.Prelude.{
  ℕ, zero, suc, ◌+◌, Bool, true, false, ◌||◌, Option, none, some, List, [], ◌∷◌, ◌++◌, ◌==◌,
  if◌then◌else◌, length, take, drop, replicate,
}
use raku_sika_hub.Status.{
  Status, Message, Reason, type_reply, type_printing_completed, type_error_occurred,
}
use raku_sika_hub.Raster.{invalidate_bytes}

-- What a `select` gets: a frame, the close of the channel, the firing of its own timer, or
-- ctx.Done(). Behind the end of the script nothing arrives any more.
pub data Arrival : Type 0 where
  frame : Status → Arrival
  closed timer canceled : Arrival

-- How a write ends. `interrupted` is a chunk that is not written, since ctx is done before it.
pub data WriteEnd : Type 0 where
  accepted rejected interrupted : WriteEnd

-- What was handed to the device. A command whose write is rejected is `refused`; of a chunk that is
-- rejected the device may have taken a part.
pub data Write : Type 0 where
  reset ask reset_and_ask : Write
  chunk : List ℕ → Write
  refused : Write → Write

abbrev cmd_reset : List ℕ
cmd_reset = replicate invalidate_bytes 0 ++ (0x1B ∷ 0x40 ∷ [])

abbrev cmd_status_request : List ℕ
cmd_status_request = 0x1B ∷ 0x69 ∷ 0x53 ∷ []

unfoldable pub bytes_of : Write → List ℕ
bytes_of reset = cmd_reset
bytes_of ask = cmd_status_request
bytes_of reset_and_ask = cmd_reset ++ cmd_status_request
bytes_of (chunk b) = b
bytes_of (refused b) = []

-- A STATE line for CUPS: reasons set, or all of problemReasons cleared.
pub data StateLine : Type 0 where
  set_reasons : List Reason → StateLine
  clear_reasons : StateLine

-- `ctx_done` is ctx.Err() != nil; `sent` and `states` have the newest first.
pub record World : Type 0 where
  pub arrivals : List Arrival
  pub writes : List WriteEnd
  pub ctx_done : Bool
  pub sent : List Write
  pub states : List StateLine

pub data Outcome : Type 0 where
  printed failed unconfirmed canceled_job : Outcome

-- `outcome` is none for Go's empty string; `message` holds the texts that are joined.
pub record Result : Type 0 where
  pub outcome : Option Outcome
  pub message : List Message
  pub reasons : List Reason
  pub pages : ℕ
  pub completed : ℕ
  pub muted : Bool

-- writeAll outside of `write`: true if there is no error. Past the script's end writes go well.
unfoldable pub write_end : List WriteEnd → WriteEnd × List WriteEnd
write_end [] = (accepted, [])
write_end (e ∷ es) = (e, es)

abbrev pub is_rejected : WriteEnd → Bool
is_rejected rejected = true
is_rejected _ = false

-- What a command leaves in `sent` when its write ends so.
abbrev pub written : Write → WriteEnd → Write
written b e = if is_rejected e then refused b else b

unfoldable pub write_all : Write → World → Bool × World
unfolding write_end
write_all b w =
    let (e, es) = write_end w.writes in
    (if is_rejected e then false else true, record w { writes = es; sent = written b e ∷ w.sent })

-- The chunks of `write`; as much fuel as bytes is enough.
abbrev pub chunk_size : ℕ
chunk_size = 16384

unfoldable pub chunks : ℕ → List ℕ → List (List ℕ)
chunks zero bytes = []
chunks (suc fuel) [] = []
chunks (suc fuel) (b ∷ bytes) =
    take chunk_size (b ∷ bytes) ∷ chunks fuel (drop chunk_size (b ∷ bytes))

-- `write`: ctx is looked at before each chunk.
unfoldable pub write_chunks : List (List ℕ) → World → Bool × World
unfolding write_end
write_chunks [] w = (true, w)
write_chunks (c ∷ cs) w =
    let (e, es) = write_end w.writes in
    if w.ctx_done then (false, w) else elim e [
      | interrupted ↦ (false, record w { writes = es; ctx_done = true })
      | rejected ↦ (false, record w { writes = es; sent = chunk c ∷ w.sent })
      | accepted ↦ write_chunks cs (record w { writes = es; sent = chunk c ∷ w.sent })
    ]

unfoldable pub write : List ℕ → World → Bool × World
write bytes w = write_chunks (chunks (length bytes) bytes) w

-- A wait that does not listen to ctx passes over `canceled`, and later waits know of it.
abbrev pub note_cancel : World → World
note_cancel w = record w { ctx_done = true }

abbrev pub leave : List Arrival → World → World
leave rest w = record w { arrivals = rest }

-- drainFor: reads until a timer fires or the channel closes.
unfoldable pub drain_arrivals : List Arrival → World → World
drain_arrivals [] w = leave [] w
drain_arrivals (frame st ∷ rest) w = drain_arrivals rest w
drain_arrivals (closed ∷ rest) w = leave (closed ∷ rest) w
drain_arrivals (timer ∷ rest) w = leave rest w
drain_arrivals (canceled ∷ rest) w = drain_arrivals rest (note_cancel w)

unfoldable pub drain : World → World
unfolding drain_arrivals
drain w = drain_arrivals w.arrivals w

abbrev pub is_reply : Status → Bool
is_reply st = st.kind == type_reply || st.kind == type_error_occurred

unfoldable pub await_arrivals : List Arrival → World → Option Status × World
await_arrivals [] w = (none, leave [] w)
await_arrivals (frame st ∷ rest) w =
    let next = await_arrivals rest w in if is_reply st then (some st, leave rest w) else next
await_arrivals (closed ∷ rest) w = (none, leave (closed ∷ rest) w)
await_arrivals (timer ∷ rest) w = (none, leave rest w)
await_arrivals (canceled ∷ rest) w = await_arrivals rest (note_cancel w)

unfoldable pub await_reply : World → Option Status × World
unfolding await_arrivals
await_reply w = await_arrivals w.arrivals w

-- probeResult.
pub record Probe : Type 0 where
  pub answer : Option Status
  pub completed : ℕ

unfoldable pub probe_arrivals : List Arrival → ℕ → World → Probe × World
probe_arrivals [] n w = (record { answer = none; completed = n }, leave [] w)
probe_arrivals (frame st ∷ rest) n w =
    let next = probe_arrivals rest (if st.kind == type_printing_completed then n + 1 else n) w in
    if is_reply st then (record { answer = some st; completed = n }, leave rest w) else next
probe_arrivals (closed ∷ rest) n w =
    (record { answer = none; completed = n }, leave (closed ∷ rest) w)
probe_arrivals (timer ∷ rest) n w = (record { answer = none; completed = n }, leave rest w)
probe_arrivals (canceled ∷ rest) n w = probe_arrivals rest n (note_cancel w)

unfoldable pub probe : World → Probe × World
unfolding probe_arrivals
probe w =
    let (ok, w') = write_all ask w in
    if ok then probe_arrivals w'.arrivals 0 w' else (record { answer = none; completed = 0 }, w')
