-- ===== src/Scanner/Reads.antt =====
-- internal/scanner/client.go: the bytes of the events, in reads of any length.
use raku_sika_hub.Prelude.{
  ℕ, zero, suc, ◌+◌, ◌/◌, ◌%◌, ◌≤◌, ◌≡◌, refl, sym, ap, ◌∙◌, false, Option, none, some, List, [],
  ◌∷◌, ltb, length, All, arith,
}
use raku_sika_hub.Scanner.{
  InputEvent, Reader, Scan, on_event, on_events, on_read, event_at, consume, input_event_size,
}
use raku_sika_hub.Scanner.Typed.{
  IsPrintable, type_text, run_events, idle, stroke, run_events-type_text,
}

-- An event as the kernel writes it, behind the sixteen bytes of its time.
pub record Written : Type 0 where
  pub time : ℕ → ℕ
  pub event : InputEvent

abbrev le16 : ℕ → List ℕ → List ℕ
le16 n rest = (n % 256) ∷ (n / 256) ∷ rest

abbrev four : (ℕ → ℕ) → List ℕ → List ℕ
four t rest = t 0 ∷ t 1 ∷ t 2 ∷ t 3 ∷ rest

abbrev time_bytes : (ℕ → ℕ) → List ℕ → List ℕ
time_bytes t rest =
    four t (four (λ i. t (i + 4)) (four (λ i. t (i + 8)) (four (λ i. t (i + 12)) rest)))

abbrev event_bytes : Written → List ℕ → List ℕ
event_bytes w rest =
    let ev = w.event in
    time_bytes w.time
      (le16 ev.kind (le16 ev.code (le16 (ev.value % 65536) (le16 (ev.value / 65536) rest))))

unfoldable pub read_bytes : List Written → List ℕ
read_bytes [] = []
read_bytes (w ∷ ws) = event_bytes w (read_bytes ws)

event_at-event_bytes : (w : Written) (rest : List ℕ) → event_at (event_bytes w rest) ≡ w.event
event_at-event_bytes w rest = ground arith

-- The events of a read, all at its time.
abbrev run_at : ℕ → List Written → Reader → Reader
run_at now [] r = r
run_at now (w ∷ ws) r = run_at now ws (on_event now w.event r)

on_events-read_bytes :
    (fuel now : ℕ) (ws : List Written) (r : Reader)
    → length (read_bytes ws) ≤ fuel
    → on_events fuel now (read_bytes ws) r ≡ run_at now ws r
unfolding on_events read_bytes
on_events-read_bytes zero now [] r h = refl
on_events-read_bytes zero now (w ∷ ws) r h = absurd (omega arith)
on_events-read_bytes (suc fuel) now [] r h = refl
on_events-read_bytes (suc fuel) now (w ∷ ws) r h =
    let whole : ltb (length (event_bytes w (read_bytes ws))) input_event_size ≡ false =
      ground arith in
    rw whole (
      rw (event_at-event_bytes w (read_bytes ws))
        (on_events-read_bytes fuel now ws (on_event now w.event r) (omega arith)))

on_read-read_bytes :
    (now : ℕ) (ws : List Written) (r : Reader) → on_read now (read_bytes ws) r ≡ run_at now ws r
unfolding on_read
on_read-read_bytes now ws r = on_events-read_bytes (length (read_bytes ws)) now ws r (omega arith)

-- A reader but for the time of its scan.
abbrev untimed_scan : Option Scan → Option Scan
untimed_scan none = none
untimed_scan (some s) = some (record s { at = 0 })

abbrev untimed : Reader → Reader
untimed r = record r { latest = untimed_scan r.latest }

untimed-on_event :
    (now : ℕ) (ev : InputEvent) (r : Reader)
    → untimed (on_event now ev r) ≡ on_event 0 ev (untimed r)
unfolding on_event
untimed-on_event now ev r = ground arith

-- What one read returned, and when.
pub record Read : Type 0 where
  pub at : ℕ
  pub written : List Written

abbrev pub run_reads : List Read → Reader → Reader
run_reads [] r = r
run_reads (read ∷ reads) r = run_reads reads (on_read read.at (read_bytes read.written) r)

abbrev events_then : List Written → List InputEvent → List InputEvent
events_then [] rest = rest
events_then (w ∷ ws) rest = w.event ∷ events_then ws rest

-- The events of all reads.
abbrev pub all_events : List Read → List InputEvent
all_events [] = []
all_events (read ∷ reads) = events_then read.written (all_events reads)

untimed-run_at :
    (now : ℕ) (ws : List Written) (rest : List InputEvent) (r : Reader)
    → run_events (events_then ws rest) (untimed r) ≡ run_events rest (untimed (run_at now ws r))
untimed-run_at now [] rest r = refl
untimed-run_at now (w ∷ ws) rest r =
    ap (run_events (events_then ws rest)) (sym (untimed-on_event now w.event r))
    ∙ untimed-run_at now ws rest (on_event now w.event r)

untimed-run_reads :
    (reads : List Read) (r : Reader)
    → run_events (all_events reads) (untimed r) ≡ untimed (run_reads reads r)
untimed-run_reads [] r = refl
untimed-run_reads (read ∷ reads) r =
    untimed-run_at read.at read.written (all_events reads) r
    ∙ ap (λ (q : Reader). run_events (all_events reads) (untimed q))
        (sym (on_read-read_bytes read.at read.written r))
    ∙ untimed-run_reads reads (on_read read.at (read_bytes read.written) r)

run_events-enter :
    (c : ℕ) (cs : List ℕ) (latest : Option Scan)
    → run_events (stroke 28 []) (idle (c ∷ cs) latest)
      ≡ idle [] (some (record { text = c ∷ cs; at = 0 }))
unfolding on_event
run_events-enter c cs latest = refl

-- The text has arrived, and nothing else is left to consume.
abbrev pub HasArrived : List ℕ → Reader → Type 0
HasArrived text r =
    (at : ℕ) × ((consume r).0 ≡ some (record { text = text; at = at }))
    × ((consume r).1 ≡ idle [] none)

HasArrived-of :
    (text : List ℕ) (r : Reader) (latest : Option Scan)
    → r.latest ≡ latest
    → record r { latest = untimed_scan latest } ≡ idle [] (some (record { text = text; at = 0 }))
    → HasArrived text r
unfolding consume
HasArrived-of text r none l h = absurd (cc)
HasArrived-of text r (some s) l h = (s.at, ground (arith, l, h), ground (arith, h))

-- A printable text that a scanner types on a US keyboard, however its events are cut into reads and whatever their times
-- are, is consumed as it was typed, and once.
pub run_reads-typed :
    (c : ℕ) (cs : List ℕ) (reads : List Read) (latest : Option Scan)
    → All IsPrintable (c ∷ cs)
    → all_events reads ≡ type_text (c ∷ cs)
    → HasArrived (c ∷ cs) (run_reads reads (idle [] latest))
run_reads-typed c cs reads latest p e =
    HasArrived-of (c ∷ cs) (run_reads reads (idle [] latest)) _ refl (
      sym (untimed-run_reads reads (idle [] latest))
      ∙ ap (λ evs. run_events evs (untimed (idle [] latest))) e
      ∙ run_events-type_text (c ∷ cs) [] (untimed_scan latest) p
      ∙ run_events-enter c cs (untimed_scan latest))
