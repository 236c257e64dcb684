-- ===== src/Scanner/Typed.antt =====
-- internal/scanner/client.go: a text that a scanner types arrives as it is.
use raku_sika_hub.Prelude.{
  ℕ, zero, suc, ◌+◌, ◌<◌, ◌≤◌, ◌≡◌, refl, ap, ◌∙◌, Bool, true, false, not, ◌&&◌, Option, List, [],
  ◌∷◌, ◌++◌, ◌==◌, if◌then◌else◌, Bool-cases, inl, inr, All, ==_iff, arith, bytes,
}
use mathlib.Core.List.{append-nil, append_assoc}
use raku_sika_hub.Scanner.{InputEvent, Reader, Scan, on_event}
use raku_sika_hub.Scanner.Keys.{char_of}

-- The US keyboard: in each row the key codes of Linux (KEY_1, KEY_Q, KEY_A, KEY_BACKSLASH, KEY_SPACE)
-- go up by one from the first, and so do the characters that the keys type alone.
abbrev plain_rows : List (ℕ × List ℕ)
plain_rows =
    (2, bytes "1234567890-=")
    ∷ (16, bytes "qwertyuiop[]")
    ∷ (30, bytes "asdfghjkl;'`")
    ∷ (43, bytes "\\zxcvbnm,./")
    ∷ (57, bytes " ")
    ∷ []

-- What the same keys type with a shift key.
abbrev shifted_rows : List (ℕ × List ℕ)
shifted_rows =
    (2, bytes "!@#$%^&*()_+")
    ∷ (16, bytes "QWERTYUIOP{}")
    ∷ (30, bytes "ASDFGHJKL:\"~")
    ∷ (43, bytes "|ZXCVBNM<>?")
    ∷ []

-- The key of a character in a row that starts at a key, or in rows; 0 if it has none.
key_in_row : ℕ → List ℕ → ℕ → ℕ
key_in_row k [] c = 0
key_in_row k (d ∷ ds) c = let more = key_in_row (suc k) ds c in if d == c then k else more

key_in : List (ℕ × List ℕ) → ℕ → ℕ
unfolding key_in_row
key_in [] c = 0
key_in ((k, ds) ∷ rows) c = key_in_row k ds c + key_in rows c

-- A printable character is typed with or without a shift key.
unfoldable pub needs_shift : ℕ → Bool
unfolding key_in
needs_shift c = key_in plain_rows c == 0

unfoldable pub key_for : ℕ → ℕ
unfolding key_in
key_for c = key_in plain_rows c + key_in shifted_rows c

-- A test that every character from `first` on passes, for `count` of them.
every_char : (test : ℕ → Bool) (first count : ℕ) → Bool
every_char test first zero = true
every_char test first (suc count) = test first && every_char test (suc first) count

test-every_char :
    (test : ℕ → Bool) (count first c : ℕ)
    → first ≤ c
    → c < first + count
    → every_char test first count ≡ true
    → test c ≡ true
unfolding every_char
test-every_char test zero first c low high all = absurd (omega arith)
test-every_char test (suc count) first c low high all = elim (Bool-cases (first == c)) [
  | inl same ↦ ground (arith, all, ap test ((==_iff first c).0 same))
  | inr other ↦ ground (arith, all, other, test-every_char test count (suc first) c)
]

-- A character between the space and the tilde.
abbrev pub IsPrintable : ℕ → Type 0
IsPrintable c = (0x20 ≤ c) × (c < 0x7F)

key_table : every_char (λ c. char_of (needs_shift c) (key_for c) == c) 0x20 0x5F ≡ true
unfolding every_char char_of needs_shift key_for
key_table = refl

is_plain : ℕ → Bool
is_plain k = not (k == 28) && not (k == 42) && not (k == 54)

plain_table : every_char (λ c. is_plain (key_for c)) 0x20 0x5F ≡ true
unfolding every_char key_for is_plain
plain_table = refl

abbrev key_event : ℕ → ℕ → InputEvent
key_event code value = record { kind = 1; code = code; value = value }

-- The report that ends each group of events, of another kind.
abbrev sync : InputEvent
sync = record { kind = 0; code = 0; value = 0 }

abbrev pub stroke : ℕ → List InputEvent → List InputEvent
stroke code rest = key_event code 1 ∷ sync ∷ key_event code 0 ∷ sync ∷ rest

-- The events of a character on that keyboard, typed with the left shift key if it needs one.
unfoldable pub type_char : ℕ → List InputEvent → List InputEvent
type_char c rest =
    if needs_shift c
    then key_event 42 1 ∷ sync ∷ stroke (key_for c) (key_event 42 0 ∷ sync ∷ rest)
    else stroke (key_for c) rest

-- The events of a text and the enter key.
unfoldable pub type_text : List ℕ → List InputEvent
unfolding type_char
type_text [] = stroke 28 []
type_text (c ∷ cs) = type_char c (type_text cs)

-- The events one after the other, at one time.
abbrev pub run_events : List InputEvent → Reader → Reader
run_events [] r = r
run_events (ev ∷ evs) r = run_events evs (on_event 0 ev r)

abbrev pub idle : List ℕ → Option Scan → Reader
idle current latest = record { current = current; shifted = false; latest = latest }

key_for-char : (c : ℕ) → IsPrintable c → char_of (needs_shift c) (key_for c) ≡ c
key_for-char c p = (==_iff _ _).0 (test-every_char _ 0x5F 0x20 c p.0 (omega arith) key_table)

key_for-plain : (c : ℕ) → IsPrintable c → is_plain (key_for c) ≡ true
key_for-plain c p = test-every_char _ 0x5F 0x20 c p.0 (omega arith) plain_table

-- A key that is no shift key is pressed, and is released.
on_event-press :
    (k c : ℕ) (r : Reader)
    → is_plain k ≡ true
    → char_of r.shifted k ≡ c
    → 0 < c
    → on_event 0 (key_event k 1) r ≡ record r { current = r.current ++ c ∷ [] }
unfolding on_event is_plain
on_event-press k c r p e pos =
    let l : (k == 42) ≡ false = ground arith in
    let h : (k == 54) ≡ false = ground arith in
    let n : (k == 28) ≡ false = ground arith in
    let z : (c == 0) ≡ false = ground arith in rw l (rw h (rw n (rw e (rw z refl))))

on_event-release : (k : ℕ) (r : Reader) → is_plain k ≡ true → on_event 0 (key_event k 0) r ≡ r
unfolding on_event is_plain
on_event-release k r p =
    let l : (k == 42) ≡ false = ground arith in
    let h : (k == 54) ≡ false = ground arith in rw l (rw h refl)

on_event-sync : (r : Reader) → on_event 0 sync r ≡ r
unfolding on_event
on_event-sync r = refl

run_events-stroke :
    (k c : ℕ) (r : Reader) (rest : List InputEvent)
    → is_plain k ≡ true
    → char_of r.shifted k ≡ c
    → 0 < c
    → run_events (stroke k rest) r ≡ run_events rest (record r { current = r.current ++ c ∷ [] })
run_events-stroke k c r rest p e pos =
    let pressed = record r { current = r.current ++ c ∷ [] } in
    let on = λ (ev : InputEvent) (q : Reader). on_event 0 ev q in
    let go = run_events rest in
    let up = λ (q : Reader). go (on sync (on (key_event k 0) q)) in
    ap (λ (q : Reader). up (on sync q)) (on_event-press k c r p e pos)
    ∙ ap up (on_event-sync pressed)
    ∙ ap (λ (q : Reader). go (on sync q)) (on_event-release k pressed p)
    ∙ ap go (on_event-sync pressed)

-- A shift key is pressed or released, and the report ends.
run_events-shift :
    (value : ℕ) (r : Reader) (rest : List InputEvent)
    → run_events (key_event 42 value ∷ sync ∷ rest) r
      ≡ run_events rest (record r { shifted = value == 1 })
unfolding on_event
run_events-shift value r rest = refl

run_events-type_char :
    (c : ℕ) (current : List ℕ) (latest : Option Scan) (rest : List InputEvent)
    → IsPrintable c
    → run_events (type_char c rest) (idle current latest)
      ≡ run_events rest (idle (current ++ c ∷ []) latest)
unfolding type_char
run_events-type_char c current latest rest p =
    let k = key_for c in
    let plain = key_for-plain c p in
    let char = key_for-char c p in
    elim (Bool-cases (needs_shift c)) [
      | inl e ↦
          let up = key_event 42 0 ∷ sync ∷ rest in
          let held : Reader = record { current = current; shifted = true; latest = latest } in
          let typed : Reader = record {
            current = current ++ c ∷ [];
            shifted = true;
            latest = latest;
          } in
          rw e (
            run_events-shift 1 (idle current latest) (stroke k up)
            ∙ run_events-stroke k c held up plain (rw (← e) char) (omega arith)
            ∙ run_events-shift 0 typed rest)
      | inr e ↦
          rw e
            (run_events-stroke k c (idle current latest) rest plain (rw (← e) char) (omega arith))
    ]

pub run_events-type_text :
    (text current : List ℕ) (latest : Option Scan)
    → All IsPrintable text
    → run_events (type_text text) (idle current latest)
      ≡ run_events (stroke 28 []) (idle (current ++ text) latest)
unfolding type_text
run_events-type_text [] current latest p = rw (append-nil current) refl
run_events-type_text (c ∷ cs) current latest p =
    run_events-type_char c current latest (type_text cs) p.0
    ∙ run_events-type_text cs (current ++ c ∷ []) latest p.1
    ∙ rw (append_assoc current (c ∷ []) cs) refl
