-- ===== src/Frames/Chunks.antt =====
-- internal/printer/qlbackend/device.go: the frames found do not depend on how the bytes arrive.
use raku_sika_hub.Prelude.{
  ℕ, zero, suc, ◌+◌, ◌≤◌, ◌<◌, ◌≡◌, refl, sym, ap, ◌∙◌, inl, inr, none, List, [], ◌∷◌, ◌++◌, arith,
  ltb, length, take, drop, Bool-cases, Option-cases, length-append, length-drop, take-append_le,
  drop-append_le,
}
use mathlib.Core.List.{append-nil, append_assoc}
use raku_sika_hub.Status.{Status, parse_status, status_size}
use raku_sika_hub.Frames.{
  find_mark, keep_tail, push, extract_fuel, extract, Read, idle, received, failed, read_frames,
}
use raku_sika_hub.Frames.Buffer.{
  ltb-false→le, find_mark-le, find_mark-append, find_mark-keep_tail, keep_tail-keep_tail,
  extract-none, extract-short, extract-frame, extract_fuel_enough, push-after, push-rest,
  extract-marked, after,
}

length-keep_tail : (buf : List ℕ) → length (keep_tail buf) ≤ length buf
unfolding keep_tail
length-keep_tail [] = omega arith
length-keep_tail (b ∷ []) = ground arith
length-keep_tail (b ∷ c ∷ rest) = omega (arith, length-keep_tail (c ∷ rest))

extract-tail :
    (f g : ℕ) (buf more : List ℕ)
    → find_mark buf ≡ none
    → length buf + length more < suc f
    → length buf + length more < suc g
    → extract_fuel (suc f) (buf ++ more) ≡ extract_fuel (suc g) (keep_tail buf ++ more)
extract-tail f g buf more e hf hg =
    let same = find_mark-keep_tail buf more e in
    elim (Option-cases (find_mark (buf ++ more))) [
      | inl n ↦
          extract-none f (buf ++ more) n
          ∙ ap (λ t. ([], t)) (keep_tail-keep_tail buf more)
          ∙ sym (extract-none g (keep_tail buf ++ more) (sym same ∙ n))
      | inr (s, m) ↦
          extract-marked f g (buf ++ more) (keep_tail buf ++ more) m (sym same ∙ m)
            (omega (arith, length-append buf more))
            (omega (arith, length-append (keep_tail buf) more, length-keep_tail buf))
    ]

-- The bytes of two pieces give the frames of the first piece, and then those of what it left
-- together with the second.
extract_fuel-append :
    (f g : ℕ) (buf more : List ℕ)
    → length buf + length more < f
    → length buf + length more < g
    → extract_fuel f (buf ++ more)
      ≡ after (extract_fuel f buf).0 (extract_fuel g ((extract_fuel f buf).1 ++ more))
extract_fuel-append zero g buf more hf hg = absurd (omega arith)
extract_fuel-append (suc f) zero buf more hf hg = absurd (omega arith)
extract_fuel-append (suc f) (suc g) buf more hf hg = elim (Option-cases (find_mark buf)) [
  | inl e ↦ rw (extract-none f buf e) (extract-tail f g buf more e hf hg)
  | inr (s, e) ↦ elim (Bool-cases (ltb (length s) status_size)) [
    | inl t ↦ rw (extract-short f buf s e (ground arith)) (
        extract-marked f g (buf ++ more) (s ++ more) (find_mark-append buf more e)
          (find_mark-append s more (find_mark-le buf e).1) (omega (arith, length-append buf more))
          (omega (arith, length-append s more, (find_mark-le buf e).0)))
    | inr n ↦
        let long = ltb-false→le (length s) status_size n in
        let rest = extract_fuel f (drop status_size s) in
        let first = parse_status (take status_size s) in
        let fits : length (drop status_size s) + length more < f =
          omega (arith, length-drop status_size s, (find_mark-le buf e).0) in
        extract-frame f (buf ++ more) (s ++ more) (find_mark-append buf more e)
          (omega (arith, length-append s more))
        ∙ rw (take-append_le status_size s more long, drop-append_le status_size s more long)
            (ap (push first) (
              extract_fuel-append f (suc g) (drop status_size s) more fits
                (omega (arith, length-drop status_size s, (find_mark-le buf e).0))))
        ∙ push-after first rest (extract_fuel (suc g) (rest.1 ++ more))
        ∙ rw (extract-frame f buf s e long, push-rest first rest)
  ]
]

length-left : (f : ℕ) (buf : List ℕ) → length (extract_fuel f buf).1 ≤ length buf
length-left zero buf = unfold extract_fuel in omega arith
length-left (suc f) buf = elim (Option-cases (find_mark buf)) [
  | inl e ↦ rw (extract-none f buf e) (length-keep_tail buf)
  | inr (s, e) ↦ elim (Bool-cases (ltb (length s) status_size)) [
    | inl t ↦ rw (extract-short f buf s e (ground arith)) (find_mark-le buf e).0
    | inr n ↦
        rw
          (
            extract-frame f buf s e (ltb-false→le _ _ n),
            push-rest (parse_status (take status_size s)),
          )
          (omega (
            arith,
            length-left f (drop status_size s),
            length-drop status_size s,
            (find_mark-le buf e).0,
          ))
  ]
]

extract-append :
    (buf more : List ℕ)
    → extract (buf ++ more) ≡ after (extract buf).0 (extract ((extract buf).1 ++ more))
unfolding extract
extract-append buf more =
    let enough = suc (length buf + length more) in
    let same : extract_fuel enough buf ≡ extract buf =
      extract_fuel_enough enough (suc (length buf)) buf (omega arith) (omega arith) in
    extract_fuel_enough (suc (length (buf ++ more))) enough (buf ++ more) (omega arith)
      (omega (arith, length-append buf more))
    ∙ extract_fuel-append enough enough buf more (omega arith) (omega arith)
    ∙ ap (λ (r : List Status × List ℕ). after r.0 (extract_fuel enough (r.1 ++ more))) same
    ∙ ap (after (extract buf).0) (
        extract_fuel_enough enough (suc (length ((extract buf).1 ++ more)))
          ((extract buf).1 ++ more)
          (omega (arith, length-append (extract buf).1 more, length-left (suc (length buf)) buf))
          (omega arith))

append-cancel {ℓ} : {A : Type ℓ} (xs ys : List A) → xs ++ ys ≡ xs → ys ≡ []
append-cancel [] ys e = e
append-cancel (x ∷ xs) ys e = append-cancel xs ys (cc)

-- A buffer that is left holds no frame, and is left again.
abbrev IsSettled : List ℕ → Type 0
IsSettled buf = extract buf ≡ ([], buf)

extract-IsSettled : (buf : List ℕ) → IsSettled (extract buf).1
extract-IsSettled buf =
    let again = rw (append-nil buf, append-nil (extract buf).1) at (extract-append buf []) in
    let found = append-cancel (extract buf).0 (extract (extract buf).1).0 (cc) in cc

-- All the bytes that the reads hand over.
unfoldable pub all_received : List Read → List ℕ
all_received [] = []
all_received (idle ∷ reads) = all_received reads
all_received (received chunk ∷ reads) = chunk ++ all_received reads
all_received (failed chunk ∷ reads) = chunk

read_frames-from :
    (reads : List Read) (buf : List ℕ)
    → IsSettled buf
    → read_frames reads buf ≡ (extract (buf ++ all_received reads)).0
unfolding read_frames all_received
read_frames-from [] buf h = rw (append-nil buf) (ap (λ (r : List Status × List ℕ). r.0) (sym h))
read_frames-from (idle ∷ reads) buf h = read_frames-from reads buf h
read_frames-from (received chunk ∷ reads) buf h =
    rw
      (
        ← append_assoc buf chunk (all_received reads),
        extract-append (buf ++ chunk) (all_received reads),
      )
      (ap (◌++◌ (extract (buf ++ chunk)).0)
        (read_frames-from reads (extract (buf ++ chunk)).1 (extract-IsSettled (buf ++ chunk))))
read_frames-from (failed chunk ∷ reads) buf h = refl

-- However the printer's bytes are cut into reads, with idle reads between, the frames sent on are
-- those found in all the bytes up to the error.
pub read_frames-extract :
    (reads : List Read) → read_frames reads [] ≡ (extract (all_received reads)).0
read_frames-extract reads = read_frames-from reads [] (unfold extract extract_fuel in refl)
