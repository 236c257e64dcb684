-- ===== src/Frames/Buffer.antt =====
-- internal/printer/qlbackend/device.go: the buffer of readFrames, one frame at a time.
use raku_sika_hub.Prelude.{
  ℕ, zero, suc, ◌≤◌, ◌<◌, ◌≡◌, refl, sym, ap, ◌∙◌, inl, inr, false, ◌&&◌, Option, none, some, List,
  [], ◌∷◌, ◌++◌, arith, ltb, ◌==◌, length, take, drop, Bool-cases, Option-cases, length-drop,
  lt→ltb,
}
use mathlib.Core.Path.{subst}
use mathlib.Core.Option.{some-injective}
use raku_sika_hub.Status.{Status, parse_status, status_size}
use raku_sika_hub.Frames.{find_mark, keep_tail, push, extract_fuel}

pub ltb-false→le : (a b : ℕ) → ltb a b ≡ false → b ≤ a
ltb-false→le a b h = ground arith

-- The rest of a buffer from its mark on is no longer than the buffer, and starts with the mark.
pub find_mark-le :
    (buf : List ℕ) {s : List ℕ}
    → find_mark buf ≡ some s
    → (length s ≤ length buf) × (find_mark s ≡ some s)
unfolding find_mark
find_mark-le [] h = cc
find_mark-le (b ∷ []) h = cc
find_mark-le (b ∷ c ∷ rest) h = elim (Bool-cases (b == 0x80 && c == 0x20)) [
  | inl t ↦
      subst (λ (r : List ℕ). (length r ≤ suc (suc (length rest))) × (find_mark r ≡ some r))
        (some-injective _ _ (rw t at h)) (omega arith, rw t)
  | inr n ↦ let ih = find_mark-le (c ∷ rest) (rw n at h) in (omega (arith, ih.0), ih.1)
]

pub find_mark-append :
    (buf more : List ℕ) {s : List ℕ}
    → find_mark buf ≡ some s
    → find_mark (buf ++ more) ≡ some (s ++ more)
unfolding find_mark
find_mark-append [] more h = cc
find_mark-append (b ∷ []) more h = cc
find_mark-append (b ∷ c ∷ rest) more h = elim (Bool-cases (b == 0x80 && c == 0x20)) [
  | inl t ↦ rw t (ground arith)
  | inr n ↦ rw n (find_mark-append (c ∷ rest) more (rw n at h))
]

-- A buffer without a mark may be cut down to its tail before more bytes come.
pub find_mark-keep_tail :
    (buf more : List ℕ)
    → find_mark buf ≡ none
    → find_mark (buf ++ more) ≡ find_mark (keep_tail buf ++ more)
unfolding find_mark keep_tail
find_mark-keep_tail [] more h = refl
find_mark-keep_tail (b ∷ []) [] h = ground arith
find_mark-keep_tail (b ∷ []) (m ∷ more) h = ground arith
find_mark-keep_tail (b ∷ c ∷ rest) more h = elim (Bool-cases (b == 0x80 && c == 0x20)) [
  | inl t ↦ absurd (cc (rw t at h))
  | inr n ↦ rw n (find_mark-keep_tail (c ∷ rest) more (rw n at h))
]

pub keep_tail-keep_tail :
    (buf more : List ℕ) → keep_tail (buf ++ more) ≡ keep_tail (keep_tail buf ++ more)
unfolding keep_tail
keep_tail-keep_tail [] more = refl
keep_tail-keep_tail (b ∷ []) [] = ground arith
keep_tail-keep_tail (b ∷ []) (m ∷ more) = ground arith
keep_tail-keep_tail (b ∷ c ∷ rest) more = keep_tail-keep_tail (c ∷ rest) more

pub extract-none :
    (f : ℕ) (buf : List ℕ) → find_mark buf ≡ none → extract_fuel (suc f) buf ≡ ([], keep_tail buf)
unfolding extract_fuel
extract-none f buf h = rw (h, extract_fuel)

pub extract-short :
    (f : ℕ) (buf s : List ℕ)
    → find_mark buf ≡ some s
    → length s < status_size
    → extract_fuel (suc f) buf ≡ ([], s)
unfolding extract_fuel
extract-short f buf s h l = rw (h, extract_fuel) (rw (lt→ltb _ _ l))

pub extract-frame :
    (f : ℕ) (buf s : List ℕ)
    → find_mark buf ≡ some s
    → status_size ≤ length s
    → extract_fuel (suc f) buf
      ≡ push (parse_status (take status_size s)) (extract_fuel f (drop status_size s))
unfolding extract_fuel
extract-frame f buf s h l =
    let long : ltb (length s) status_size ≡ false = ground arith in rw (h, extract_fuel) (rw long)

-- Any fuel above the length gives the same.
pub extract_fuel_enough :
    (f g : ℕ) (buf : List ℕ)
    → length buf < f
    → length buf < g
    → extract_fuel f buf ≡ extract_fuel g buf
extract_fuel_enough zero g buf hf hg = absurd (omega arith)
extract_fuel_enough (suc f) zero buf hf hg = absurd (omega arith)
extract_fuel_enough (suc f) (suc g) buf hf hg = elim (Option-cases (find_mark buf)) [
  | inl e ↦ extract-none f buf e ∙ sym (extract-none g buf e)
  | inr (s, e) ↦ elim (Bool-cases (ltb (length s) status_size)) [
    | inl t ↦ extract-short f buf s e (ground arith) ∙ sym (extract-short g buf s e (ground arith))
    | inr n ↦
        let shorter = (find_mark-le buf e).0 in
        extract-frame f buf s e (ground arith)
        ∙ ap (push (parse_status (take status_size s))) (
            extract_fuel_enough f g (drop status_size s)
              (omega (arith, length-drop status_size s, ltb-false→le _ _ n))
              (omega (arith, length-drop status_size s, ltb-false→le _ _ n)))
        ∙ sym (extract-frame g buf s e (ground arith))
  ]
]

-- Frames found before are kept in front.
abbrev pub after : List Status → List Status × List ℕ → List Status × List ℕ
after found (more, rest) = (found ++ more, rest)

pub push-after :
    (o : Option Status) (p r : List Status × List ℕ) → push o (after p.0 r) ≡ after (push o p).0 r
push-after none p r = refl
push-after (some s) p r = refl

pub push-rest : (o : Option Status) (p : List Status × List ℕ) → (push o p).1 ≡ p.1
push-rest none p = refl
push-rest (some s) p = refl

pub extract-marked :
    (f g : ℕ) (a b : List ℕ) {s : List ℕ}
    → find_mark a ≡ some s
    → find_mark b ≡ some s
    → length a < suc f
    → length b < suc g
    → extract_fuel (suc f) a ≡ extract_fuel (suc g) b
extract-marked f g a b {s} ea eb ha hb = elim (Bool-cases (ltb (length s) status_size)) [
  | inl t ↦ extract-short f a s ea (ground arith) ∙ sym (extract-short g b s eb (ground arith))
  | inr n ↦
      extract-frame f a s ea (ground arith)
      ∙ ap (push (parse_status (take status_size s))) (
          extract_fuel_enough f g (drop status_size s)
            (omega (arith, length-drop status_size s, ltb-false→le _ _ n, (find_mark-le a ea).0))
            (omega (arith, length-drop status_size s, ltb-false→le _ _ n, (find_mark-le b eb).0)))
      ∙ sym (extract-frame g b s eb (ground arith))
]
