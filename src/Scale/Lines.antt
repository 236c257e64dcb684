-- ===== src/Scale/Lines.antt =====
-- internal/scale/protocol.go: what is read of a line in the format of the A&D scales, for instance
-- "ST,+00012.34  kg".
use raku_sika_hub.Prelude.{
  ℕ, zero, suc, ◌≤◌, ◌<◌, ◌≡◌, refl, ap, ◌∙◌, ◌⊎◌, inl, inr, true, false, Option, none, some, List,
  [], ◌∷◌, ◌++◌, arith, All, length, length-append, get_or, replicate,
}
use raku_sika_hub.Scale.Text.{is_empty, trim_line_end, trim_left, trim_right, space_width}
use raku_sika_hub.Scale.Protocol.{is_letter, last_alpha}

-- A byte of a numeral: a sign, a digit or a point, say, but no letter and no white space.
abbrev pub IsPlain : ℕ → Type 0
IsPlain b = (0x20 < b) × (b < 0x41)

abbrev pub IsLetter : ℕ → Type 0
IsLetter b = is_letter b ≡ true

-- A byte that is neither white space nor the start of any.
abbrev pub IsSolid : ℕ → Type 0
IsSolid b = (0x20 < b) × (b < 0x80)

space_width-solid : (b : ℕ) (bs : List ℕ) → IsSolid b → space_width (b ∷ bs) ≡ 0
unfolding space_width
space_width-solid b [] h = ground arith
space_width-solid b (c ∷ []) h = ground arith
space_width-solid b (c ∷ d ∷ bs) h = ground arith

space_width-blank : (bs : List ℕ) → space_width (0x20 ∷ bs) ≡ 1
unfolding space_width
space_width-blank [] = refl
space_width-blank (c ∷ []) = refl
space_width-blank (c ∷ d ∷ bs) = refl

pub trim_left-solid : (fuel b : ℕ) (bs : List ℕ) → IsSolid b → trim_left fuel (b ∷ bs) ≡ b ∷ bs
unfolding trim_left
trim_left-solid zero b bs h = refl
trim_left-solid (suc fuel) b bs h = let none_here = space_width-solid b bs h in ground arith

pub trim_left-blanks :
    (n fuel b : ℕ) (bs : List ℕ)
    → n ≤ fuel
    → IsSolid b
    → trim_left fuel (replicate n 0x20 ++ (b ∷ bs)) ≡ b ∷ bs
unfolding trim_left
trim_left-blanks zero fuel b bs e h = trim_left-solid fuel b bs h
trim_left-blanks (suc n) zero b bs e h = absurd (omega (arith, e))
trim_left-blanks (suc n) (suc fuel) b bs e h =
    rw (space_width-blank (replicate n 0x20 ++ (b ∷ bs)))
      (trim_left-blanks n fuel b bs (omega (arith, e)) h)

-- A byte that is no white space, or a blank.
abbrev pub IsTame : ℕ → Type 0
IsTame b = (0x1F < b) × (b < 0x80)

blank_or_IsSolid : (x : ℕ) → IsTame x → (x ≡ 0x20) ⊎ IsSolid x
blank_or_IsSolid x h = ground arith

trim_left-blank : (fuel : ℕ) (bs : List ℕ) → trim_left (suc fuel) (0x20 ∷ bs) ≡ trim_left fuel bs
unfolding trim_left
trim_left-blank fuel bs = rw (space_width-blank bs) refl

trim_left-some :
    (xs : List ℕ) (fuel b : ℕ)
    → All IsTame xs
    → IsSolid b
    → is_empty (trim_left fuel (xs ++ (b ∷ []))) ≡ false
trim_left-some [] fuel b t h = ap is_empty (trim_left-solid fuel b [] h)
trim_left-some (x ∷ xs) zero b t h = unfold trim_left in refl
trim_left-some (x ∷ xs) (suc fuel) b t h = elim (blank_or_IsSolid x t.0) [
  | inl e ↦
      rw (e, ap is_empty (trim_left-blank fuel (xs ++ (b ∷ [])))) (trim_left-some xs fuel b t.1 h)
  | inr s ↦ ap is_empty (trim_left-solid (suc fuel) x (xs ++ (b ∷ [])) s)
]

-- What ends in a byte that is no white space is not trimmed at its end.
pub trim_right-tame :
    (xs : List ℕ) (fuel b : ℕ)
    → All IsTame xs
    → IsSolid b
    → trim_right fuel (xs ++ (b ∷ [])) ≡ xs ++ (b ∷ [])
unfolding trim_right
trim_right-tame [] fuel b t h = rw (trim_left-some [] fuel b tt h) refl
trim_right-tame (x ∷ xs) fuel b t h =
    rw (trim_left-some (x ∷ xs) fuel b t h) (ap (◌∷◌ x) (trim_right-tame xs fuel b t.1 h))

trim_left-all_blank : (n fuel : ℕ) → n ≤ fuel → trim_left fuel (replicate n 0x20) ≡ []
unfolding trim_left
trim_left-all_blank zero zero h = refl
trim_left-all_blank zero (suc fuel) h = unfold space_width in refl
trim_left-all_blank (suc n) zero h = absurd (omega (arith, h))
trim_left-all_blank (suc n) (suc fuel) h =
    rw (space_width-blank (replicate n 0x20)) (trim_left-all_blank n fuel (omega (arith, h)))

pub trim_right-all_blank : (n fuel : ℕ) → n ≤ fuel → trim_right fuel (replicate n 0x20) ≡ []
unfolding trim_right
trim_right-all_blank zero fuel h = refl
trim_right-all_blank (suc n) fuel h = rw (trim_left-all_blank (suc n) fuel h) refl

pub is_empty-append : (xs : List ℕ) (b : ℕ) (ys : List ℕ) → is_empty (xs ++ (b ∷ ys)) ≡ false
is_empty-append [] b ys = refl
is_empty-append (x ∷ xs) b ys = refl

-- A line end is trimmed, and nothing before it.
pub trim_line_end-crlf :
    (xs : List ℕ) (b : ℕ)
    → IsSolid b
    → trim_line_end (xs ++ (b ∷ 0x0D ∷ 0x0A ∷ [])) ≡ xs ++ (b ∷ [])
unfolding trim_line_end
trim_line_end-crlf [] b h = ground arith
trim_line_end-crlf (x ∷ xs) b h =
    let more = is_empty-append xs b [] in rw (trim_line_end-crlf xs b h) (ground arith)

get_or-letter :
    (pre unit : List ℕ) (i : ℕ)
    → All IsLetter unit
    → length pre ≤ i
    → i < length (pre ++ unit)
    → is_letter (get_or (pre ++ unit) i 0) ≡ true
get_or-letter [] [] i t h k = absurd (omega (arith, k))
get_or-letter [] (u ∷ unit) zero t h k = t.0
get_or-letter [] (u ∷ unit) (suc i) t h k =
    get_or-letter [] unit i t.1 (omega arith) (omega (arith, k))
get_or-letter (p ∷ pre) unit zero t h k = absurd (omega (arith, h))
get_or-letter (p ∷ pre) unit (suc i) t h k =
    get_or-letter pre unit i t (omega (arith, h)) (omega (arith, k))

get_or-plain :
    (pre unit : List ℕ) (i : ℕ)
    → All (λ b. is_letter b ≡ false) pre
    → i < length pre
    → is_letter (get_or (pre ++ unit) i 0) ≡ false
get_or-plain [] unit i t h = absurd (omega (arith, h))
get_or-plain (p ∷ pre) unit zero t h = t.0
get_or-plain (p ∷ pre) unit (suc i) t h = get_or-plain pre unit i t.1 (omega (arith, h))

here_or_below : (n i : ℕ) → n < suc i → (i ≡ n) ⊎ (n < i)
here_or_below n i h = ground arith

last_alpha-letters :
    (pre unit : List ℕ) (i : ℕ) (found : Option ℕ)
    → All IsLetter unit
    → length pre < i
    → i ≤ length (pre ++ unit)
    → last_alpha (pre ++ unit) i found ≡ last_alpha (pre ++ unit) (length pre) (some (length pre))
unfolding last_alpha
last_alpha-letters pre unit zero found t h k = absurd (omega (arith, h))
last_alpha-letters pre unit (suc i) found t h k =
    rw (get_or-letter pre unit i t (omega (arith, h)) (omega (arith, k)))
      (elim (here_or_below (length pre) i h) [
        | inl e ↦ ap (λ n. last_alpha (pre ++ unit) n (some n)) e
        | inr b ↦ last_alpha-letters pre unit i (some i) t b (omega (arith, k))
      ])

last_alpha-plain :
    (pre unit : List ℕ) (n m : ℕ)
    → All (λ b. is_letter b ≡ false) pre
    → n ≤ length pre
    → 0 < n
    → last_alpha (pre ++ unit) n (some m) ≡ some m
unfolding last_alpha
last_alpha-plain pre unit zero m t h k = absurd (omega (arith, k))
last_alpha-plain pre unit (suc i) m t h k = rw (get_or-plain pre unit i t (omega (arith, h))) refl

-- A run of letters behind other bytes is the unit.
pub last_alpha-unit :
    (pre unit : List ℕ)
    → All (λ b. is_letter b ≡ false) pre
    → All IsLetter unit
    → 0 < length pre
    → 0 < length unit
    → last_alpha (pre ++ unit) (length (pre ++ unit)) none ≡ some (length pre)
last_alpha-unit pre unit t u h k =
    last_alpha-letters pre unit (length (pre ++ unit)) none u
      (omega (arith, length-append pre unit)) (omega arith)
    ∙ last_alpha-plain pre unit (length pre) (length pre) t (omega arith) h
