-- ===== src/Raster/Rows.antt =====
-- internal/printer/qlraster/qlraster.go: the bits of a raster row, dot by dot.
use raku_sika_hub.Prelude.{
  ℕ, zero, suc, ◌+◌, ◌-◌, ◌*◌, ◌/◌, ◌%◌, ◌≤◌, ◌<◌, ◌≡◌, refl, ap, ◌∙◌, inl, inr, Bool, true, false,
  ◌&&◌, ◌||◌, List, [], ◌∷◌, arith, length, get_or, set, replicate, leb, ltb, ◌==◌, if◌then◌else◌,
  Bool-cases, length-set, has_bit, set_bit, has_bit-set_bit,
}
use native.Mathlib.Numerals.{unary_clauses}
use raku_sika_hub.Raster.{
  Roll, Image, is_ink, head_dots, row_bytes, set_dot, ink_columns, head_pad, past_head, ink_row,
}

-- Whether the head's dot hx prints: the leftmost dot is the highest bit of the first byte.
pub dot : List ℕ → ℕ → Bool
dot row hx = has_bit (get_or row (hx / 8) 0) (7 - hx % 8)

get_or-set :
    (xs : List ℕ) (i j v : ℕ)
    → i < length xs
    → get_or (set xs i v) j 0 ≡ (if i == j then v else get_or xs j 0)
get_or-set [] i j v h = absurd (omega arith)
get_or-set (x ∷ xs) zero zero v h = refl
get_or-set (x ∷ xs) zero (suc j) v h = ground arith
get_or-set (x ∷ xs) (suc i) zero v h = ground arith
get_or-set (x ∷ xs) (suc i) (suc j) v h = get_or-set xs i j v (omega arith) ∙ ground arith

length-set_dot : (row : List ℕ) (hx : ℕ) → length (set_dot row hx) ≡ length row
unfolding set_dot
length-set_dot row hx = length-set row (hx / 8) _

length-ink_columns :
    (ink : ℕ → Bool) (pad n x : ℕ) (row : List ℕ)
    → length (ink_columns ink pad n x row) ≡ length row
unfolding ink_columns
length-ink_columns ink pad zero x row = refl
length-ink_columns ink pad (suc n) x row =
    length-ink_columns ink pad n (x + 1) _ ∙ ground (arith, length-set_dot row (719 - (pad + x)))

dot-set_dot :
    (row : List ℕ) (hx j : ℕ)
    → hx < 8 * length row
    → dot (set_dot row hx) j ≡ (if hx == j then true else dot row j)
unfolding dot set_dot
dot-set_dot row hx j h =
    rw
      (get_or-set row (hx / 8) (j / 8) (set_bit (get_or row (hx / 8) 0) (7 - hx % 8)) (omega arith))
      (elim (Bool-cases (hx / 8 == j / 8)) [
        | inl e ↦
            let q : j / 8 ≡ hx / 8 = ground arith in
            rw (e, q, has_bit-set_bit (get_or row (hx / 8) 0) (7 - hx % 8) (7 - j % 8))
              (ground arith)
        | inr n ↦ rw n (ground arith)
      ])

-- The dot of the column x of the printed part of an image.
abbrev column_dot : ℕ → ℕ → ℕ
column_dot pad x = head_dots - 1 - (pad + x)

abbrev drawn : (ℕ → Bool) → ℕ → ℕ → List ℕ → List ℕ
drawn ink pad x row = if ink x then set_dot row (column_dot pad x) else row

length-drawn :
    (ink : ℕ → Bool) (pad x : ℕ) (row : List ℕ)
    → length row ≡ row_bytes
    → length (drawn ink pad x row) ≡ row_bytes
length-drawn ink pad x row l = ground (arith, length-set_dot row (719 - (pad + x)))

dot-drawn :
    (ink : ℕ → Bool) (pad x : ℕ) (row : List ℕ) (j : ℕ)
    → length row ≡ row_bytes
    → pad + x < head_dots
    → j < head_dots
    → dot (drawn ink pad x row) j ≡ (dot row j || (pad + x == 719 - j && ink x))
dot-drawn ink pad x row j l f b = ground (arith, dot-set_dot row (719 - (pad + x)) j)

-- A dot is black after columns x .. x + n were drawn if it was before, or its own column is ink.
dot-ink_columns :
    (ink : ℕ → Bool) (pad n x : ℕ) (row : List ℕ) (j : ℕ)
    → length row ≡ row_bytes
    → pad + x + n ≤ head_dots
    → j < head_dots
    → dot (ink_columns ink pad n x row) j ≡ (
        dot row j
        || ((leb (pad + x) (719 - j) && ltb (719 - j) (pad + x + n)) && ink (719 - j - pad)))
unfolding ink_columns
dot-ink_columns ink pad zero x row j l f b = ground arith
dot-ink_columns ink pad (suc n) x row j l f b =
    dot-ink_columns ink pad n (x + 1) _ j (length-drawn ink pad x row l) (omega arith) b
    ∙ ground (arith, dot-drawn ink pad x row j l (omega arith) b)

pub length-ink_row :
    (m : Roll) (left : ℕ) (img : Image) (y : ℕ) → length (ink_row m left img y) ≡ row_bytes
unfolding ink_row
length-ink_row m left img y =
    length-ink_columns _ (head_pad m) (m.dots_printable - past_head m) 0 (replicate row_bytes 0)

zero_plus : (n : ℕ) → 0 + n ≡ n
zero_plus n = omega arith

-- On a roll that the head spans no column is left out.
ink_row-spanned :
    (m : Roll) (left : ℕ) (img : Image) (y : ℕ)
    → m.dots_printable + m.offset_right ≤ head_dots
    → ink_row m left img y
      ≡ ink_columns
          (λ x. is_ink (img.at (left + x) y))
          (head_pad m)
          m.dots_printable
          0
          (replicate row_bytes 0)
unfolding ink_row
ink_row-spanned m left img y f =
    let spanned : past_head m ≡ 0 = omega (arith, f) in
    rw spanned (
      simp unary_clauses (λ i.
        ink_columns (λ x. is_ink (img.at (left + zero_plus x i) y)) (head_pad m) m.dots_printable 0
          (replicate row_bytes 0)))

get_or-replicate : (n k : ℕ) → get_or (replicate n zero) k zero ≡ zero
get_or-replicate zero k = refl
get_or-replicate (suc n) zero = refl
get_or-replicate (suc n) (suc k) = get_or-replicate n k

has_bit-zero : (k : ℕ) → has_bit 0 k ≡ false
has_bit-zero zero = refl
has_bit-zero (suc k) = has_bit-zero k

dot-replicate : (n j : ℕ) → dot (replicate n 0) j ≡ false
unfolding dot
dot-replicate n j = rw (get_or-replicate n (j / 8)) (has_bit-zero (7 - j % 8))

-- On a roll that the head spans, the head's dot p places from its right end prints exactly when the
-- printable area reaches it and the image's pixel, counted from the left, is ink: a mirrored row.
pub ink_row_mirrors :
    (m : Roll) (left : ℕ) (img : Image) (y p : ℕ)
    → m.dots_printable + m.offset_right ≤ head_dots
    → p < head_dots
    → dot (ink_row m left img y) (head_dots - 1 - p) ≡ (
        if leb (head_pad m) p && ltb p (head_pad m + m.dots_printable)
        then is_ink (img.at (left + (p - head_pad m)) y)
        else false)
ink_row_mirrors m left img y p f b =
    ap (λ row. dot row (head_dots - 1 - p)) (ink_row-spanned m left img y f)
    ∙ dot-ink_columns (λ x. is_ink (img.at (left + x) y)) (head_pad m) m.dots_printable 0
        (replicate row_bytes 0) (719 - p) refl (omega arith) (omega arith)
    ∙ (let back : 719 - (719 - p) ≡ p = omega arith in
        rw (back, dot-replicate row_bytes (719 - p)) (ground arith))
