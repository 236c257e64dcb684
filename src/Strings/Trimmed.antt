-- ===== src/Strings/Trimmed.antt =====
-- What trimming of white space leaves.
use raku_sika_hub.Prelude.{
  ℕ, zero, suc, ◌≤◌, ◌≡◌, refl, sym, ap, ◌∙◌, List, [], ◌∷◌, ◌++◌, arith, ◌==◌, length, drop,
  length-drop, if_cases,
}
use raku_sika_hub.Scale.Text.{is_empty, space_width, trim_left, trim_right}
use raku_sika_hub.Scale.Protocol.{trim_space}

-- What starts with no white space does not when its end is cut.
space_width-append : (xs ys : List ℕ) → space_width (xs ++ ys) ≡ 0 → space_width xs ≡ 0
unfolding space_width
space_width-append [] ys h = refl
space_width-append (a ∷ []) [] h = h
space_width-append (a ∷ []) (b ∷ []) h = ground arith
space_width-append (a ∷ []) (b ∷ c ∷ ys) h = ground arith
space_width-append (a ∷ b ∷ []) [] h = h
space_width-append (a ∷ b ∷ []) (c ∷ ys) h = ground arith
space_width-append (a ∷ b ∷ c ∷ xs) ys h = h

-- Enough fuel leaves no white space at the start.
space_width-trim_left :
    (fuel : ℕ) (bs : List ℕ) → length bs ≤ fuel → space_width (trim_left fuel bs) ≡ 0
unfolding trim_left
space_width-trim_left zero [] h = unfold space_width in refl
space_width-trim_left zero (b ∷ bs) h = absurd (omega arith)
space_width-trim_left (suc fuel) bs h =
    let w = space_width bs in
    if_cases (λ (r : List ℕ). space_width r ≡ 0) (w == 0) (λ e. ground arith)
      (λ e. space_width-trim_left fuel (drop w bs) (ground (arith, length-drop w bs)))

trim_left_keeps : (fuel : ℕ) (bs : List ℕ) → space_width bs ≡ 0 → trim_left fuel bs ≡ bs
unfolding trim_left
trim_left_keeps zero bs h = refl
trim_left_keeps (suc fuel) bs h = rw h refl

trim_right_cut : (fuel : ℕ) (bs : List ℕ) → (cut : List ℕ) × (bs ≡ trim_right fuel bs ++ cut)
unfolding trim_right
trim_right_cut fuel [] = ([], refl)
trim_right_cut fuel (b ∷ bs) =
    let (cut, e) = trim_right_cut fuel bs in
    if_cases (λ (r : List ℕ). (cut : List ℕ) × (b ∷ bs ≡ r ++ cut))
      (is_empty (trim_left fuel (b ∷ bs))) (λ _. (b ∷ bs, refl)) (λ _. (cut, ap (◌∷◌ b) e))

length-trim_right : (fuel : ℕ) (bs : List ℕ) → length (trim_right fuel bs) ≤ length bs
unfolding trim_right
length-trim_right fuel [] = omega arith
length-trim_right fuel (b ∷ bs) = ground (arith, length-trim_right fuel bs)

-- What is left starts with no white space.
space_width-trim_space : (bs : List ℕ) → space_width (trim_space bs) ≡ 0
space_width-trim_space bs =
    let n = length bs in space_width-trim_left n (trim_right n bs) (length-trim_right n bs)

is_empty-trim_right :
    (fuel : ℕ) (bs : List ℕ) → space_width bs ≡ 0 → is_empty (trim_right fuel bs) ≡ is_empty bs
unfolding trim_right
is_empty-trim_right fuel [] h = refl
is_empty-trim_right fuel (b ∷ bs) h = rw (trim_left_keeps fuel (b ∷ bs) h) refl

-- Trimming once more empties nothing.
pub is_empty-trim_trim :
    (bs : List ℕ) → is_empty (trim_space (trim_space bs)) ≡ is_empty (trim_space bs)
is_empty-trim_trim bs =
    let t = trim_space bs in
    let n = length t in
    let h = space_width-trim_space bs in
    let (cut, e) = trim_right_cut n t in
    let front : space_width (trim_right n t) ≡ 0 =
      space_width-append (trim_right n t) cut (sym (ap space_width e) ∙ h) in
    ap is_empty (trim_left_keeps n (trim_right n t) front) ∙ is_empty-trim_right n t h
