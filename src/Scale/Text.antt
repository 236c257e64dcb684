-- ===== src/Scale/Text.antt =====
-- What internal/scale/protocol.go uses of Go's strings package, on the bytes of a string.
use raku_sika_hub.Prelude.{
  ℕ, zero, suc, Bool, true, false, ◌&&◌, ◌||◌, Option, none, some, List, [], ◌∷◌, leb, ◌==◌,
  if◌then◌else◌, drop,
}

unfoldable pub same_bytes : List ℕ → List ℕ → Bool
same_bytes [] [] = true
same_bytes [] (b ∷ bs) = false
same_bytes (a ∷ as_) [] = false
same_bytes (a ∷ as_) (b ∷ bs) = a == b && same_bytes as_ bs

abbrev pub is_empty : List ℕ → Bool
is_empty [] = true
is_empty (b ∷ bs) = false

-- strings.TrimRight(s, "\r\n").
unfoldable pub trim_line_end : List ℕ → List ℕ
trim_line_end [] = []
trim_line_end (b ∷ bs) =
    let rest = trim_line_end bs in
    if (b == 0x0D || b == 0x0A) && is_empty rest then [] else b ∷ rest

-- The length of the white space that starts the bytes, 0 for none: unicode.IsSpace, in UTF-8.
abbrev pub is_ascii_space : ℕ → Bool
is_ascii_space b = (leb 0x09 b && leb b 0x0D) || b == 0x20

abbrev space2 : ℕ → ℕ → Bool
space2 a b = a == 0xC2 && (b == 0x85 || b == 0xA0)

abbrev space3 : ℕ → ℕ → ℕ → Bool
space3 a b c =
    (a == 0xE1 && b == 0x9A && c == 0x80)
    || (a == 0xE2
        && b == 0x80
        && ((leb 0x80 c && leb c 0x8A) || c == 0xA8 || c == 0xA9 || c == 0xAF))
    || (a == 0xE2 && b == 0x81 && c == 0x9F)
    || (a == 0xE3 && b == 0x80 && c == 0x80)

unfoldable pub space_width : List ℕ → ℕ
space_width [] = 0
space_width (a ∷ []) = if is_ascii_space a then 1 else 0
space_width (a ∷ b ∷ []) = if is_ascii_space a then 1 else if space2 a b then 2 else 0
space_width (a ∷ b ∷ c ∷ bs) =
    if is_ascii_space a then 1 else if space2 a b then 2 else if space3 a b c then 3 else 0

-- The white space at the start is dropped; as much fuel as bytes is enough.
unfoldable pub trim_left : ℕ → List ℕ → List ℕ
trim_left zero bs = bs
trim_left (suc fuel) bs =
    let w = space_width bs in let rest = trim_left fuel (drop w bs) in if w == 0 then bs else rest

-- The white space at the end: the longest end that is nothing else.
unfoldable pub trim_right : ℕ → List ℕ → List ℕ
unfolding trim_left
trim_right fuel [] = []
trim_right fuel (b ∷ bs) =
    let rest = trim_right fuel bs in if is_empty (trim_left fuel (b ∷ bs)) then [] else b ∷ rest

-- strings.SplitN(s, sep, 2) for a separator of one byte: none for a string without it.
unfoldable pub split_two : ℕ → List ℕ → Option (List ℕ × List ℕ)
split_two sep [] = none
split_two sep (b ∷ bs) =
    let rest = split_two sep bs in
    if b == sep
    then some ([], bs)
    else elim rest [ none ↦ none | some parts ↦ some (b ∷ parts.0, parts.1) ]
