-- ===== src/Strings.antt =====
-- What internal/printer, internal/httpapi and internal/config use of Go's strings package, on the bytes
-- of a string.
pub mod Atoi
pub mod Compare
pub mod Trimmed
use raku_sika_hub.Prelude.{
  ℕ, zero, suc, ◌+◌, Bool, true, false, not, ◌&&◌, ◌||◌, Option, none, some, List, [], ◌∷◌, ◌++◌,
  leb, ◌==◌, if◌then◌else◌, length, drop, take,
}
use raku_sika_hub.Scale.Text.{is_empty, space_width}

-- strings.HasPrefix and strings.Contains, the part first.
abbrev pub starts_with : List ℕ → List ℕ → Bool
starts_with [] bs = true
starts_with (p ∷ ps) [] = false
starts_with (p ∷ ps) (b ∷ bs) = p == b && starts_with ps bs

abbrev pub contains : List ℕ → List ℕ → Bool
contains part [] = is_empty part
contains part (b ∷ bs) = starts_with part (b ∷ bs) || contains part bs

abbrev pub lower : ℕ → ℕ
lower b = if leb 0x41 b && leb b 0x5A then b + 0x20 else b

-- strings.ToLower. Beyond ASCII only the two letters that become ASCII ones are changed, İ and the
-- Kelvin sign; the others decide no test.
unfoldable pub to_lower : List ℕ → List ℕ
to_lower [] = []
to_lower (b ∷ []) = lower b ∷ []
to_lower (b ∷ c ∷ []) = if b == 0xC4 && c == 0xB0 then b'i' ∷ [] else lower b ∷ lower c ∷ []
to_lower (b ∷ c ∷ d ∷ bs) =
    let dotted = b'i' ∷ to_lower (d ∷ bs) in
    let kelvin = b'k' ∷ to_lower bs in
    let plain = lower b ∷ to_lower (c ∷ d ∷ bs) in
    if b == 0xC4 && c == 0xB0
    then dotted
    else if b == 0xE2 && c == 0x84 && d == 0xAA
    then kelvin
    else plain

-- strings.Split at a byte.
unfoldable pub split_at : ℕ → List ℕ → List ℕ → List (List ℕ)
split_at sep part [] = part ∷ []
split_at sep part (b ∷ bs) =
    let cut = part ∷ split_at sep [] bs in
    let more = split_at sep (part ++ b ∷ []) bs in if b == sep then cut else more

unfoldable pub split_lines : List ℕ → List (List ℕ)
unfolding split_at
split_lines bs = split_at 0x0A [] bs

-- strings.Fields: what stands between white space. The fuel is the number of bytes.
abbrev keep_field : List ℕ → List (List ℕ) → List (List ℕ)
keep_field [] rest = rest
keep_field (b ∷ bs) rest = (b ∷ bs) ∷ rest

unfoldable pub fields_from : ℕ → List ℕ → List ℕ → List (List ℕ)
fields_from zero field bs = keep_field field []
fields_from (suc fuel) field [] = keep_field field []
fields_from (suc fuel) field (b ∷ bs) =
    let w = space_width (b ∷ bs) in
    let cut = keep_field field (fields_from fuel [] (drop w (b ∷ bs))) in
    let more = fields_from fuel (field ++ b ∷ []) bs in if w == 0 then more else cut

unfoldable pub fields_of : List ℕ → List (List ℕ)
unfolding fields_from
fields_of bs = fields_from (length bs) [] bs

-- strings.Index of a byte.
unfoldable pub index_of : ℕ → List ℕ → Option ℕ
index_of sep [] = none
index_of sep (b ∷ bs) =
    let rest = index_of sep bs in
    if b == sep then some 0 else elim rest [ none ↦ none | some i ↦ some (suc i) ]

-- strings.Join with a space.
unfoldable pub join_spaced : List (List ℕ) → List ℕ
join_spaced [] = []
join_spaced (s ∷ []) = s
join_spaced (s ∷ t ∷ ss) = s ++ (0x20 ∷ join_spaced (t ∷ ss))
