-- ===== src/Strings/Atoi.antt =====
-- strconv.Atoi, on the bytes of a string: a sign at most, digits, and a value that fits in 64 bits.
use raku_sika_hub.Prelude.{
  ℕ, zero, suc, ◌+◌, ◌-◌, ◌*◌, leb, Bool, ◌&&◌, Option, none, some, List, [], ◌∷◌, if◌then◌else◌,
  ◌==◌, ℤ, pos, negsuc,
}

abbrev is_digit : ℕ → Bool
is_digit b = leb 0x30 b && leb b 0x39

abbrev digits_from : ℕ → List ℕ → Option ℕ
digits_from n [] = some n
digits_from n (b ∷ bs) =
    let more = digits_from (n * 10 + (b - 0x30)) bs in if is_digit b then more else none

abbrev digits : List ℕ → Option ℕ
digits [] = none
digits (b ∷ bs) = digits_from 0 (b ∷ bs)

abbrev max_int : ℕ
max_int = 9223372036854775807

abbrev positive : Option ℕ → Option ℤ
positive none = none
positive (some n) = if leb n max_int then some (pos n) else none

abbrev negated : ℕ → ℤ
negated zero = pos 0
negated (suc n) = negsuc n

abbrev negative : Option ℕ → Option ℤ
negative none = none
negative (some n) = if leb n (suc max_int) then some (negated n) else none

unfoldable pub atoi : List ℕ → Option ℤ
atoi [] = none
atoi (b ∷ bs) =
    if b == 0x2D
    then negative (digits bs)
    else if b == 0x2B
    then positive (digits bs)
    else positive (digits (b ∷ bs))
