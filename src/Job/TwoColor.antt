-- ===== src/Job/TwoColor.antt =====
-- internal/printer/qlbackend/job.go: ToTwoColor, which rewrites a black-only stream for a red and
-- black roll. The position is kept as in Job/Parse.antt.
pub mod Convert
pub mod Keeps
use raku_sika_hub.Prelude.{
  ℕ, zero, suc, ◌+◌, ◌-◌, Bool, not, ◌||◌, List, [], ◌∷◌, ◌++◌, length, replicate, ◌==◌,
  if◌then◌else◌, set_bit,
}
use raku_sika_hub.Result.{Result, ok, err, ◌>>=◌}
use raku_sika_hub.Job.Parse.{
  Fault, ends_inside, unknown_esc_i, unknown_command, row_not_convertible, not_convertible,
  out_of_fuel, take_bytes, escape_size,
}

-- `case 'g'`, behind the g: a black line and an empty red one for a raster line.
unfoldable pub split_row : ℕ → List ℕ → Result Fault (List ℕ × List ℕ)
unfolding take_bytes
split_row i (z ∷ n ∷ body) = if not (z == 0x00) then err (row_not_convertible i) else do
  (row, rest) ← take_bytes i n body
  ok (b'w' ∷ 0x01 ∷ n ∷ (row ++ (b'w' ∷ 0x02 ∷ n ∷ replicate n 0)), rest)
split_row i bytes = err (row_not_convertible i)

-- `out[start+3] |= expandedTwoColor`, on the operands of ESC i K.
abbrev pub mark_two_color : ℕ → List ℕ → List ℕ
mark_two_color k [] = []
mark_two_color k (b ∷ args) = (if k == b'K' then set_bit b 0 else b) ∷ args

-- `ESC i`, behind its two bytes.
unfoldable pub copy_escape_i : ℕ → List ℕ → Result Fault (List ℕ × List ℕ)
unfolding take_bytes
copy_escape_i i [] = err (unknown_command i)
copy_escape_i i (k ∷ body) = if escape_size k == 0 then err (unknown_esc_i k i) else do
  (args, rest) ← take_bytes i (escape_size k - 3) body
  ok (0x1B ∷ b'i' ∷ k ∷ mark_two_color k args, rest)

-- `case 0x1B`, behind the byte 0x1B.
unfoldable pub copy_escape : ℕ → List ℕ → Result Fault (List ℕ × List ℕ)
unfolding copy_escape_i
copy_escape i [] = err (ends_inside i)
copy_escape i (c ∷ after) =
    if c == b'@'
    then ok (0x1B ∷ b'@' ∷ [], after)
    else if not (c == b'i')
    then err (unknown_command i)
    else copy_escape_i i after

-- One turn of the loop: what it appends to `out`, and the bytes left.
unfoldable pub rewrite_command : ℕ → ℕ → List ℕ → Result Fault (List ℕ × List ℕ)
unfolding split_row copy_escape
rewrite_command i c bytes =
    if c == b'g'
    then split_row i bytes
    else if c == b'G' || (c == b'Z' || (c == b'M' || c == b'w'))
    then err (not_convertible c i)
    else if c == 0x1B
    then copy_escape i bytes
    else ok (c ∷ [], bytes)

-- The loop, with `out` as it grows; as much fuel as bytes is enough.
unfoldable pub rewrite : ℕ → ℕ → List ℕ → List ℕ → Result Fault (List ℕ)
unfolding rewrite_command
rewrite fuel i [] out = ok out
rewrite zero i (c ∷ bytes) out = err out_of_fuel
rewrite (suc fuel) i (c ∷ bytes) out = do
  (chunk, rest) ← rewrite_command i c bytes
  rewrite fuel (i + (suc (length bytes) - length rest)) rest (out ++ chunk)

unfoldable pub to_two_color : List ℕ → Result Fault (List ℕ)
unfolding rewrite
to_two_color bytes = rewrite (length bytes) 0 bytes []
