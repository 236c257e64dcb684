-- ===== src/Frames.antt =====
-- internal/printer/qlbackend/device.go: readFrames, which finds status frames in what the printer sends.
pub mod Buffer
pub mod Chunks
use raku_sika_hub.Prelude.{
  ℕ, zero, suc, ◌≡◌, Bool, true, false, ◌&&◌, Option, none, some, List, [], ◌∷◌, ◌++◌, ltb, ◌==◌,
  if◌then◌else◌, length, take, drop,
}
use raku_sika_hub.Status.{Status, parse_status, status_size}

-- buf[bytes.Index(buf, {0x80, 0x20}):], if the mark is there.
unfoldable pub find_mark : List ℕ → Option (List ℕ)
find_mark [] = none
find_mark (b ∷ []) = none
find_mark (b ∷ c ∷ rest) =
    let next = find_mark (c ∷ rest) in if b == 0x80 && c == 0x20 then some (b ∷ c ∷ rest) else next

-- What is kept of a buffer without a mark: a trailing 0x80.
unfoldable pub keep_tail : List ℕ → List ℕ
keep_tail [] = []
keep_tail (b ∷ []) = if b == 0x80 then 0x80 ∷ [] else []
keep_tail (b ∷ c ∷ rest) = keep_tail (c ∷ rest)

abbrev pub push : Option Status → List Status × List ℕ → List Status × List ℕ
push none r = r
push (some s) (found, rest) = (s ∷ found, rest)

-- The inner loop: the frames found, and the buffer that is left. Each turn but the last takes a
-- frame's bytes away, so as much fuel as bytes is enough.
unfoldable pub extract_fuel : ℕ → List ℕ → List Status × List ℕ
unfolding find_mark keep_tail
extract_fuel zero buf = ([], buf)
extract_fuel (suc fuel) buf = elim (find_mark buf) [
  | none ↦ ([], keep_tail buf)
  | some s ↦
      let next = extract_fuel fuel (drop status_size s) in
      if ltb (length s) status_size then ([], s) else push (parse_status (take status_size s)) next
]

unfoldable pub extract : List ℕ → List Status × List ℕ
extract buf = extract_fuel (suc (length buf)) buf

-- The result of one `r.Read`: nothing yet (0 bytes with EOF or EAGAIN), bytes, or bytes, which may
-- be none, with an error that ends the loop.
pub data Read : Type 0 where
  idle : Read
  received : List ℕ → Read
  failed : List ℕ → Read

-- `readFrames` from a buffer on: what it sends to the channel.
unfoldable pub read_frames : List Read → List ℕ → List Status
read_frames [] buf = []
read_frames (idle ∷ reads) buf = read_frames reads buf
read_frames (received chunk ∷ reads) buf =
    let (found, rest) = extract (buf ++ chunk) in found ++ read_frames reads rest
read_frames (failed chunk ∷ reads) buf = (extract (buf ++ chunk)).0
