-- ===== src/Job/Parse.antt =====
-- internal/printer/qlbackend/job.go: ParseJob, the walk over a QL raster stream. A byte is a
-- number; the position of the source is kept as the number `i` beside the bytes not yet read.
pub mod Commands
pub mod Sound
pub mod Inversion
pub mod Complete
pub mod Copies
pub mod Ends
use raku_sika_hub.Prelude.{
  ℕ, zero, suc, ◌+◌, ◌-◌, ◌*◌, ◌≡◌, refl, Bool, true, false, not, ◌&&◌, ◌||◌, List, [], ◌∷◌, ◌++◌,
  length, get_or, take, drop, leb, ◌==◌, if◌then◌else◌, has_bit,
}
use raku_sika_hub.Result.{Result, ok, err, ◌>>=◌}

pub record Media : Type 0 where
  pub known : Bool
  pub kind : ℕ
  pub width_mm : ℕ

pub record Job : Type 0 where
  pub pages : ℕ
  pub media : Media
  pub two_color : Bool

-- The errors of the source, each with the position that its text names. `out_of_fuel` is the
-- model's own.
pub data Fault : Type 0 where
  ends_inside : ℕ → Fault
  unknown_esc : ℕ → ℕ → Fault
  unknown_esc_i : ℕ → ℕ → Fault
  unknown_byte : ℕ → ℕ → Fault
  unknown_command : ℕ → Fault
  row_not_convertible : ℕ → Fault
  not_convertible : ℕ → ℕ → Fault
  no_print_command : Fault
  out_of_fuel : Fault

-- Go's zero value of Job.
abbrev pub empty_job : Job
empty_job = record {
  pages = 0;
  media = record { known = false; kind = 0; width_mm = 0 };
  two_color = false;
}

-- `need(n)` at position i, with the n bytes that it guards split off.
unfoldable pub take_bytes : ℕ → ℕ → List ℕ → Result Fault (List ℕ × List ℕ)
take_bytes i n bytes =
    if leb n (length bytes) then ok (take n bytes, drop n bytes) else err (ends_inside i)

unfoldable pub next_byte : ℕ → List ℕ → Result Fault (ℕ × List ℕ)
next_byte i [] = err (ends_inside i)
next_byte i (b ∷ bytes) = ok (b, bytes)

-- The size of a command `ESC i c`, its three leading bytes counted.
abbrev pub escape_size : ℕ → ℕ
escape_size c =
    if c == b'S'
    then 3
    else if c == b'a' || c == b'M' || c == b'A' || c == b'K'
    then 4
    else if c == b'd'
    then 5
    else if c == b'z'
    then 13
    else 0

-- ESC i K with the two-colour bit, and the first ESC i z that marks kind and width as valid.
abbrev pub note_escape : ℕ → List ℕ → Job → Job
note_escape c args job =
    if c == b'K' && has_bit (get_or args 0 0) 0
    then record job { two_color = true }
    else if c == b'z'
        && not job.media.known
        && (has_bit (get_or args 0 0) 1 && has_bit (get_or args 0 0) 2)
    then record job {
      media = record { known = true; kind = get_or args 1 0; width_mm = get_or args 2 0 };
    }
    else job

-- `ESC i`, behind its two bytes.
unfoldable pub escape_i : ℕ → List ℕ → Job → Result Fault (Job × List ℕ)
unfolding take_bytes next_byte
escape_i i bytes job = do
  (k, body) ← next_byte i bytes
  if escape_size k == 0 then err (unknown_esc_i k i) else do
    (args, rest) ← take_bytes i (escape_size k - 3) body
    ok (note_escape k args job, rest)

-- `case 0x1B`, behind the byte 0x1B.
unfoldable pub escape : ℕ → List ℕ → Job → Result Fault (Job × List ℕ)
unfolding next_byte escape_i
escape i bytes job = do
  (c, after) ← next_byte i bytes
  if c == b'@'
      then ok (job, after)
      else if not (c == b'i')
      then err (unknown_esc c i)
      else escape_i i after job

-- A raster line `g 0x00 n` or `w colour n` with its n bytes.
unfoldable pub raster_line : ℕ → List ℕ → Job → Result Fault (Job × List ℕ)
unfolding take_bytes next_byte
raster_line i bytes job = do
  (_, a) ← next_byte i bytes
  (n, b) ← next_byte i a
  (_, rest) ← take_bytes i n b
  ok (job, rest)

-- A compressed line `G n1 n2`. The bits of n1 and n2 << 8 are disjoint, so their `|` is a sum.
unfoldable pub compressed_line : ℕ → List ℕ → Job → Result Fault (Job × List ℕ)
unfolding take_bytes next_byte
compressed_line i bytes job = do
  (n1, a) ← next_byte i bytes
  (n2, b) ← next_byte i a
  (_, rest) ← take_bytes i (n1 + n2 * 256) b
  ok (job, rest)

-- `M` with its mode byte.
unfoldable pub compression_mode : ℕ → List ℕ → Job → Result Fault (Job × List ℕ)
unfolding next_byte
compression_mode i bytes job = do (_, rest) ← next_byte i bytes; ok (job, rest)

-- One turn of the loop, behind its first byte c: the job and the bytes left.
unfoldable pub command : ℕ → ℕ → List ℕ → Job → Result Fault (Job × List ℕ)
unfolding raster_line compressed_line compression_mode escape
command i c bytes job =
    if c == 0x00
    then ok (job, bytes)
    else if c == 0x0C || c == 0x1A
    then ok (record job { pages = job.pages + 1 }, bytes)
    else if c == b'M'
    then compression_mode i bytes job
    else if c == b'Z'
    then ok (job, bytes)
    else if c == b'g'
    then raster_line i bytes job
    else if c == b'w'
    then raster_line i bytes (record job { two_color = true })
    else if c == b'G'
    then compressed_line i bytes job
    else if c == 0x1B
    then escape i bytes job
    else err (unknown_byte c i)

-- `for i < len(data)`; each turn leaves fewer bytes, so as much fuel as bytes is enough.
unfoldable pub walk : ℕ → ℕ → List ℕ → Job → Result Fault Job
unfolding command
walk fuel i [] job = ok job
walk zero i (c ∷ bytes) job = err out_of_fuel
walk (suc fuel) i (c ∷ bytes) job = do
  (job', rest) ← command i c bytes job
  walk fuel (i + (suc (length bytes) - length rest)) rest job'

-- The test behind the loop.
abbrev pub verdict : Job → Result Fault Job
verdict job = if job.pages == 0 then err no_print_command else ok job

unfoldable pub parse_job : List ℕ → Result Fault Job
unfolding walk
parse_job bytes = do job ← walk (length bytes) 0 bytes empty_job; verdict job
