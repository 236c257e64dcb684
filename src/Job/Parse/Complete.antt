-- ===== src/Job/Parse/Complete.antt =====
-- internal/printer/qlbackend/job.go: what the walk accepts follows the grammar.
use raku_sika_hub.Prelude.{
  ℕ, zero, suc, ◌<◌, ◌≡◌, refl, ◌∙◌, inl, inr, Bool, true, false, ◌||◌, List, [], ◌∷◌, arith,
  length, ◌==◌, Bool-cases,
}
use raku_sika_hub.Result.{ok, err, >>=-eq-ok}
use raku_sika_hub.Job.Parse.{
  Job, compression_mode, command, walk, verdict, parse_job, empty_job, unknown_byte,
}
use raku_sika_hub.Job.Parse.Commands.{
  Command, invalidate, print, print_feed, zero_line, compression, raster, two_colour, compressed,
  render, render_all, note, notes,
}
use raku_sika_hub.Job.Parse.Inversion.{
  Reads, raster_line-eq-ok, compressed_line-eq-ok, escape-eq-ok,
}

-- The first byte of an accepted command.
data Opcode (c : ℕ) : Type 0 where
  is_invalidate : c ≡ 0x00 → Opcode c
  is_print : c ≡ 0x0C → Opcode c
  is_print_feed : c ≡ 0x1A → Opcode c
  is_compression : c ≡ b'M' → Opcode c
  is_zero_line : c ≡ b'Z' → Opcode c
  is_raster : c ≡ b'g' → Opcode c
  is_two_colour : c ≡ b'w' → Opcode c
  is_compressed : c ≡ b'G' → Opcode c
  is_escape : c ≡ 0x1B → Opcode c

ruleset opcodes = (
  is_invalidate, is_print, is_print_feed, is_compression, is_zero_line, is_raster, is_two_colour,
  is_compressed, is_escape,
)

abbrev known_byte : ℕ → Bool
known_byte c =
    c == 0x00
    || (c == 0x0C
        || (c == 0x1A
            || (c == b'M'
                || (c == b'Z' || (c == b'g' || (c == b'w' || (c == b'G' || c == 0x1B)))))))

cases_of_byte : (c : ℕ) → known_byte c ≡ true → Opcode c
cases_of_byte c h = grind (arith, opcodes)

-- A byte that starts no command is refused with its position.
command-unknown :
    (i c : ℕ) (bytes : List ℕ) (job : Job)
    → known_byte c ≡ false
    → command i c bytes job ≡ err (unknown_byte c i)
unfolding command
command-unknown i c bytes job h = ground arith

opcode :
    (i c : ℕ) (bytes : List ℕ) (job : Job) {job' : Job} {rest : List ℕ}
    → command i c bytes job ≡ ok (job', rest)
    → Opcode c
opcode i c bytes job h = elim (Bool-cases (known_byte c)) [
  | inl e ↦ cases_of_byte c e
  | inr n ↦ absurd (cc (command-unknown i c bytes job n))
]

compression_mode-eq-ok :
    (i : ℕ) (bytes : List ℕ) (job : Job) {job' : Job} {rest : List ℕ}
    → compression_mode i bytes job ≡ ok (job', rest)
    → (b : ℕ) × (bytes ≡ b ∷ rest) × (job' ≡ job)
unfolding compression_mode
compression_mode-eq-ok i [] job h = cc
compression_mode-eq-ok i (b ∷ bytes) job h = (b, cc, cc)

command-eq-ok :
    (i c : ℕ) (bytes : List ℕ) (job : Job) {job' : Job} {rest : List ℕ}
    → Opcode c
    → command i c bytes job ≡ ok (job', rest)
    → Reads (c ∷ bytes) job job' rest
unfolding command render note
command-eq-ok i c bytes job (is_invalidate e) h = (invalidate, ground arith, ground arith)
command-eq-ok i c bytes job (is_print e) h = (print, ground arith, ground arith)
command-eq-ok i c bytes job (is_print_feed e) h = (print_feed, ground arith, ground arith)
command-eq-ok i c bytes job (is_compression e) h =
    let (b, bs, j) = compression_mode-eq-ok i bytes job (rw e at h) in (compression b, cc, cc)
command-eq-ok i c bytes job (is_zero_line e) h = (zero_line, ground arith, ground arith)
command-eq-ok i c bytes job (is_raster e) h =
    let (z, row, b, j) = raster_line-eq-ok i bytes job (rw e at h) in (raster z row, cc, cc)
command-eq-ok i c bytes job (is_two_colour e) h =
    let (z, row, b, j) = raster_line-eq-ok i bytes (record job { two_color = true }) (rw e at h) in
    (two_colour z row, cc, cc)
command-eq-ok i c bytes job (is_compressed e) h =
    let (n1, n2, row, l, b, j) = compressed_line-eq-ok i bytes job (rw e at h) in
    (compressed n1 n2 row l, cc, cc)
command-eq-ok i c bytes job (is_escape e) h = rw e (escape-eq-ok i bytes job (rw e at h))

pub command-Reads :
    (i c : ℕ) (bytes : List ℕ) (job : Job) {job' : Job} {rest : List ℕ}
    → command i c bytes job ≡ ok (job', rest)
    → Reads (c ∷ bytes) job job' rest
command-Reads i c bytes job h = command-eq-ok i c bytes job (opcode i c bytes job h) h

walk-eq-ok :
    (fuel i : ℕ) (bytes : List ℕ) (job : Job) {job' : Job}
    → walk fuel i bytes job ≡ ok job'
    → (cs : List Command) × (bytes ≡ render_all cs) × (job' ≡ notes job cs)
unfolding walk render_all notes
walk-eq-ok zero i [] job h = ([], refl, ground arith)
walk-eq-ok zero i (c ∷ bytes) job h = cc
walk-eq-ok (suc fuel) i [] job h = ([], refl, ground arith)
walk-eq-ok (suc fuel) i (c ∷ bytes) job h =
    let ((next, rest), e, f) = >>=-eq-ok (command i c bytes job) _ h in
    let (d, b, j) = command-Reads i c bytes job e in
    let (ds, bs, js) = walk-eq-ok fuel _ rest next f in (d ∷ ds, cc, cc)

verdict-eq-ok : (seen : Job) {job : Job} → verdict seen ≡ ok job → (job ≡ seen) × (0 < job.pages)
verdict-eq-ok seen h = (ground arith, ground arith)

-- What is accepted is a stream of the grammar that has a page, read as its commands say.
pub parse_job-eq-ok :
    (bytes : List ℕ) {job : Job}
    → parse_job bytes ≡ ok job
    → (cs : List Command) × (bytes ≡ render_all cs) × (job ≡ notes empty_job cs) × (0 < job.pages)
unfolding parse_job
parse_job-eq-ok bytes {job = job} h =
    let (seen, e, f) = >>=-eq-ok (walk (length bytes) 0 bytes empty_job) _ h in
    let (cs, b, j) = walk-eq-ok (length bytes) 0 bytes empty_job e in
    let (same, some_page) = verdict-eq-ok seen f in (cs, b, same ∙ j, some_page)
