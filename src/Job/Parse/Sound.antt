-- ===== src/Job/Parse/Sound.antt =====
-- internal/printer/qlbackend/job.go: every stream that follows the grammar is read as its commands say.
use raku_sika_hub.Prelude.{
  ℕ, zero, suc, ◌+◌, ◌-◌, ◌*◌, ◌≤◌, ◌<◌, ◌≡◌, refl, sym, ◌∙◌, List, [], ◌∷◌, ◌++◌, arith, length,
  le→leb, length-append, take-append, drop-append,
}
use mathlib.Core.List.{append_assoc}
use raku_sika_hub.Result.{ok}
use raku_sika_hub.Job.Parse.{Job, take_bytes, walk, verdict, parse_job, empty_job}
use raku_sika_hub.Job.Parse.Commands.{
  Command, invalidate, print, print_feed, zero_line, initialize, status_request, compression,
  mode_switch, various_mode, cut_every, expanded, margin, raster, two_colour, compressed,
  print_information, render, render_all, note, notes,
}

pub take_bytes-append :
    (i n : ℕ) (row rest : List ℕ) → length row ≡ n → take_bytes i n (row ++ rest) ≡ ok (row, rest)
unfolding take_bytes
take_bytes-append i n row rest e = rw (← e) (
    rw (le→leb (length row) (length (row ++ rest)) (omega (arith, length-append row rest)))
      (rw (take-append row rest, drop-append row rest)))

-- One turn of the loop reads one command.
step-render :
    (fuel i : ℕ) (c : Command) (rest : List ℕ) (job : Job)
    → walk (suc fuel) i (render c ++ rest) job
      ≡ walk fuel (i + (length (render c ++ rest) - length rest)) rest (note job c)
unfolding walk render note
step-render fuel i invalidate rest job = refl
step-render fuel i print rest job = refl
step-render fuel i print_feed rest job = refl
step-render fuel i zero_line rest job = refl
step-render fuel i initialize rest job = refl
step-render fuel i status_request rest job = rw (take_bytes-append i 0 [] rest refl, walk)
step-render fuel i (compression b) rest job = refl
step-render fuel i (mode_switch b) rest job = rw (take_bytes-append i 1 (b ∷ []) rest refl, walk)
step-render fuel i (various_mode b) rest job = rw (take_bytes-append i 1 (b ∷ []) rest refl, walk)
step-render fuel i (cut_every b) rest job = rw (take_bytes-append i 1 (b ∷ []) rest refl, walk)
step-render fuel i (expanded b) rest job =
    rw (take_bytes-append i 1 (b ∷ []) rest refl, walk) (ground arith)
step-render fuel i (margin a b) rest job = rw (take_bytes-append i 2 (a ∷ b ∷ []) rest refl, walk)
step-render fuel i (raster z row) rest job =
    rw (take_bytes-append i (length row) row rest refl, walk)
step-render fuel i (two_colour z row) rest job =
    rw (take_bytes-append i (length row) row rest refl, walk)
step-render fuel i (compressed n1 n2 row e) rest job =
    rw (take_bytes-append i (n1 + n2 * 256) row rest e, walk)
step-render fuel i (print_information f k w n4 n5 n6 n7 n8 n9 n10) rest job =
    rw (take_bytes-append i 10 (f ∷ k ∷ w ∷ n4 ∷ n5 ∷ n6 ∷ n7 ∷ n8 ∷ n9 ∷ n10 ∷ []) rest refl, walk)
      (ground arith)

-- Each command takes a byte at least, so as much fuel as bytes is enough.
pub length-render_pos : (c : Command) → 0 < length (render c)
unfolding render
length-render_pos (compression _) = omega arith
length-render_pos _ = omega arith

walk-render_all :
    (cs : List Command) (fuel i : ℕ) (job : Job)
    → length (render_all cs) ≤ fuel
    → walk fuel i (render_all cs) job ≡ ok (notes job cs)
unfolding render_all notes
walk-render_all [] zero i job h = unfold walk in refl
walk-render_all [] (suc fuel) i job h = unfold walk in refl
walk-render_all (c ∷ cs) zero i job h =
    absurd (omega (arith, length-append (render c) (render_all cs), length-render_pos c))
walk-render_all (c ∷ cs) (suc fuel) i job h =
    step-render fuel i c (render_all cs) job
    ∙ walk-render_all cs fuel _ (note job c)
        (omega (arith, length-append (render c) (render_all cs), length-render_pos c))

-- A stream that follows the grammar is read as its commands say, or refused for want of a page.
pub parse_job-render_all :
    (cs : List Command) → parse_job (render_all cs) ≡ verdict (notes empty_job cs)
unfolding parse_job
parse_job-render_all cs = rw (walk-render_all cs (length (render_all cs)) 0 empty_job (omega arith))

pub render_all-append :
    (cs ds : List Command) → render_all (cs ++ ds) ≡ render_all cs ++ render_all ds
unfolding render_all
render_all-append [] ds = refl
render_all-append (c ∷ cs) ds =
    rw (render_all-append cs ds) (sym (append_assoc (render c) (render_all cs) (render_all ds)))

pub notes-append :
    (job : Job) (cs ds : List Command) → notes job (cs ++ ds) ≡ notes (notes job cs) ds
unfolding notes
notes-append job [] ds = refl
notes-append job (c ∷ cs) ds = notes-append (note job c) cs ds
