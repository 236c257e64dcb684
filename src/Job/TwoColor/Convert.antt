-- ===== src/Job/TwoColor/Convert.antt =====
-- internal/printer/qlbackend/job.go: ToTwoColor against a conversion of the grammar's commands.
use raku_sika_hub.Prelude.{
  ℕ, zero, suc, ◌+◌, ◌-◌, ◌≤◌, ◌≡◌, refl, sym, ap, ◌∙◌, inl, inr, Option, none, some, List, [], ◌∷◌,
  ◌++◌, arith, length, replicate, length-append, length-replicate, set_bit, Option-cases,
}
use mathlib.Core.List.{append-nil, append_assoc}
use raku_sika_hub.Result.{Result, ok, err}
use raku_sika_hub.Job.Parse.{Fault, row_not_convertible}
use raku_sika_hub.Job.Parse.Sound.{take_bytes-append, length-render_pos, render_all-append}
use raku_sika_hub.Job.Parse.Commands.{
  Command, invalidate, print, print_feed, zero_line, initialize, status_request, compression,
  mode_switch, various_mode, cut_every, expanded, margin, raster, two_colour, compressed,
  print_information, render, render_all,
}
use raku_sika_hub.Job.TwoColor.{rewrite, to_two_color}

-- What stands for a command on a red and black roll; a line that is not plain has no counterpart.
unfoldable pub convert : Command → Option (List Command)
convert (raster zero row) = some (two_colour 1 row ∷ two_colour 2 (replicate (length row) 0) ∷ [])
convert (raster (suc z) row) = none
convert zero_line = none
convert (compression b) = none
convert (two_colour c row) = none
convert (compressed n1 n2 row e) = none
convert (expanded b) = some (expanded (set_bit b 0) ∷ [])
convert c = some (c ∷ [])

abbrev pub both : Option (List Command) → Option (List Command) → Option (List Command)
both (some a) (some b) = some (a ++ b)
both _ _ = none

unfoldable pub convert_all : List Command → Option (List Command)
convert_all [] = some []
convert_all (c ∷ cs) = both (convert c) (convert_all cs)

-- One turn of the loop on one command, if it has a counterpart.
step-convert :
    (fuel i : ℕ) (c : Command) (rest out : List ℕ) (ds : List Command)
    → convert c ≡ some ds
    → rewrite (suc fuel) i (render c ++ rest) out
      ≡ rewrite fuel (i + (length (render c ++ rest) - length rest)) rest (out ++ render_all ds)
unfolding rewrite render convert render_all
step-convert fuel i invalidate rest out ds h = ground arith
step-convert fuel i print rest out ds h = ground arith
step-convert fuel i print_feed rest out ds h = ground arith
step-convert fuel i zero_line rest out ds h = cc
step-convert fuel i initialize rest out ds h = ground arith
step-convert fuel i status_request rest out ds h =
    rw (take_bytes-append i 0 ([]) rest refl, rewrite) (ground arith)
step-convert fuel i (compression b) rest out ds h = cc
step-convert fuel i (mode_switch b) rest out ds h =
    rw (take_bytes-append i 1 (b ∷ []) rest refl, rewrite) (ground arith)
step-convert fuel i (various_mode b) rest out ds h =
    rw (take_bytes-append i 1 (b ∷ []) rest refl, rewrite) (ground arith)
step-convert fuel i (cut_every b) rest out ds h =
    rw (take_bytes-append i 1 (b ∷ []) rest refl, rewrite) (ground arith)
step-convert fuel i (expanded b) rest out ds h =
    rw (take_bytes-append i 1 (b ∷ []) rest refl, rewrite) (ground arith)
step-convert fuel i (margin a b) rest out ds h =
    rw (take_bytes-append i 2 (a ∷ b ∷ []) rest refl, rewrite) (ground arith)
step-convert fuel i (raster zero row) rest out ds h =
    rw (take_bytes-append i (length row) row rest refl, rewrite)
      (ground (
        arith,
        length-replicate {A = ℕ} (length row) 0,
        append-nil {A = ℕ} (replicate (length row) 0),
      ))
step-convert fuel i (raster (suc z) row) rest out ds h = cc
step-convert fuel i (two_colour z row) rest out ds h = cc
step-convert fuel i (compressed n1 n2 row e) rest out ds h = cc
step-convert fuel i (print_information f k w n4 n5 n6 n7 n8 n9 n10) rest out ds h =
    rw
      (
        take_bytes-append i 10 (f ∷ k ∷ w ∷ n4 ∷ n5 ∷ n6 ∷ n7 ∷ n8 ∷ n9 ∷ n10 ∷ []) rest refl,
        rewrite,
      )
      (ground arith)

-- One turn of the loop on a command without counterpart.
step-convert-none :
    (fuel i : ℕ) (c : Command) (rest out : List ℕ)
    → convert c ≡ none
    → (e : Fault) × (rewrite (suc fuel) i (render c ++ rest) out ≡ err e)
unfolding rewrite render convert
step-convert-none fuel i zero_line rest out h = (_, refl)
step-convert-none fuel i (compression b) rest out h = (_, refl)
step-convert-none fuel i (raster zero row) rest out h = cc
step-convert-none fuel i (raster (suc z) row) rest out h = (row_not_convertible i, ground arith)
step-convert-none fuel i (two_colour z row) rest out h = (_, refl)
step-convert-none fuel i (compressed n1 n2 row e) rest out h = (_, refl)
step-convert-none fuel i _ rest out h = absurd (cc)

-- The rewriting of a stream that follows the grammar is the stream of its converted commands.
abbrev pub Rewrites : Option (List Command) → List ℕ → Result Fault (List ℕ) → Type 0
Rewrites (some ds) out r = r ≡ ok (out ++ render_all ds)
Rewrites none out r = (e : Fault) × (r ≡ err e)

Rewrites-both :
    (ds : List Command) (o : Option (List Command)) (out : List ℕ) (r : Result Fault (List ℕ))
    → Rewrites o (out ++ render_all ds) r
    → Rewrites (both (some ds) o) out r
Rewrites-both ds none out r h = h
Rewrites-both ds (some es) out r h =
    rw (render_all-append ds es) (h ∙ ap ok (append_assoc out (render_all ds) (render_all es)))

rewrite-convert_all :
    (cs : List Command) (fuel i : ℕ) (out : List ℕ)
    → length (render_all cs) ≤ fuel
    → Rewrites (convert_all cs) out (rewrite fuel i (render_all cs) out)
unfolding convert_all render_all
rewrite-convert_all [] zero i out h = unfold rewrite in ap ok (sym (append-nil out))
rewrite-convert_all [] (suc fuel) i out h = unfold rewrite in ap ok (sym (append-nil out))
rewrite-convert_all (c ∷ cs) zero i out h =
    absurd (omega (arith, length-append (render c) (render_all cs), length-render_pos c))
rewrite-convert_all (c ∷ cs) (suc fuel) i out h = elim (Option-cases (convert c)) [
  | inl e ↦ rw e (step-convert-none fuel i c (render_all cs) out e)
  | inr (ds, e) ↦
      rw (e, step-convert fuel i c (render_all cs) out ds e)
        (Rewrites-both ds (convert_all cs) out _ (
          rewrite-convert_all cs fuel _ (out ++ render_all ds)
            (omega (arith, length-append (render c) (render_all cs), length-render_pos c))))
]

-- ToTwoColor rewrites a stream of the grammar command by command, or refuses it.
pub to_two_color-render_all :
    (cs : List Command) → Rewrites (convert_all cs) [] (to_two_color (render_all cs))
unfolding to_two_color
to_two_color-render_all cs = rewrite-convert_all cs (length (render_all cs)) 0 [] (omega arith)
