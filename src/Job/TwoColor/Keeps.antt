-- ===== src/Job/TwoColor/Keeps.antt =====
-- internal/printer/qlbackend/job.go: what a stream keeps when ToTwoColor rewrites it.
use raku_sika_hub.Prelude.{
  ℕ, zero, suc, ◌<◌, ◌≡◌, refl, sym, ap, ◌∙◌, inl, inr, Option, none, some, List, [], ◌∷◌, ◌++◌,
  arith, All, length, replicate, Option-cases, ◌==◌, if◌then◌else◌,
}
use mathlib.Core.Option.{some-injective}
use mathlib.Core.Path.{subst}
use raku_sika_hub.Result.{ok}
use raku_sika_hub.Job.Parse.{Job, parse_job, verdict, empty_job}
use raku_sika_hub.Job.Parse.Sound.{parse_job-render_all, notes-append}
use raku_sika_hub.Job.Parse.Complete.{parse_job-eq-ok}
use raku_sika_hub.Job.Parse.Commands.{
  Command, zero_line, compression, raster, two_colour, compressed, render_all, note, notes,
}
use raku_sika_hub.Job.TwoColor.{to_two_color}
use raku_sika_hub.Job.TwoColor.Convert.{convert, convert_all, both, to_two_color-render_all}

-- The jobs agree in all but the colour mode.
abbrev pub SameJob : Job → Job → Type 0
SameJob a b = (a.pages ≡ b.pages) × (a.media ≡ b.media)

note-convert :
    (c : Command) (ds : List Command) (a b : Job)
    → convert c ≡ some ds
    → SameJob a b
    → SameJob (note a c) (notes b ds)
unfolding convert note notes
note-convert (raster zero row) ds a b h s = ground arith
note-convert (raster (suc z) row) ds a b h s = cc
note-convert _ ds a b h s = ground arith

-- The rows for the black print, in order, and those for the red one.
pub black_rows : List Command → List (List ℕ)
black_rows [] = []
black_rows (raster z row ∷ cs) = row ∷ black_rows cs
black_rows (two_colour c row ∷ cs) = let rest = black_rows cs in if c == 1 then row ∷ rest else rest
black_rows (_ ∷ cs) = black_rows cs

pub red_rows : List Command → List (List ℕ)
red_rows [] = []
red_rows (two_colour c row ∷ cs) = let rest = red_rows cs in if c == 2 then row ∷ rest else rest
red_rows (_ ∷ cs) = red_rows cs

abbrev pub IsBlank : List ℕ → Type 0
IsBlank = All (λ b. b ≡ 0)

replicate-IsBlank : (n : ℕ) → IsBlank (replicate n 0)
replicate-IsBlank zero = tt
replicate-IsBlank (suc n) = (refl, replicate-IsBlank n)

both-eq-some :
    (o p : Option (List Command)) {ds : List Command}
    → both o p ≡ some ds
    → (front back : List Command) × (o ≡ some front) × (p ≡ some back) × (front ++ back ≡ ds)
both-eq-some none p h = cc
both-eq-some (some a) none h = cc
both-eq-some (some a) (some b) h = (a, b, refl, refl, cc)

-- What the conversion keeps: the pages, the roll, the black print; nothing is printed in red.
pub record Kept (cs ds : List Command) : Type 0 where
  pub same_job : (a b : Job) → SameJob a b → SameJob (notes a cs) (notes b ds)
  pub same_black : black_rows ds ≡ black_rows cs
  pub no_red : All IsBlank (red_rows ds)

black_rows-convert :
    (c : Command) (ds cs es : List Command)
    → convert c ≡ some ds
    → black_rows es ≡ black_rows cs
    → black_rows (ds ++ es) ≡ black_rows (c ∷ cs)
unfolding convert black_rows
black_rows-convert (raster zero row) ds cs es h s =
    subst (λ t. black_rows (t ++ es) ≡ row ∷ black_rows cs) (some-injective _ _ h) (ap (◌∷◌ row) s)
black_rows-convert (raster (suc z) row) ds cs es h s = cc
black_rows-convert zero_line ds cs es h s = cc
black_rows-convert (compression b) ds cs es h s = cc
black_rows-convert (two_colour b row) ds cs es h s = cc
black_rows-convert (compressed n1 n2 row e) ds cs es h s = cc
black_rows-convert _ ds cs es h s =
    subst (λ t. black_rows (t ++ es) ≡ black_rows cs) (some-injective _ _ h) s

red_rows-convert :
    (c : Command) (ds es : List Command)
    → convert c ≡ some ds
    → All IsBlank (red_rows es)
    → All IsBlank (red_rows (ds ++ es))
unfolding convert red_rows
red_rows-convert (raster zero row) ds es h s =
    subst (λ t. All IsBlank (red_rows (t ++ es))) (some-injective _ _ h)
      (replicate-IsBlank (length row), s)
red_rows-convert (raster (suc z) row) ds es h s = absurd (cc)
red_rows-convert zero_line ds es h s = absurd (cc)
red_rows-convert (compression b) ds es h s = absurd (cc)
red_rows-convert (two_colour b row) ds es h s = absurd (cc)
red_rows-convert (compressed n1 n2 row e) ds es h s = absurd (cc)
red_rows-convert _ ds es h s =
    subst (λ t. All IsBlank (red_rows (t ++ es))) (some-injective _ _ h) s

Kept-cons :
    (c : Command) (cs front back : List Command)
    → convert c ≡ some front
    → Kept cs back
    → Kept (c ∷ cs) (front ++ back)
Kept-cons c cs front back e kept = record {
  same_job = λ a b s.
      rw (notes-append b front back)
        (unfold notes in kept.same_job (note a c) (notes b front) (note-convert c front a b e s));
  same_black = black_rows-convert c front cs back e kept.same_black;
  no_red = red_rows-convert c front back e kept.no_red;
}

Kept-nil : Kept [] []
unfolding notes black_rows red_rows
Kept-nil = record { same_job = λ a b s. s; same_black = refl; no_red = tt }

Kept-convert_all : (cs : List Command) {ds : List Command} → convert_all cs ≡ some ds → Kept cs ds
unfolding convert_all
Kept-convert_all [] h = subst (Kept []) (some-injective _ _ h) Kept-nil
Kept-convert_all (c ∷ cs) h =
    let (front, back, e, f, j) = both-eq-some (convert c) (convert_all cs) h in
    subst (Kept (c ∷ cs)) j (Kept-cons c cs front back e (Kept-convert_all cs f))

verdict_pos : (job : Job) → 0 < job.pages → verdict job ≡ ok job
verdict_pos job h = ground arith

-- Whenever ParseJob and ToTwoColor both accept a stream, the rewritten stream is a job with as many
-- labels for the same roll; its black rows are those of the original, in order, and its red rows
-- are empty.
pub to_two_color_keeps :
    (bytes out : List ℕ) (job : Job)
    → parse_job bytes ≡ ok job
    → to_two_color bytes ≡ ok out
    → (cs ds : List Command) × (bytes ≡ render_all cs)
      × (out ≡ render_all ds)
      × (black_rows ds ≡ black_rows cs)
      × All IsBlank (red_rows ds)
      × (job' : Job) × (parse_job out ≡ ok job')
      × SameJob job job'
to_two_color_keeps bytes out job p t =
    let (cs, b, j, some_page) = parse_job-eq-ok bytes p in
    let t' = ap to_two_color (sym b) ∙ t in
    elim (Option-cases (convert_all cs)) [
      | inl e ↦ absurd (cc ((rw e at (to_two_color-render_all cs)).1))
      | inr (ds, e) ↦
          let kept = Kept-convert_all cs e in
          let same = kept.same_job empty_job empty_job (refl, refl) in
          let rendered : out ≡ render_all ds = cc (rw e at (to_two_color-render_all cs)) in
          (
            cs,
            ds,
            b,
            rendered,
            kept.same_black,
            kept.no_red,
            notes empty_job ds,
            ap parse_job rendered
                ∙ parse_job-render_all ds
                ∙ verdict_pos (notes empty_job ds) (omega (arith, ap (λ (t : Job). t.pages) j)),
            rw j same,
          )
    ]
