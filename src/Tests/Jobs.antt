-- ===== src/Tests/Jobs.antt =====
-- internal/printer/qlbackend/job.go and internal/printer/qlraster/qlraster.go on small jobs.
use raku_sika_hub.Prelude.{
  ℕ, ◌+◌, ◌-◌, ◌<◌, ◌≡◌, refl, inr, ◌&&◌, true, false, List, [], ◌∷◌, All, arith, leb, ltb,
  if◌then◌else◌,
}
use raku_sika_hub.Result.{ok, err}
use raku_sika_hub.Job.Parse.{Job, parse_job, verdict, empty_job}
use raku_sika_hub.Job.Parse.Commands.{
  Command, invalidate, print_feed, raster, expanded, print_information, render, render_all, notes,
}
use raku_sika_hub.Job.Parse.Sound.{parse_job-render_all}
use raku_sika_hub.Job.Parse.Ends.{parse_job-ends}
use raku_sika_hub.Job.Parse.{out_of_fuel}
use raku_sika_hub.Prelude.{◌≢◌}
use raku_sika_hub.Job.Parse.Complete.{parse_job-eq-ok}
use raku_sika_hub.Job.TwoColor.{to_two_color}
use raku_sika_hub.Job.TwoColor.Convert.{convert_all, Rewrites, to_two_color-render_all}
use raku_sika_hub.Job.TwoColor.Keeps.{SameJob, black_rows, red_rows, IsBlank, to_two_color_keeps}
use raku_sika_hub.Raster.{
  Image, Options, gray, continuous62, ink_row, head_dots, head_pad, is_ink, encode_pages,
}
use raku_sika_hub.Raster.Rows.{dot, ink_row_mirrors}
use raku_sika_hub.Raster.Stream.{Fits}
use raku_sika_hub.Raster.Accepted.{parse_job-encode_pages}

-- One label of one line, for a roll of 62 mm.
abbrev small_job : List Command
small_job =
    invalidate
    ∷ print_information 0x8E 0x0A 62 0 1 0 0 0 0 0
    ∷ expanded 8
    ∷ raster 0 (3 ∷ 0 ∷ [])
    ∷ print_feed
    ∷ []

abbrev small_bytes : List ℕ
small_bytes =
    0x00 ∷ 0x1B ∷ b'i' ∷ b'z' ∷ 0x8E ∷ 0x0A ∷ 62 ∷ 0 ∷ 1 ∷ 0 ∷ 0 ∷ 0 ∷ 0 ∷ 0 ∷ 0x1B ∷ b'i' ∷ b'K'
    ∷ 8 ∷ b'g' ∷ 0 ∷ 2 ∷ 3 ∷ 0 ∷ 0x1A ∷ []

abbrev small_two : List ℕ
small_two =
    0x00 ∷ 0x1B ∷ b'i' ∷ b'z' ∷ 0x8E ∷ 0x0A ∷ 62 ∷ 0 ∷ 1 ∷ 0 ∷ 0 ∷ 0 ∷ 0 ∷ 0 ∷ 0x1B ∷ b'i' ∷ b'K'
    ∷ 9 ∷ b'w' ∷ 1 ∷ 2 ∷ 3 ∷ 0 ∷ b'w' ∷ 2 ∷ 2 ∷ 0 ∷ 0 ∷ 0x1A ∷ []

abbrev small_read : Job
small_read = record {
  pages = 1;
  media = record { known = true; kind = 0x0A; width_mm = 62 };
  two_color = false;
}

render-small_job : render_all small_job ≡ small_bytes
unfolding render_all render
render-small_job = refl

parse-small_job : parse_job small_bytes ≡ ok small_read
unfolding parse_job
parse-small_job = refl

rewrite-small_job : to_two_color small_bytes ≡ ok small_two
unfolding to_two_color
rewrite-small_job = refl

parse_job-render_all_example :
    parse_job (render_all small_job) ≡ verdict (notes empty_job small_job)
parse_job-render_all_example = parse_job-render_all small_job

parse_job-eq-ok_example :
    (cs : List Command) × (small_bytes ≡ render_all cs)
    × (small_read ≡ notes empty_job cs)
    × (0 < 1)
parse_job-eq-ok_example = parse_job-eq-ok small_bytes parse-small_job

to_two_color-render_all_example :
    Rewrites (convert_all small_job) [] (to_two_color (render_all small_job))
to_two_color-render_all_example = to_two_color-render_all small_job

to_two_color_keeps_example :
    (cs ds : List Command) × (small_bytes ≡ render_all cs)
    × (small_two ≡ render_all ds)
    × (black_rows ds ≡ black_rows cs)
    × All IsBlank (red_rows ds)
    × (job' : Job) × (parse_job small_two ≡ ok job')
    × SameJob small_read job'
to_two_color_keeps_example =
    to_two_color_keeps small_bytes small_two small_read parse-small_job rewrite-small_job

-- A label of 150 rows: the first column is black, the others are white.
abbrev striped : Image
striped = record { width = 696; height = 150; at = λ x y. if leb 1 x then gray 255 else gray 0 }

abbrev plain_options : Options
plain_options = record { cut = true; no_media_check = false }

striped-Fits : Fits continuous62 striped
striped-Fits = record { wide = inr refl; long = omega arith; short = omega arith }

parse_job-encode_pages_example :
    (bytes : List ℕ) × (encode_pages (striped ∷ []) continuous62 plain_options ≡ ok bytes)
    × (parse_job bytes ≡ ok small_read)
parse_job-encode_pages_example =
    parse_job-encode_pages striped [] continuous62 plain_options (omega arith) (striped-Fits, tt)

ink_row_mirrors_example : dot (ink_row continuous62 0 striped 7) (head_dots - 1 - 12) ≡ (
    if leb (head_pad continuous62) 12 && ltb 12 (head_pad continuous62 + 696)
    then is_ink (striped.at (0 + (12 - head_pad continuous62)) 7)
    else false)
ink_row_mirrors_example = ink_row_mirrors continuous62 0 striped 7 12 (omega arith) (omega arith)

-- A raster line that is cut off.
parse_job-ends_example : parse_job (b'g' ∷ 0 ∷ 9 ∷ []) ≢ err out_of_fuel
parse_job-ends_example = parse_job-ends (b'g' ∷ 0 ∷ 9 ∷ [])
