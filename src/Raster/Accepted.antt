-- ===== src/Raster/Accepted.antt =====
-- internal/printer/qlraster/qlraster.go and internal/printer/qlbackend/job.go: the two ends of the
-- stream. What the hub encodes, the CUPS backend accepts.
use raku_sika_hub.Prelude.{
  ℕ, zero, suc, ◌+◌, ◌≤◌, ◌≡◌, refl, ◌∙◌, ◌⊎◌, Bool, true, false, List, [], ◌∷◌, ◌++◌, arith,
  length, replicate, ◌==◌, if◌then◌else◌, All,
}
use raku_sika_hub.Result.{ok}
use raku_sika_hub.Job.Parse.{Job, Media, parse_job, empty_job}
use raku_sika_hub.Job.Parse.Sound.{parse_job-render_all, notes-append}
use raku_sika_hub.Job.Parse.Commands.{
  Command, invalidate, print, print_feed, initialize, mode_switch, render_all, note, notes,
}
use raku_sika_hub.Raster.{Roll, Image, Options, is_last, head_dots, encode_pages, invalidate_bytes}
use raku_sika_hub.Raster.Stream.{
  Fits, first_column, row_commands, setup_commands, page_commands, pages_commands, job_commands,
  encode_pages-render,
}

notes-rows :
    (job : Job) (m : Roll) (left : ℕ) (img : Image) (n y : ℕ)
    → notes job (row_commands m left img n y) ≡ job
unfolding notes note row_commands
notes-rows job m left img zero y = refl
notes-rows job m left img (suc n) y = notes-rows job m left img n (y + 1)

notes-invalidates :
    (job : Job) (n : ℕ) (cs : List Command)
    → notes job (replicate n invalidate ++ cs) ≡ notes job cs
unfolding notes note
notes-invalidates job zero cs = refl
notes-invalidates job (suc n) cs = notes-invalidates job n cs

-- The roll that an encoded job asks for.
abbrev pub asked_media : Roll → Options → Media
asked_media m opts =
    if opts.no_media_check
    then record { known = false; kind = 0; width_mm = 0 }
    else record { known = true; kind = 0x0A; width_mm = m.width_mm }

abbrev Settled : Options → Job → Type 0
Settled opts job = (opts.no_media_check ≡ true) ⊎ (job.media.known ≡ true)

notes-setup_first :
    (h : ℕ) (m : Roll) (opts : Options)
    → notes empty_job (setup_commands h m opts true)
      ≡ record empty_job { media = asked_media m opts }
unfolding notes note setup_commands
notes-setup_first h m opts = ground arith

notes-setup :
    (h : ℕ) (m : Roll) (opts : Options) (first : Bool) (job : Job)
    → Settled opts job
    → notes job (setup_commands h m opts first) ≡ job
unfolding notes note setup_commands
notes-setup h m opts first job s = ground arith

notes-last :
    (last : Bool) (job : Job)
    → notes job ((if last then print_feed else print) ∷ []) ≡ record job { pages = job.pages + 1 }
unfolding notes note
notes-last true job = refl
notes-last false job = refl

notes-page :
    (img : Image) (m : Roll) (opts : Options) (first last : Bool) (job after : Job)
    → notes job (setup_commands img.height m opts first) ≡ after
    → notes job (page_commands img m opts first last) ≡ record after { pages = after.pages + 1 }
unfolding page_commands
notes-page img m opts first last job after e =
    notes-append job (setup_commands img.height m opts first) _
    ∙ rw
        (
          e,
          notes-append after (row_commands m (first_column m img) img img.height 0) _,
          notes-rows after m (first_column m img) img img.height 0,
        )
        (notes-last last after)

notes-pages :
    (m : Roll) (opts : Options) (i : ℕ) (imgs : List Image) (job : Job)
    → Settled opts job
    → notes job (pages_commands m opts i imgs) ≡ record job { pages = job.pages + length imgs }
unfolding pages_commands
notes-pages m opts i [] job s = unfold notes in ground arith
notes-pages m opts i (img ∷ imgs) job s =
    notes-append job (page_commands img m opts (i == 0) (is_last imgs)) _
    ∙ rw
        (notes-page img m opts (i == 0) (is_last imgs) job job
          (notes-setup img.height m opts (i == 0) job s))
        (notes-pages m opts (i + 1) imgs (record job { pages = job.pages + 1 }) s ∙ ground arith)

notes-modes :
    (job : Job) (cs : List Command) → notes job (initialize ∷ mode_switch 1 ∷ cs) ≡ notes job cs
unfolding notes note
notes-modes job cs = refl

asked_media-Settled :
    (m : Roll) (opts : Options)
    → Settled opts (record { pages = 1; media = asked_media m opts; two_color = false })
asked_media-Settled m opts = ground arith

notes-job :
    (img : Image) (imgs : List Image) (m : Roll) (opts : Options)
    → notes empty_job (job_commands m opts (img ∷ imgs))
      ≡ record empty_job { pages = suc (length imgs); media = asked_media m opts }
unfolding job_commands pages_commands
notes-job img imgs m opts =
    notes-invalidates empty_job invalidate_bytes _
    ∙ notes-modes empty_job _
    ∙ notes-append empty_job (page_commands img m opts true (is_last imgs)) _
    ∙ rw
        (notes-page img m opts true (is_last imgs) empty_job _
          (notes-setup_first img.height m opts))
        (notes-pages m opts 1 imgs _ (asked_media-Settled m opts) ∙ ground arith)

-- A job of n labels that fit a roll that the head spans is encoded, and the backend reads it as a black job of n pages
-- for that roll, or for any roll if the media check is off.
pub parse_job-encode_pages :
    (img : Image) (imgs : List Image) (m : Roll) (opts : Options)
    → m.dots_printable + m.offset_right ≤ head_dots
    → All (Fits m) (img ∷ imgs)
    → (bytes : List ℕ) × (encode_pages (img ∷ imgs) m opts ≡ ok bytes)
      × (parse_job bytes
          ≡ ok
              (record { pages = suc (length imgs); media = asked_media m opts; two_color = false }))
parse_job-encode_pages img imgs m opts s f = (
  render_all (job_commands m opts (img ∷ imgs)),
  encode_pages-render img imgs m opts s f,
  parse_job-render_all _ ∙ rw (notes-job img imgs m opts) (ground arith),
)
