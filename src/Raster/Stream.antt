-- ===== src/Raster/Stream.antt =====
-- internal/printer/qlraster/qlraster.go: the stream as commands of the grammar that ParseJob reads.
use raku_sika_hub.Prelude.{
  ℕ, zero, suc, ◌+◌, ◌-◌, ◌/◌, ◌%◌, ◌≤◌, ◌≡◌, refl, ap, ◌⊎◌, Bool, true, false, ◌||◌, List, [], ◌∷◌,
  ◌++◌, arith, replicate, ltb, min, ◌==◌, if◌then◌else◌, All,
}
use mathlib.Core.List.{append_assoc}
use raku_sika_hub.Result.{ok}
use raku_sika_hub.Job.Parse.Sound.{render_all-append}
use raku_sika_hub.Job.Parse.Commands.{
  Command, invalidate, print, print_feed, initialize, mode_switch, various_mode, cut_every,
  expanded, margin, raster, print_information, render, render_all,
}
use raku_sika_hub.Raster.{
  Roll, Image, Options, min_rows, max_rows, ink_row, raster_rows, valid_flags, left_column,
  index_panics, any_ink, is_ink, past_head, head_dots, page_setup, write_page, is_last, write_pages,
  job_setup, encode_pages, invalidate_bytes,
}
use raku_sika_hub.Raster.Rows.{length-ink_row}

-- A label that the source accepts for the roll.
pub record Fits (m : Roll) (img : Image) : Type 0 where
  pub wide : (img.width ≡ m.dots_total) ⊎ (img.width ≡ m.dots_printable)
  pub long : min_rows ≤ img.height
  pub short : img.height ≤ max_rows

abbrev pub first_column : Roll → Image → ℕ
first_column m img = if img.width == m.dots_total then (m.dots_total - m.dots_printable) / 2 else 0

unfoldable pub row_commands : Roll → ℕ → Image → ℕ → ℕ → List Command
row_commands m left img zero y = []
row_commands m left img (suc n) y =
    raster 0 (ink_row m left img y) ∷ row_commands m left img n (y + 1)

unfoldable pub setup_commands : ℕ → Roll → Options → Bool → List Command
setup_commands h m opts first =
    print_information (valid_flags opts) 0x0A m.width_mm 0 (h % 256) (h / 256 % 256)
      (h / 65536 % 256) (h / 16777216 % 256) (if first then 0 else 1) 0
    ∷ ((if opts.cut then various_mode 0x40 ∷ cut_every 1 ∷ [] else [])
        ++ (expanded (if opts.cut then 8 else 0)
            ∷ margin (m.feed_margin % 256) (m.feed_margin / 256 % 256)
            ∷ []))

unfoldable pub page_commands : Image → Roll → Options → Bool → Bool → List Command
page_commands img m opts first last =
    setup_commands img.height m opts first
    ++ (row_commands m (first_column m img) img img.height 0
        ++ ((if last then print_feed else print) ∷ []))

raster_rows-render :
    (m : Roll) (left : ℕ) (img : Image) (n y : ℕ)
    → raster_rows m left img n y ≡ render_all (row_commands m left img n y)
unfolding raster_rows row_commands render_all render
raster_rows-render m left img zero y = refl
raster_rows-render m left img (suc n) y =
    rw (length-ink_row m left img y, raster_rows-render m left img n (y + 1))

page_setup-render :
    (h : ℕ) (m : Roll) (opts : Options) (first : Bool)
    → page_setup h m opts first ≡ render_all (setup_commands h m opts first)
unfolding page_setup setup_commands render_all render
page_setup-render h m opts first = ground arith

left_column-Fits :
    (img : Image) (m : Roll) → Fits m img → left_column m img.width ≡ ok (first_column m img)
left_column-Fits img m f = ground arith

last-render :
    (last : Bool)
    → (if last then 0x1A else 0x0C) ∷ [] ≡ render_all ((if last then print_feed else print) ∷ [])
unfolding render_all render
last-render true = refl
last-render false = refl

-- A roll that the head spans.
abbrev pub IsSpanned : Roll → Type 0
IsSpanned m = m.dots_printable + m.offset_right ≤ head_dots

any_ink-none : (ink : ℕ → Bool) (n x : ℕ) → n ≡ 0 → any_ink ink n x ≡ false
unfolding any_ink
any_ink-none ink zero x e = refl
any_ink-none ink (suc n) x e = absurd (omega arith)

index_panics-spanned :
    (m : Roll) (left : ℕ) (img : Image) (n y : ℕ)
    → IsSpanned m
    → index_panics m left img n y ≡ false
unfolding index_panics
index_panics-spanned m left img zero y s = refl
index_panics-spanned m left img (suc n) y s =
    let here =
      any_ink-none (λ x. is_ink (img.at (left + x) y)) (min (past_head m) m.dots_printable) 0
        (omega (arith, s)) in
    rw here (index_panics-spanned m left img n (y + 1) s)

write_page-render :
    (img : Image) (m : Roll) (opts : Options) (first last : Bool)
    → IsSpanned m
    → Fits m img
    → write_page img m opts first last ≡ ok (render_all (page_commands img m opts first last))
unfolding write_page page_commands
write_page-render img m opts first last s f =
    let in_range : (ltb img.height min_rows || ltb max_rows img.height) ≡ false = ground arith in
    rw
      (
        left_column-Fits img m f,
        in_range,
        index_panics-spanned m (first_column m img) img img.height 0 s,
        page_setup-render img.height m opts first,
        raster_rows-render m (first_column m img) img img.height 0,
        render_all-append (setup_commands img.height m opts first) _,
        render_all-append (row_commands m (first_column m img) img img.height 0) _,
      )
      (rw (last-render last))

unfoldable pub pages_commands : Roll → Options → ℕ → List Image → List Command
pages_commands m opts i [] = []
pages_commands m opts i (img ∷ imgs) =
    page_commands img m opts (i == 0) (is_last imgs) ++ pages_commands m opts (i + 1) imgs

unfoldable pub job_commands : Roll → Options → List Image → List Command
job_commands m opts imgs =
    replicate invalidate_bytes invalidate
    ++ (initialize ∷ mode_switch 1 ∷ pages_commands m opts 0 imgs)

write_pages-render :
    (m : Roll) (opts : Options) (i : ℕ) (imgs : List Image)
    → IsSpanned m
    → All (Fits m) imgs
    → write_pages m opts i imgs ≡ ok (render_all (pages_commands m opts i imgs))
unfolding write_pages pages_commands
write_pages-render m opts i [] s f = unfold render_all in refl
write_pages-render m opts i (img ∷ imgs) s (f, fs) = rw (
  write_page-render img m opts (i == 0) (is_last imgs) s f,
  write_pages-render m opts (i + 1) imgs s fs,
  render_all-append (page_commands img m opts (i == 0) (is_last imgs)) _,
)

invalidates-render :
    (n : ℕ) (cs : List Command)
    → render_all (replicate n invalidate ++ cs) ≡ replicate n 0 ++ render_all cs
unfolding render_all render
invalidates-render zero cs = refl
invalidates-render (suc n) cs = ap (◌∷◌ 0) (invalidates-render n cs)

-- Labels that fit a roll that the head spans are encoded as their commands.
pub encode_pages-render :
    (img : Image) (imgs : List Image) (m : Roll) (opts : Options)
    → IsSpanned m
    → All (Fits m) (img ∷ imgs)
    → encode_pages (img ∷ imgs) m opts ≡ ok (render_all (job_commands m opts (img ∷ imgs)))
unfolding encode_pages job_commands
encode_pages-render img imgs m opts s f =
    rw (write_pages-render m opts 0 (img ∷ imgs) s f, invalidates-render invalidate_bytes _)
      (unfold job_setup render_all render in
        ap ok (
          append_assoc (replicate invalidate_bytes 0) (0x1B ∷ 0x40 ∷ 0x1B ∷ 0x69 ∷ 0x61 ∷ 0x01 ∷ [])
            _))
