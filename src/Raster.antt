-- ===== src/Raster.antt =====
-- internal/printer/qlraster/qlraster.go: the raster byte stream of a label. An image is its size and
-- its colours by column and row, counted from the corner `Bounds().Min`.
pub mod Rows
pub mod Stream
pub mod Accepted
use raku_sika_hub.Prelude.{
  ℕ, zero, suc, ◌+◌, ◌-◌, ◌*◌, ◌/◌, ◌%◌, ◌^◌, Bool, true, false, ◌||◌, List, [], ◌∷◌, ◌++◌, leb,
  ltb, ◌==◌, if◌then◌else◌, set, get_or, replicate, set_bit, min,
}
use raku_sika_hub.Result.{Result, ok, err, ◌>>=◌}

abbrev pub head_dots : ℕ
head_dots = 720

abbrev pub row_bytes : ℕ
row_bytes = 90

abbrev pub min_rows : ℕ
min_rows = 150

abbrev pub max_rows : ℕ
max_rows = 11811

abbrev pub ink_threshold : ℕ
ink_threshold = 127

abbrev pub invalidate_bytes : ℕ
invalidate_bytes = 400

-- Media, without the name that only texts show.
pub record Roll : Type 0 where
  pub width_mm : ℕ  -- byte
  pub dots_total : ℕ
  pub dots_printable : ℕ
  pub offset_right : ℕ
  pub feed_margin : ℕ  -- uint16

abbrev pub continuous62 : Roll
continuous62 = record {
  width_mm = 62;
  dots_total = 732;
  dots_printable = 696;
  offset_right = 12;
  feed_margin = 35;
}

pub record Options : Type 0 where
  pub cut : Bool
  pub no_media_check : Bool

-- The colours that an image decoded from PNG holds: components of bytes, or of 16 bits; `rgba` and
-- `rgba64` are premultiplied. A pixel of a paletted image is the colour of its entry.
pub data Color : Type 0 where
  gray gray16 : ℕ → Color
  nrgba rgba nrgba64 rgba64 : (r g b a : ℕ) → Color

pub record Image : Type 0 where
  pub width : ℕ
  pub height : ℕ
  pub at : ℕ → ℕ → Color

-- color.NRGBAModel on a premultiplied component of 16 bits (Go's image/color).
abbrev pub unmultiply : ℕ → ℕ → ℕ
unmultiply v a = if a == 65535 then v / 256 else if a == 0 then 0 else v * 65535 / a / 256

abbrev pub luma : ℕ → ℕ → ℕ → ℕ
luma r g b = (r * 19595 + g * 38470 + b * 7471 + 0x8000) / 65536

-- 255-l >= inkThreshold.
abbrev is_dark : ℕ → Bool
is_dark l = leb ink_threshold (255 - l)

abbrev is_ink_rgba : (r g b a : ℕ) → Bool
is_ink_rgba r g b a = is_dark (luma (unmultiply r a) (unmultiply g a) (unmultiply b a))

unfoldable pub is_ink : Color → Bool
is_ink (gray y) = is_dark y
is_ink (gray16 y) = is_ink_rgba y y y 65535
is_ink (nrgba r g b a) = is_dark (luma r g b)
is_ink (rgba r g b a) = is_ink_rgba (r * 257) (g * 257) (b * 257) (a * 257)
is_ink (nrgba64 r g b a) = is_ink_rgba (r * a / 65535) (g * a / 65535) (b * a / 65535) a
is_ink (rgba64 r g b a) = is_ink_rgba r g b a

-- row[hx/8] |= 0x80 >> (hx % 8), for a dot hx of the head; past it the index panics (`index_panics`).
unfoldable pub set_dot : List ℕ → ℕ → List ℕ
set_dot row hx = set row (hx / 8) (set_bit (get_or row (hx / 8) 0) (7 - hx % 8))

-- `for x < m.DotsPrintable` with n columns left to visit, x being the next one.
unfoldable pub ink_columns : (ℕ → Bool) → ℕ → ℕ → ℕ → List ℕ → List ℕ
unfolding set_dot
ink_columns ink pad zero x row = row
ink_columns ink pad (suc n) x row =
    ink_columns ink pad n (x + 1) (if ink x then set_dot row (head_dots - 1 - (pad + x)) else row)

-- `pad` of the source, or else -pad where it is negative: the printable part reaches past the head.
abbrev pub head_pad : Roll → ℕ
head_pad m = head_dots - m.dots_printable - m.offset_right

abbrev pub past_head : Roll → ℕ
past_head m = m.dots_printable + m.offset_right - head_dots

-- The bytes of the row y, starting from a cleared row, if no dot lies past the head: the columns there
-- are not ink.
unfoldable pub ink_row : Roll → ℕ → Image → ℕ → List ℕ
unfolding ink_columns
ink_row m left img y =
    ink_columns (λ x. is_ink (img.at (left + (past_head m + x)) y)) (head_pad m)
      (m.dots_printable - past_head m) 0 (replicate row_bytes 0)

-- Whether one of the columns from x on, n of them, is ink.
unfoldable pub any_ink : (ℕ → Bool) → ℕ → ℕ → Bool
any_ink ink zero x = false
any_ink ink (suc n) x = ink x || any_ink ink n (x + 1)

-- Whether an index is out of range in one of n rows from y on: a dot in the first -pad columns.
unfoldable pub index_panics : Roll → ℕ → Image → ℕ → ℕ → Bool
unfolding any_ink
index_panics m left img zero y = false
index_panics m left img (suc n) y =
    any_ink (λ x. is_ink (img.at (left + x) y)) (min (past_head m) m.dots_printable) 0
    || index_panics m left img n (y + 1)

-- `for y < h`, with n rows left.
unfoldable pub raster_rows : Roll → ℕ → Image → ℕ → ℕ → List ℕ
raster_rows m left img zero y = []
raster_rows m left img (suc n) y =
    (0x67 ∷ 0x00 ∷ row_bytes ∷ ink_row m left img y) ++ raster_rows m left img n (y + 1)

abbrev pub le16 : ℕ → List ℕ
le16 n = n % 256 ∷ n / 256 % 256 ∷ []

abbrev pub le32 : ℕ → List ℕ
le32 n = n % 256 ∷ n / 256 % 256 ∷ n / 65536 % 256 ∷ n / 16777216 % 256 ∷ []

-- piRecover | piQuality | piLength | piWidth | piKind, or the first two.
abbrev pub valid_flags : Options → ℕ
valid_flags opts = if opts.no_media_check then 0xC0 else 0xCE

pub data EncodeError : Type 0 where
  no_pages : EncodeError
  bad_width bad_length : EncodeError
  -- no error but a panic: an index out of range, which a roll that the head spans rules out
  panicked : EncodeError
  -- the page that failed, counted from 1
  at_page : ℕ → EncodeError → EncodeError

-- The commands of a page before its rows.
unfoldable pub page_setup : ℕ → Roll → Options → Bool → List ℕ
page_setup h m opts first =
    (0x1B ∷ 0x69 ∷ 0x7A ∷ valid_flags opts ∷ 0x0A ∷ m.width_mm ∷ 0x00 ∷ [])
    ++ (le32 h
        ++ (((if first then 0 else 1) ∷ 0x00 ∷ [])
            ++ ((if opts.cut
                  then 0x1B ∷ 0x69 ∷ 0x4D ∷ 0x40 ∷ 0x1B ∷ 0x69 ∷ 0x41 ∷ 0x01 ∷ []
                  else [])
                ++ ((0x1B ∷ 0x69 ∷ 0x4B ∷ (if opts.cut then 8 else 0) ∷ [])
                    ++ ((0x1B ∷ 0x69 ∷ 0x64 ∷ []) ++ le16 m.feed_margin)))))

-- The `switch w`: the first column of the image that is printed.
abbrev pub left_column : Roll → ℕ → Result EncodeError ℕ
left_column m w =
    if w == m.dots_total
    then ok ((m.dots_total - m.dots_printable) / 2)
    else if w == m.dots_printable
    then ok 0
    else err bad_width

unfoldable pub write_page : Image → Roll → Options → Bool → Bool → Result EncodeError (List ℕ)
write_page img m opts first last = do
  left ← left_column m img.width
  if ltb img.height min_rows || ltb max_rows img.height
      then err bad_length
      else if index_panics m left img img.height 0
      then err panicked
      else ok (
          page_setup img.height m opts first
          ++ (raster_rows m left img img.height 0 ++ ((if last then 0x1A else 0x0C) ∷ [])))

-- The loop over the images from the i-th on; `%w` keeps the page's number.
abbrev pub is_last : List Image → Bool
is_last [] = true
is_last (_ ∷ _) = false

abbrev pub name_page : ℕ → Result EncodeError (List ℕ) → Result EncodeError (List ℕ)
name_page i (ok bytes) = ok bytes
name_page i (err panicked) = err panicked
name_page i (err e) = err (at_page (i + 1) e)

unfoldable pub write_pages : Roll → Options → ℕ → List Image → Result EncodeError (List ℕ)
write_pages m opts i [] = ok []
write_pages m opts i (img ∷ imgs) = do
  page ← name_page i (write_page img m opts (i == 0) (is_last imgs))
  rest ← write_pages m opts (i + 1) imgs
  ok (page ++ rest)

-- Invalidate, ESC @, ESC i a.
unfoldable pub job_setup : List ℕ
job_setup = replicate invalidate_bytes 0 ++ (0x1B ∷ 0x40 ∷ 0x1B ∷ 0x69 ∷ 0x61 ∷ 0x01 ∷ [])

unfoldable pub encode_pages : List Image → Roll → Options → Result EncodeError (List ℕ)
encode_pages [] m opts = err no_pages
encode_pages (img ∷ imgs) m opts = do
  pages ← write_pages m opts 0 (img ∷ imgs)
  ok (job_setup ++ pages)

-- One label.
unfoldable pub encode : Image → Roll → Options → Result EncodeError (List ℕ)
encode img m opts = encode_pages (img ∷ []) m opts
