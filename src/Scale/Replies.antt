-- ===== src/Scale/Replies.antt =====
-- internal/scale/protocol.go: ParseWeighResponse on the replies of an A&D scale.
use raku_sika_hub.Prelude.{
  ℕ, zero, suc, ◌≤◌, ◌≡◌, refl, sym, ap, ◌∙◌, Bool, true, false, Option, none, some, List, [], ◌∷◌,
  ◌++◌, arith, All, All-append, length, length-append, take, drop, replicate, length-replicate,
  if◌then◌else◌, take-append, drop-append,
}
use mathlib.Core.List.{append_assoc, append-nil}
use raku_sika_hub.Result.{Result, ok, err}
use raku_sika_hub.Scale.Text.{
  same_bytes, is_empty, trim_line_end, trim_left, trim_right, split_two, space_width,
}
use raku_sika_hub.Scale.Protocol.{
  ParseError, empty_body, bad_float, header_st, header_us, header_ol, is_letter, last_alpha,
  split_unit, trim_space, parse_value_unit, parse_fields, parse_weigh_response,
}
use raku_sika_hub.Scale.Lines.{
  IsPlain, IsLetter, IsSolid, IsTame, trim_left-solid, trim_left-blanks, trim_right-tame,
  trim_right-all_blank, trim_line_end-crlf, is_empty-append, last_alpha-unit,
}

solid-IsTame : (xs : List ℕ) → All IsSolid xs → All IsTame xs
solid-IsTame [] h = tt
solid-IsTame (x ∷ xs) h = ((omega (arith, h.0.0), h.0.1), solid-IsTame xs h.1)

plain-IsSolid : (xs : List ℕ) → All IsPlain xs → All IsSolid xs
plain-IsSolid [] h = tt
plain-IsSolid (x ∷ xs) h = ((h.0.0, omega (arith, h.0.1)), plain-IsSolid xs h.1)

plain_no_letter : (xs : List ℕ) → All IsPlain xs → All (λ b. is_letter b ≡ false) xs
plain_no_letter [] h = tt
plain_no_letter (x ∷ xs) h = (ground arith, plain_no_letter xs h.1)

letter-IsSolid : (b : ℕ) → IsLetter b → IsSolid b
letter-IsSolid b h = ground arith

letters-IsSolid : (xs : List ℕ) → All IsLetter xs → All IsSolid xs
letters-IsSolid [] h = tt
letters-IsSolid (x ∷ xs) h = (letter-IsSolid x h.0, letters-IsSolid xs h.1)

blanks-IsTame : (n : ℕ) → All IsTame (replicate n 0x20)
blanks-IsTame zero = tt
blanks-IsTame (suc n) = ((omega arith, omega arith), blanks-IsTame n)

blanks_no_letter : (n : ℕ) → All (λ b. is_letter b ≡ false) (replicate n 0x20)
blanks_no_letter zero = tt
blanks_no_letter (suc n) = (refl, blanks_no_letter n)

-- Blanks before a byte that is no white space are dropped at the start.
trim_left-lead :
    (lead fuel : ℕ) (ns : List ℕ) (n : ℕ) (ys : List ℕ)
    → lead ≤ fuel
    → All IsSolid ns
    → IsSolid n
    → trim_left fuel (replicate lead 0x20 ++ (ns ++ (n ∷ ys))) ≡ ns ++ (n ∷ ys)
trim_left-lead lead fuel [] n ys e t h = trim_left-blanks lead fuel n ys e h
trim_left-lead lead fuel (m ∷ ns) n ys e t h = trim_left-blanks lead fuel m (ns ++ (n ∷ ys)) e t.0

trim_right-trail :
    (gap fuel : ℕ) (ns : List ℕ) (n : ℕ)
    → gap ≤ fuel
    → All IsSolid ns
    → IsSolid n
    → trim_right fuel (ns ++ (n ∷ replicate gap 0x20)) ≡ ns ++ (n ∷ [])
unfolding trim_right
trim_right-trail gap fuel [] n e t h =
    rw (trim_left-solid fuel n (replicate gap 0x20) h, trim_right-all_blank gap fuel e) refl
trim_right-trail gap fuel (m ∷ ns) n e t h =
    rw (trim_left-solid fuel m (ns ++ (n ∷ replicate gap 0x20)) t.0)
      (ap (◌∷◌ m) (trim_right-trail gap fuel ns n e t.1 h))

-- What is between blanks at the start and a byte that is no white space is left by TrimSpace.
trim_space-lead :
    (lead : ℕ) (ns : List ℕ) (n : ℕ) (mid : List ℕ) (u : ℕ)
    → All IsSolid ns
    → IsSolid n
    → All IsTame mid
    → IsSolid u
    → trim_space (replicate lead 0x20 ++ (ns ++ (n ∷ (mid ++ (u ∷ [])))))
      ≡ ns ++ (n ∷ (mid ++ (u ∷ [])))
trim_space-lead lead ns n mid u t h m k =
    let front = replicate lead 0x20 ++ (ns ++ (n ∷ mid)) in
    let body = replicate lead 0x20 ++ (ns ++ (n ∷ (mid ++ (u ∷ [])))) in
    let cut : front ++ (u ∷ []) ≡ body =
      append_assoc (replicate lead 0x20) (ns ++ (n ∷ mid)) (u ∷ [])
      ∙ ap (◌++◌ (replicate lead 0x20)) (append_assoc ns (n ∷ mid) (u ∷ [])) in
    let tame =
      All-append IsTame (replicate lead 0x20) (ns ++ (n ∷ mid)) (blanks-IsTame lead)
        (All-append IsTame ns (n ∷ mid) (solid-IsTame ns t) ((omega (arith, h.0), h.1), m)) in
    let right : trim_right (length body) body ≡ body =
      ap (trim_right (length body)) (sym cut)
      ∙ trim_right-tame front (length body) u tame k
      ∙ cut in
    ap (trim_left (length body)) right
    ∙ trim_left-lead lead (length body) ns n (mid ++ (u ∷ []))
        (omega (
          arith,
          length-append (replicate lead 0x20) (ns ++ (n ∷ (mid ++ (u ∷ [])))),
          length-replicate {A = ℕ} lead 0x20,
        ))
        t h

split_unit-at :
    (body : List ℕ) (i : ℕ)
    → last_alpha body (length body) none ≡ some i
    → split_unit body ≡ (trim_space (take i body), trim_space (drop i body))
unfolding split_unit
split_unit-at body i h =
    ap
      (λ o. elim o as (λ _. List ℕ × List ℕ) [
        | none ↦ (body, [])
        | some k ↦ (trim_space (take k body), trim_space (drop k body))
      ])
      h

abbrev pub header_of : Bool → List ℕ
header_of true = header_st
header_of false = header_us

trim_space-header : (stable : Bool) → trim_space (header_of stable) ≡ header_of stable
unfolding trim_right trim_left
trim_space-header true = unfold space_width in refl
trim_space-header false = unfold space_width in refl

join :
    (a b c : List ℕ) (n u : ℕ) (ys : List ℕ)
    → (a ++ (b ++ (n ∷ c))) ++ (u ∷ ys) ≡ a ++ ((b ++ (n ∷ (c ++ (u ∷ [])))) ++ ys)
join [] [] c n u ys = ap (◌∷◌ n) (sym (append_assoc c (u ∷ []) ys))
join [] (x ∷ b) c n u ys = ap (◌∷◌ x) (join [] b c n u ys)
join (x ∷ a) b c n u ys = ap (◌∷◌ x) (join a b c n u ys)

module _ {F : Type 0} (zero_value : F) (parse_float : List ℕ → Option F) where
  parse_value_unit-cut :
      (body text num unit : List ℕ) (v : F)
      → trim_space body ≡ text
      → split_unit text ≡ (num, unit)
      → is_empty text ≡ false
      → parse_float num ≡ some v
      → parse_value_unit zero_value parse_float body ≡ ok (v, unit)
  unfolding parse_value_unit
  parse_value_unit-cut body text num unit v t s e f =
      let value_of = λ (x : List ℕ) (p : List ℕ × List ℕ).
        if is_empty x
        then err empty_body
        else elim (parse_float p.0) as (λ _. Result ParseError (F × List ℕ)) [
          | none ↦ err bad_float
          | some w ↦ ok (w, p.1)
        ] in
      let given : value_of text (num, unit) ≡ ok (v, unit) = rw (e, f) refl in
      ap (λ x. value_of x (split_unit x)) t ∙ ap (value_of text) s ∙ given

  parse_weigh_response-cut :
      (raw line front back header body : List ℕ)
      → trim_line_end raw ≡ line
      → is_empty line ≡ false
      → same_bytes line header_ol ≡ false
      → split_two 0x2C line ≡ some (front, back)
      → trim_space front ≡ header
      → trim_space back ≡ body
      → parse_weigh_response zero_value parse_float raw
        ≡ parse_fields zero_value parse_float header body
  unfolding parse_weigh_response parse_fields parse_value_unit
  parse_weigh_response-cut raw line front back header body l e o s f b =
      rw (l, e, o, s) (λ i. parse_fields zero_value parse_float (f i) (b i))

  parse_fields-reply :
      (stable : Bool) (body : List ℕ) (v : F) (unit : List ℕ)
      → parse_value_unit zero_value parse_float body ≡ ok (v, unit)
      → parse_fields zero_value parse_float (header_of stable) body
        ≡ ok (record { header = header_of stable; value = v; unit = unit; stable = stable })
  unfolding parse_fields same_bytes
  parse_fields-reply true body v unit h = rw h refl
  parse_fields-reply false body v unit h = rw h refl

-- A numeral, blanks, and letters for a unit, cut as split_unit cuts them.
module _ (ns : List ℕ) (n gap : ℕ) (us : List ℕ) (u : ℕ) (plain_front : All IsPlain ns)
    (plain_last : IsPlain n) (letters_front : All IsLetter us) (letter_last : IsLetter u) where
  abbrev numeral : List ℕ
  numeral = ns ++ (n ∷ replicate gap 0x20)

  abbrev text : List ℕ
  text = ns ++ (n ∷ ((replicate gap 0x20 ++ us) ++ (u ∷ [])))

  n-IsSolid : IsSolid n
  n-IsSolid = (plain_last.0, omega (arith, plain_last.1))

  cut_text : numeral ++ (us ++ (u ∷ [])) ≡ text
  cut_text =
      append_assoc ns (n ∷ replicate gap 0x20) (us ++ (u ∷ []))
      ∙ ap (λ x. ns ++ (n ∷ x)) (sym (append_assoc (replicate gap 0x20) us (u ∷ [])))

  trim_space-numeral : trim_space numeral ≡ ns ++ (n ∷ [])
  trim_space-numeral =
      ap (trim_left (length numeral)) (
        trim_right-trail gap (length numeral) ns n
          (omega
            (arith, length-append ns (n ∷ replicate gap 0x20), length-replicate {A = ℕ} gap 0x20))
          (plain-IsSolid ns plain_front) n-IsSolid)
      ∙ trim_left-lead 0 (length numeral) ns n [] (omega arith) (plain-IsSolid ns plain_front)
          n-IsSolid

  trim_space-unit : trim_space (us ++ (u ∷ [])) ≡ us ++ (u ∷ [])
  trim_space-unit =
      let fuel = length (us ++ (u ∷ [])) in
      let solid = letters-IsSolid us letters_front in
      ap (trim_left fuel)
        (trim_right-tame us fuel u (solid-IsTame us solid) (letter-IsSolid u letter_last))
      ∙ trim_left-lead 0 fuel us u [] (omega arith) solid (letter-IsSolid u letter_last)

  split_unit-text : split_unit text ≡ (ns ++ (n ∷ []), us ++ (u ∷ []))
  unfolding split_unit
  split_unit-text =
      let unit_ = us ++ (u ∷ []) in
      let at_ =
        last_alpha-unit numeral unit_
          (All-append (λ b. is_letter b ≡ false) ns (n ∷ replicate gap 0x20)
            (plain_no_letter ns plain_front) (ground (arith, plain_last), blanks_no_letter gap))
          (All-append IsLetter us (u ∷ []) letters_front (letter_last, tt))
          (omega (arith, length-append ns (n ∷ replicate gap 0x20)))
          (omega (arith, length-append us (u ∷ []))) in
      ap split_unit (sym cut_text)
      ∙ split_unit-at (numeral ++ unit_) (length numeral) at_
      ∙ ap (λ x. (trim_space x, trim_space (drop (length numeral) (numeral ++ unit_))))
          (take-append numeral unit_)
      ∙ ap (λ x. (trim_space numeral, trim_space x)) (drop-append numeral unit_)
      ∙ ap (λ x. (x, trim_space unit_)) trim_space-numeral
      ∙ ap (λ x. (ns ++ (n ∷ []), x)) trim_space-unit

  trim_space-text : (lead : ℕ) → trim_space (replicate lead 0x20 ++ text) ≡ text
  trim_space-text lead =
      trim_space-lead lead ns n (replicate gap 0x20 ++ us) u (plain-IsSolid ns plain_front)
        n-IsSolid
        (All-append IsTame (replicate gap 0x20) us (blanks-IsTame gap)
          (solid-IsTame us (letters-IsSolid us letters_front)))
        (letter-IsSolid u letter_last)

  -- The line of a reply, without its end.
  abbrev line : Bool → ℕ → List ℕ
  line stable lead = header_of stable ++ (0x2C ∷ (replicate lead 0x20 ++ text))

  ends :
      (lead : ℕ) (header : List ℕ)
      → trim_line_end (header ++ (0x2C ∷ (replicate lead 0x20 ++ (text ++ (0x0D ∷ 0x0A ∷ [])))))
        ≡ header ++ (0x2C ∷ (replicate lead 0x20 ++ text))
  ends lead header =
      let front = replicate lead 0x20 ++ (ns ++ (n ∷ (replicate gap 0x20 ++ us))) in
      let joined = λ (ys : List ℕ).
        append_assoc header (0x2C ∷ front) (u ∷ ys)
        ∙ ap (λ x. header ++ (0x2C ∷ x))
            (join (replicate lead 0x20) ns (replicate gap 0x20 ++ us) n u ys) in
      ap trim_line_end (sym (joined (0x0D ∷ 0x0A ∷ [])))
      ∙ trim_line_end-crlf (header ++ (0x2C ∷ front)) u (letter-IsSolid u letter_last)
      ∙ joined []
      ∙ ap (λ x. header ++ (0x2C ∷ (replicate lead 0x20 ++ x))) (append-nil text)

  trim_line_end-line :
      (stable : Bool) (lead : ℕ)
      → trim_line_end
          (header_of stable ++ (0x2C ∷ (replicate lead 0x20 ++ (text ++ (0x0D ∷ 0x0A ∷ [])))))
        ≡ line stable lead
  trim_line_end-line true lead = ends lead header_st
  trim_line_end-line false lead = ends lead header_us

  starts : (stable : Bool) (lead : ℕ) → is_empty (line stable lead) ≡ false
  starts true lead = refl
  starts false lead = refl

  no_overload : (stable : Bool) (lead : ℕ) → same_bytes (line stable lead) header_ol ≡ false
  unfolding same_bytes
  no_overload true lead = refl
  no_overload false lead = refl

  parts :
      (stable : Bool) (lead : ℕ)
      → split_two 0x2C (line stable lead) ≡ some (header_of stable, replicate lead 0x20 ++ text)
  unfolding split_two
  parts true lead = refl
  parts false lead = refl

  module _ {F : Type 0} (zero_value : F) (parse_float : List ℕ → Option F) (v : F)
      (reads : parse_float (ns ++ (n ∷ [])) ≡ some v) where
    parse_value_unit-text : parse_value_unit zero_value parse_float text ≡ ok (v, us ++ (u ∷ []))
    parse_value_unit-text =
        parse_value_unit-cut zero_value parse_float text text (ns ++ (n ∷ [])) (us ++ (u ∷ [])) v
          (trim_space-text 0) split_unit-text
          (is_empty-append ns n ((replicate gap 0x20 ++ us) ++ (u ∷ []))) reads

    -- The reply of the scale to a weigh command - ST or US, a comma, blanks, a numeral, blanks and a
    -- unit of letters, and the line end - is read as that header, the value that strconv.ParseFloat
    -- gives for the numeral, and that unit; it is stable for ST.
    pub parse_weigh_response-line :
        (stable : Bool) (lead : ℕ)
        → parse_weigh_response zero_value parse_float
            (header_of stable ++ (0x2C ∷ (replicate lead 0x20 ++ (text ++ (0x0D ∷ 0x0A ∷ [])))))
          ≡ ok (record {
            header = header_of stable;
            value = v;
            unit = us ++ (u ∷ []);
            stable = stable;
          })
    parse_weigh_response-line stable lead =
        parse_weigh_response-cut zero_value parse_float _ (line stable lead) (header_of stable)
          (replicate lead 0x20 ++ text) (header_of stable) text (trim_line_end-line stable lead)
          (starts stable lead) (no_overload stable lead) (parts stable lead)
          (trim_space-header stable) (trim_space-text lead)
        ∙ parse_fields-reply zero_value parse_float stable text v (us ++ (u ∷ []))
            parse_value_unit-text
