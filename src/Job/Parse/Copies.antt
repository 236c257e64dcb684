-- ===== src/Job/Parse/Copies.antt =====
-- internal/printer/qlbackend/job.go: what is read of a job that is sent several times in one stream.
use raku_sika_hub.Prelude.{
  ℕ, ◌+◌, ◌≡◌, refl, sym, ap, ◌∙◌, inl, inr, true, false, List, [], ◌∷◌, arith, Bool-cases,
}
use raku_sika_hub.Job.Parse.{Job, Media, empty_job}
use raku_sika_hub.Job.Parse.Commands.{
  Command, print, print_feed, two_colour, expanded, print_information, note, notes,
}

note-pages : (c : Command) (j k : Job) → (note j c).pages + k.pages ≡ (note k c).pages + j.pages
unfolding note
note-pages print j k = omega arith
note-pages print_feed j k = omega arith
note-pages (two_colour _ _) j k = omega arith
note-pages (expanded b) j k = ground arith
note-pages (print_information f kind w n4 n5 n6 n7 n8 n9 n10) j k = ground arith
note-pages _ j k = omega arith

notes-pages :
    (cs : List Command) (j k : Job) → (notes j cs).pages + k.pages ≡ (notes k cs).pages + j.pages
unfolding notes
notes-pages [] j k = omega arith
notes-pages (c ∷ cs) j k = omega (arith, note-pages c j k, notes-pages cs (note j c) (note k c))

note-two_color :
    (c : Command) (j k : Job)
    → j.two_color ≡ k.two_color
    → (note j c).two_color ≡ (note k c).two_color
unfolding note
note-two_color (two_colour _ _) j k h = refl
note-two_color (expanded b) j k h = ground arith
note-two_color (print_information f kind w n4 n5 n6 n7 n8 n9 n10) j k h = ground arith
note-two_color _ j k h = h

notes-two_color :
    (cs : List Command) (j k : Job)
    → j.two_color ≡ k.two_color
    → (notes j cs).two_color ≡ (notes k cs).two_color
unfolding notes
notes-two_color [] j k h = h
notes-two_color (c ∷ cs) j k h = notes-two_color cs (note j c) (note k c) (note-two_color c j k h)

note-two_color_stays : (c : Command) (j : Job) → j.two_color ≡ true → (note j c).two_color ≡ true
unfolding note
note-two_color_stays (two_colour _ _) j h = refl
note-two_color_stays (expanded b) j h = ground arith
note-two_color_stays (print_information f kind w n4 n5 n6 n7 n8 n9 n10) j h = ground arith
note-two_color_stays _ j h = h

notes-two_color_stays :
    (cs : List Command) (j : Job) → j.two_color ≡ true → (notes j cs).two_color ≡ true
unfolding notes
notes-two_color_stays [] j h = h
notes-two_color_stays (c ∷ cs) j h =
    notes-two_color_stays cs (note j c) (note-two_color_stays c j h)

note-media : (c : Command) (j k : Job) → j.media ≡ k.media → (note j c).media ≡ (note k c).media
unfolding note
note-media (expanded b) j k h = ground arith
note-media (print_information f kind w n4 n5 n6 n7 n8 n9 n10) j k h = ground arith
note-media _ j k h = h

notes-media :
    (cs : List Command) (j k : Job) → j.media ≡ k.media → (notes j cs).media ≡ (notes k cs).media
unfolding notes
notes-media [] j k h = h
notes-media (c ∷ cs) j k h = notes-media cs (note j c) (note k c) (note-media c j k h)

note-media_stays : (c : Command) (j : Job) → j.media.known ≡ true → (note j c).media ≡ j.media
unfolding note
note-media_stays (expanded b) j h = ground arith
note-media_stays (print_information f kind w n4 n5 n6 n7 n8 n9 n10) j h = ground arith
note-media_stays _ j h = refl

notes-media_stays :
    (cs : List Command) (j : Job) → j.media.known ≡ true → (notes j cs).media ≡ j.media
unfolding notes
notes-media_stays [] j h = refl
notes-media_stays (c ∷ cs) j h =
    let same = note-media_stays c j h in
    notes-media_stays cs (note j c) (ap (λ (m : Media). m.known) same ∙ h) ∙ same

note-media_unknown :
    (c : Command) (j : Job) → (note j c).media.known ≡ false → (note j c).media ≡ j.media
unfolding note
note-media_unknown (expanded b) j h = ground arith
note-media_unknown (print_information f kind w n4 n5 n6 n7 n8 n9 n10) j h = ground arith
note-media_unknown _ j h = refl

notes-media_unknown :
    (cs : List Command) (j : Job) → (notes j cs).media.known ≡ false → (notes j cs).media ≡ j.media
unfolding notes
notes-media_unknown [] j h = refl
notes-media_unknown (c ∷ cs) j h = elim (Bool-cases (note j c).media.known) [
  | inl on ↦ let stays = notes-media_stays cs (note j c) on in absurd (cc)
  | inr off ↦ notes-media_unknown cs (note j c) h ∙ note-media_unknown c j off
]

-- A job that has the roll and the colours of what is read once has them again.
notes_again-media :
    (cs : List Command) (j : Job)
    → j.media ≡ (notes empty_job cs).media
    → (notes j cs).media ≡ j.media
notes_again-media cs j h = elim (Bool-cases j.media.known) [
  | inl on ↦ notes-media_stays cs j on
  | inr off ↦
      let was = notes-media_unknown cs empty_job (ap (λ (m : Media). m.known) (sym h) ∙ off) in
      notes-media cs j empty_job (h ∙ was) ∙ sym h
]

notes_again-two_color :
    (cs : List Command) (j : Job)
    → j.two_color ≡ (notes empty_job cs).two_color
    → (notes j cs).two_color ≡ j.two_color
notes_again-two_color cs j h = elim (Bool-cases j.two_color) [
  | inl on ↦ notes-two_color_stays cs j on ∙ sym on
  | inr off ↦ notes-two_color cs j empty_job off ∙ sym h
]

-- The same commands once more add their pages, and nothing else.
pub notes_again :
    (cs : List Command) (n : ℕ)
    → notes (record (notes empty_job cs) { pages = n }) cs
      ≡ record (notes empty_job cs) { pages = n + (notes empty_job cs).pages }
notes_again cs n =
    let once = notes empty_job cs in
    let j = record once { pages = n } in
    let same_media = notes_again-media cs j refl in
    let same_colours = notes_again-two_color cs j refl in
    let more : (notes j cs).pages ≡ n + once.pages = omega (arith, notes-pages cs j empty_job) in
    λ i. record { pages = more i; media = same_media i; two_color = same_colours i }
