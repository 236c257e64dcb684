-- ===== src/Status/Problems.antt =====
-- internal/printer/qlbackend/status.go: which error bytes are problems, and that none is told twice.
use raku_sika_hub.Prelude.{
  ℕ, ◌<◌, ◌%◌, ◌/◌, ◌≡◌, refl, inl, inr, ◌≢◌, ◌↔◌, false, ◌||◌, List, [], ◌∷◌, ◌++◌, arith, has_bit,
  Bool-cases,
}
use raku_sika_hub.Status.{
  Status, Problem, Flag, Message, Message-discrete, same_message, seen, add, add_flags, problems,
  err1_flags, err2_flags,
}

-- No flag of the table is set.
abbrev pub Clear : ℕ → List Flag → Type 0
Clear byte [] = Unit {0}
Clear byte (f ∷ fs) = (has_bit byte f.bit ≡ false) × Clear byte fs

append_one-ne-nil {ℓ} : {A : Type ℓ} (xs : List A) (x : A) → xs ++ (x ∷ []) ≢ []
append_one-ne-nil [] x e = cc
append_one-ne-nil (y ∷ ys) x e = cc

add-ne-nil : (f : Flag) (out : List Problem) → add f out ≢ []
unfolding add
add-ne-nil f [] e = cc
add-ne-nil f (p ∷ ps) e = elim (Bool-cases (seen f.message (p ∷ ps))) [
  | inl t ↦ cc (rw t at e)
  | inr n ↦
      append_one-ne-nil (p ∷ ps) (record { message = f.message; reason = f.reason }) (rw n at e)
]

add_flags-nil :
    (byte : ℕ) (fs : List Flag) (out : List Problem)
    → (add_flags byte fs out ≡ []) ↔ ((out ≡ []) × Clear byte fs)
unfolding add_flags
add_flags-nil byte [] out = (λ e. (e, tt), λ h. h.0)
add_flags-nil byte (f ∷ fs) out = elim (Bool-cases (has_bit byte f.bit)) [
  | inl t ↦ rw t (
    λ e. absurd (add-ne-nil f out ((add_flags-nil byte fs (add f out)).0 e).0),
    λ h. absurd (cc (h.1.0)),
  )
  | inr n ↦ rw n (
    λ e. let h = (add_flags-nil byte fs out).0 e in (h.0, (refl, h.1)),
    λ h. (add_flags-nil byte fs out).1 (h.0, h.1.1),
  )
]

first_byte : (b : ℕ) → b < 256 → Clear b err1_flags ↔ ((b % 8 ≡ 0) × (b < 128))
first_byte b h = (λ c. ground arith, λ c. ground arith)

second_byte : (b : ℕ) → b < 256 → Clear b err2_flags ↔ ((b % 32 ≡ 0) × (b / 64 ≡ 0))
second_byte b h = (λ c. ground arith, λ c. ground arith)

-- If err1 and err2 are bytes, a frame has no problem exactly when bits 0x01, 0x02, 0x04 and 0x80 of
-- err1 and all bits of err2 but 0x20 are clear: bit 0x10 of err1, "in use", is no problem.
problems-nil :
    (s : Status)
    → s.err1 < 256
    → s.err2 < 256
    → (problems s ≡ [])
      ↔ ((s.err1 % 8 ≡ 0) × (s.err1 < 128) × (s.err2 % 32 ≡ 0) × (s.err2 / 64 ≡ 0))
unfolding problems
problems-nil s a b = (
  λ e.
      let (first, second) =
        (add_flags-nil s.err2 err2_flags (add_flags s.err1 err1_flags [])).0 e in
      let one = (first_byte s.err1 a).0 ((add_flags-nil s.err1 err1_flags []).0 first).1 in
      let two = (second_byte s.err2 b).0 second in (one.0, one.1, two.0, two.1),
  λ h. (add_flags-nil s.err2 err2_flags (add_flags s.err1 err1_flags [])).1 (
    (add_flags-nil s.err1 err1_flags []).1 (refl, (first_byte s.err1 a).1 (h.0, h.1)),
    (second_byte s.err2 b).1 (h.2, h.3),
  ),
)

same_message_comm : (a b : Message) → same_message a b ≡ same_message b a
unfolding same_message
same_message_comm a b = ground (arith, Message-discrete a b, Message-discrete b a)

-- No message stands twice.
abbrev pub IsDistinct : List Problem → Type 0
IsDistinct [] = Unit {0}
IsDistinct (p ∷ ps) = (seen p.message ps ≡ false) × IsDistinct ps

seen-append : (m : Message) (ps qs : List Problem) → seen m (ps ++ qs) ≡ (seen m ps || seen m qs)
unfolding seen
seen-append m [] qs = refl
seen-append m (p ∷ ps) qs = ground (arith, seen-append m ps qs)

append_one-IsDistinct :
    (ps : List Problem) (q : Problem)
    → seen q.message ps ≡ false
    → IsDistinct ps
    → IsDistinct (ps ++ (q ∷ []))
unfolding seen
append_one-IsDistinct [] q u d = (refl, tt)
append_one-IsDistinct (p ∷ ps) q u d = (
  ground (arith, seen-append p.message ps (q ∷ []), same_message_comm p.message q.message),
  append_one-IsDistinct ps q (ground arith) d.1,
)

add-IsDistinct : (f : Flag) (out : List Problem) → IsDistinct out → IsDistinct (add f out)
unfolding add
add-IsDistinct f out d = elim (Bool-cases (seen f.message out)) [
  | inl t ↦ rw t d
  | inr n ↦ rw n (append_one-IsDistinct out (record { message = f.message; reason = f.reason }) n d)
]

add_flags-IsDistinct :
    (byte : ℕ) (fs : List Flag) (out : List Problem)
    → IsDistinct out
    → IsDistinct (add_flags byte fs out)
unfolding add_flags
add_flags-IsDistinct byte [] out d = d
add_flags-IsDistinct byte (f ∷ fs) out d = elim (Bool-cases (has_bit byte f.bit)) [
  | inl t ↦ rw t (add_flags-IsDistinct byte fs (add f out) (add-IsDistinct f out d))
  | inr n ↦ rw n (add_flags-IsDistinct byte fs out d)
]

-- The tablet is told each text once, whatever bits are set.
problems-IsDistinct : (s : Status) → IsDistinct (problems s)
unfolding problems
problems-IsDistinct s =
    add_flags-IsDistinct s.err2 err2_flags _ (add_flags-IsDistinct s.err1 err1_flags [] tt)
