-- ===== src/Job/Parse/Inversion.antt =====
-- internal/printer/qlbackend/job.go: what each part of one turn of the walk accepts.
use raku_sika_hub.Prelude.{
  ℕ, zero, suc, ◌+◌, ◌-◌, ◌*◌, ◌≡◌, refl, ap, inl, inr, false, List, [], ◌∷◌, ◌++◌, arith, length,
  get_or, leb→le, ◌==◌, ==_iff, Bool-cases, length-take, take-append-drop,
}
use raku_sika_hub.Result.{ok, >>=-eq-ok}
use raku_sika_hub.Job.Parse.{
  Job, take_bytes, raster_line, compressed_line, escape, escape_i, escape_size, note_escape,
}
use raku_sika_hub.Job.Parse.Commands.{
  Command, initialize, status_request, mode_switch, various_mode, cut_every, expanded, margin,
  print_information, render, note,
}

take_bytes-eq-ok :
    (i n : ℕ) (bytes : List ℕ) {row rest : List ℕ}
    → take_bytes i n bytes ≡ ok (row, rest)
    → (bytes ≡ row ++ rest) × (length row ≡ n)
unfolding take_bytes
take_bytes-eq-ok i n bytes h =
    ground (arith, take-append-drop n bytes, length-take n bytes, leb→le n (length bytes))

-- What one turn of the loop read, as a command.
abbrev pub Reads : List ℕ → Job → Job → List ℕ → Type 0
Reads bytes job job' rest = (c : Command) × (bytes ≡ render c ++ rest) × (job' ≡ note job c)

pub raster_line-eq-ok :
    (i : ℕ) (bytes : List ℕ) (job : Job) {job' : Job} {rest : List ℕ}
    → raster_line i bytes job ≡ ok (job', rest)
    → (z : ℕ) × (row : List ℕ) × (bytes ≡ z ∷ length row ∷ (row ++ rest)) × (job' ≡ job)
unfolding raster_line
raster_line-eq-ok i [] job h = cc
raster_line-eq-ok i (z ∷ []) job h = cc
raster_line-eq-ok i (z ∷ n ∷ body) job h =
    let ((row, rest'), e, f) = >>=-eq-ok (take_bytes i n body) _ h in
    let inv = take_bytes-eq-ok i n body e in (z, row, cc, cc)

pub compressed_line-eq-ok :
    (i : ℕ) (bytes : List ℕ) (job : Job) {job' : Job} {rest : List ℕ}
    → compressed_line i bytes job ≡ ok (job', rest)
    → (n1 n2 : ℕ) × (row : List ℕ) × (length row ≡ n1 + n2 * 256)
      × (bytes ≡ n1 ∷ n2 ∷ (row ++ rest))
      × (job' ≡ job)
unfolding compressed_line
compressed_line-eq-ok i [] job h = cc
compressed_line-eq-ok i (n1 ∷ []) job h = cc
compressed_line-eq-ok i (n1 ∷ n2 ∷ body) job h =
    let ((row, rest'), e, f) = >>=-eq-ok (take_bytes i (n1 + n2 * 256) body) _ h in
    let inv = take_bytes-eq-ok i (n1 + n2 * 256) body e in (n1, n2, row, inv.1, cc, cc)

-- The first n items of a list, as far as they are there.
abbrev listed : ℕ → (ℕ → ℕ) → List ℕ
listed zero f = []
listed (suc n) f = f 0 ∷ listed n (λ k. f (suc k))

listed_lem : (n : ℕ) (xs : List ℕ) → length xs ≡ n → xs ≡ listed n (λ k. get_or xs k 0)
listed_lem zero [] h = refl
listed_lem zero (x ∷ xs) h = absurd (omega arith)
listed_lem (suc n) [] h = absurd (omega arith)
listed_lem (suc n) (x ∷ xs) h = ap (◌∷◌ x) (listed_lem n xs (omega arith))

-- The third byte of an accepted `ESC i` command.
data EscapeKind (k : ℕ) : Type 0 where
  is_status_request : k ≡ b'S' → EscapeKind k
  is_mode_switch : k ≡ b'a' → EscapeKind k
  is_various_mode : k ≡ b'M' → EscapeKind k
  is_cut_every : k ≡ b'A' → EscapeKind k
  is_expanded : k ≡ b'K' → EscapeKind k
  is_margin : k ≡ b'd' → EscapeKind k
  is_print_information : k ≡ b'z' → EscapeKind k

ruleset kinds = (
  is_status_request, is_mode_switch, is_various_mode, is_cut_every, is_expanded, is_margin,
  is_print_information,
)

escape_kind : (k : ℕ) → (escape_size k == 0) ≡ false → EscapeKind k
escape_kind k h = grind (arith, kinds)

-- An accepted `ESC i` command is one of the grammar's.
escape_command :
    (k : ℕ) (args : List ℕ)
    → EscapeKind k
    → length args ≡ escape_size k - 3
    → (c : Command) × ((rest : List ℕ) → 0x1B ∷ b'i' ∷ k ∷ (args ++ rest) ≡ render c ++ rest)
      × ((job : Job) → note_escape k args job ≡ note job c)
unfolding render note
escape_command k [] (is_status_request e) l = (status_request, λ rest. rw e, λ job. rw e)
escape_command k (_ ∷ _) (is_status_request e) l = absurd (ground arith)
escape_command k args (is_mode_switch e) l =
    let a = listed_lem 1 args (rw e at l) in
    (
      mode_switch (get_or args 0 0),
      λ rest. rw e (ap (λ t. 0x1B ∷ b'i' ∷ b'a' ∷ (t ++ rest)) a),
      λ job. rw e,
    )
escape_command k args (is_various_mode e) l =
    let a = listed_lem 1 args (rw e at l) in
    (
      various_mode (get_or args 0 0),
      λ rest. rw e (ap (λ t. 0x1B ∷ b'i' ∷ b'M' ∷ (t ++ rest)) a),
      λ job. rw e,
    )
escape_command k args (is_cut_every e) l =
    let a = listed_lem 1 args (rw e at l) in
    (
      cut_every (get_or args 0 0),
      λ rest. rw e (ap (λ t. 0x1B ∷ b'i' ∷ b'A' ∷ (t ++ rest)) a),
      λ job. rw e,
    )
escape_command k args (is_expanded e) l =
    let a = listed_lem 1 args (rw e at l) in
    (
      expanded (get_or args 0 0),
      λ rest. rw e (ap (λ t. 0x1B ∷ b'i' ∷ b'K' ∷ (t ++ rest)) a),
      λ job. rw e (ground arith),
    )
escape_command k args (is_margin e) l =
    let a = listed_lem 2 args (rw e at l) in
    (
      margin (get_or args 0 0) (get_or args 1 0),
      λ rest. rw e (ap (λ t. 0x1B ∷ b'i' ∷ b'd' ∷ (t ++ rest)) a),
      λ job. rw e,
    )
escape_command k args (is_print_information e) l =
    let a = listed_lem 10 args (rw e at l) in
    let at = λ (i : ℕ). get_or args i 0 in
    (
      print_information (at 0) (at 1) (at 2) (at 3) (at 4) (at 5) (at 6) (at 7) (at 8) (at 9),
      λ rest. rw e (ap (λ t. 0x1B ∷ b'i' ∷ b'z' ∷ (t ++ rest)) a),
      λ job. rw e (ground arith),
    )

escape_i-eq-ok :
    (i : ℕ) (bytes : List ℕ) (job : Job) {job' : Job} {rest : List ℕ}
    → escape_i i bytes job ≡ ok (job', rest)
    → Reads (0x1B ∷ b'i' ∷ bytes) job job' rest
unfolding escape_i
escape_i-eq-ok i [] job h = cc
escape_i-eq-ok i (k ∷ body) job {job' = job'} {rest = rest} h =
    elim (Bool-cases (escape_size k == 0)) [
      | inl e ↦ absurd (ground arith)
      | inr n ↦
          let ((args, rest'), e, f) =
            >>=-eq-ok (take_bytes i (escape_size k - 3) body) _ (rw n at h) in
          let inv = take_bytes-eq-ok i (escape_size k - 3) body e in
          let (c, reads, notes_it) = escape_command k args (escape_kind k n) inv.1 in
          (c, cc (reads rest), cc (notes_it job))
    ]

pub escape-eq-ok :
    (i : ℕ) (bytes : List ℕ) (job : Job) {job' : Job} {rest : List ℕ}
    → escape i bytes job ≡ ok (job', rest)
    → Reads (0x1B ∷ bytes) job job' rest
unfolding escape render note
escape-eq-ok i [] job h = cc
escape-eq-ok i (c ∷ after) job {rest = rest} h = elim (Bool-cases (c == b'@')) [
  | inl e ↦ (initialize, ground arith, ground arith)
  | inr n ↦ elim (Bool-cases (c == b'i')) [
    | inl e ↦ rw ((==_iff c b'i').0 e) (escape_i-eq-ok i after job (rw (n, e) at h))
    | inr m ↦ absurd (ground arith)
  ]
]
