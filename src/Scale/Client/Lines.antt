-- ===== src/Scale/Client/Lines.antt =====
-- internal/scale/client.go: the line that sendCommandLocked reads.
use raku_sika_hub.Prelude.{
  ℕ, ◌≡◌, ◌≢◌, ap, ◌∙◌, ◌==◌, List, [], ◌∷◌, ◌++◌, arith, if_cases, All, ==_iff,
}
use mathlib.Core.List.{append_assoc}
use raku_sika_hub.Result.{Result, ok}
use raku_sika_hub.Scale.Client.{Poll, late, broken, idle, got, Fault, read_line}

-- The bytes that a script of reads holds.
abbrev pub bytes_got : List Poll → List ℕ
bytes_got [] = []
bytes_got (got b ∷ polls) = b ∷ bytes_got polls
bytes_got (late ∷ polls) = bytes_got polls
bytes_got (broken ∷ polls) = bytes_got polls
bytes_got (idle ∷ polls) = bytes_got polls

-- What was read of the script until a line was there: the line without its end, and the rest.
abbrev pub IsLine : List Poll → List ℕ → Result Fault (List ℕ) × List Poll → Type 0
IsLine polls line r =
    (l : List ℕ)
    → r.0 ≡ ok l
    → (body : List ℕ) × ((l ≡ line ++ (body ++ (0x0A ∷ [])))
        × (All (λ b. b ≢ 0x0A) body × (bytes_got polls ≡ body ++ (0x0A ∷ bytes_got r.1))))

read_line-from : (polls : List Poll) (line : List ℕ) → IsLine polls line (read_line polls line)
unfolding read_line
read_line-from [] line = λ l h. absurd (ground arith)
read_line-from (late ∷ polls) line = λ l h. absurd (ground arith)
read_line-from (broken ∷ polls) line = λ l h. absurd (ground arith)
read_line-from (idle ∷ polls) line = read_line-from polls line
read_line-from (got b ∷ polls) line =
    let rest = read_line-from polls (line ++ (b ∷ [])) in
    if_cases (IsLine (got b ∷ polls) line) (b == 0x0A)
      (λ e l h. let d = (==_iff b 0x0A).0 e in ([], (cc, (tt, ap (λ x. x ∷ bytes_got polls) d))))
      (λ e l h.
        let (body, known) = rest l h in
        (
          b ∷ body,
          (
            known.0 ∙ append_assoc line (b ∷ []) (body ++ (0x0A ∷ [])),
            ((ground arith, known.1.0), ap (◌∷◌ b) known.1.1),
          ),
        ))

-- The line that a command reads ends with the first line feed of what arrives, and no byte behind it
-- is taken: the next command finds them all.
read_line_lem :
    (polls : List Poll) (l : List ℕ)
    → (read_line polls []).0 ≡ ok l
    → (body : List ℕ) × ((l ≡ body ++ (0x0A ∷ []))
        × (All (λ b. b ≢ 0x0A) body
            × (bytes_got polls ≡ body ++ (0x0A ∷ bytes_got (read_line polls []).1))))
read_line_lem polls l h = read_line-from polls [] l h
