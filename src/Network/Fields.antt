-- ===== src/Network/Fields.antt =====
-- internal/netadmin/network.go: the fields of a line of nmcli -t.
use raku_sika_hub.Prelude.{
  ℕ, ◌==◌, ◌||◌, ◌≡◌, refl, sym, ap, ◌∙◌, false, List, [], ◌∷◌, ◌++◌, if◌then◌else◌, if_cases,
  arith,
}
use mathlib.Core.List.{append_assoc, append-nil}
use raku_sika_hub.Network.{split_from, split_fields}

-- How nmcli writes a field: a backslash stands before each colon and each backslash.
unfoldable escape : List ℕ → List ℕ
escape [] = []
escape (r ∷ rs) =
    let rest = escape rs in if r == 0x5C || r == 0x3A then 0x5C ∷ r ∷ rest else r ∷ rest

-- A line: the fields with colons between them.
unfoldable pub print_fields : List ℕ → List (List ℕ) → List ℕ
unfolding escape
print_fields field [] = escape field
print_fields field (next ∷ fields) = escape field ++ (0x3A ∷ print_fields next fields)

split_from-escape :
    (read field rest : List ℕ)
    → split_from false read (escape field ++ rest) ≡ split_from false (read ++ field) rest
unfolding split_from escape
split_from-escape read [] rest = ap (λ f. split_from false f rest) (sym (append-nil read))
split_from-escape read (r ∷ rs) rest =
    let later = split_from-escape (read ++ r ∷ []) rs rest in
    let moved = ap (λ f. split_from false f rest) (append_assoc read (r ∷ []) rs) in
    if_cases (λ s. split_from false read (s ++ rest) ≡ split_from false (read ++ r ∷ rs) rest)
      (r == 0x5C || r == 0x3A) (λ _. later ∙ moved) (λ plain. ground (arith, plain, later ∙ moved))

-- Fields that nmcli writes in a line are read back as they are, colons and backslashes included.
pub split_fields-print_fields :
    (field : List ℕ) (fields : List (List ℕ))
    → split_fields (print_fields field fields) ≡ field ∷ fields
unfolding split_fields print_fields
split_fields-print_fields field [] =
    ap (split_from false []) (sym (append-nil (escape field)))
    ∙ split_from-escape [] field []
    ∙ refl
split_fields-print_fields field (next ∷ fields) =
    split_from-escape [] field (0x3A ∷ print_fields next fields)
    ∙ ap (◌∷◌ field) (split_fields-print_fields next fields)
