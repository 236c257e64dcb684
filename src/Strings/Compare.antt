-- ===== src/Strings/Compare.antt =====
-- The comparison of strings decides their equality.
use raku_sika_hub.Prelude.{ℕ, ◌≡◌, refl, true, List, [], ◌∷◌, ◌==◌, ==_iff, arith}
use raku_sika_hub.Scale.Text.{same_bytes}

pub same_bytes-eq : (a b : List ℕ) → same_bytes a b ≡ true → a ≡ b
unfolding same_bytes
same_bytes-eq [] [] h = refl
same_bytes-eq [] (b ∷ bs) h = absurd (ground arith)
same_bytes-eq (a ∷ as_) [] h = absurd (ground arith)
same_bytes-eq (a ∷ as_) (b ∷ bs) h =
    let head : (a == b) ≡ true = ground arith in
    let tail = same_bytes-eq as_ bs (ground arith) in let same = (==_iff a b).0 head in cc

pub same_bytes_refl : (a : List ℕ) → same_bytes a a ≡ true
unfolding same_bytes
same_bytes_refl [] = refl
same_bytes_refl (a ∷ as_) = let rest = same_bytes_refl as_ in ground arith
