-- ===== src/Printer/Names/Choice.antt =====
-- internal/printer/brother.go: what resolvePrinter chooses.
use raku_sika_hub.Prelude.{
  ℕ, ◌<◌, ◌≡◌, refl, ap, ◌⊎◌, inl, inr, Bool, true, false, not, ◌&&◌, List, [], ◌∷◌, arith, ltb,
  if_cases, Bool-cases,
}
use raku_sika_hub.Scale.Text.{is_empty, same_bytes}
use raku_sika_hub.Strings.{to_lower}
use raku_sika_hub.Strings.Compare.{same_bytes-eq, same_bytes_refl}
use raku_sika_hub.Printer.{Source}
use raku_sika_hub.Printer.Names.{
  has, select_configured_printer, score_brother_ql, detect_from, detect_brother_ql, resolve_printer,
}

has-cons :
    (item : List ℕ) (items : List (List ℕ)) (target : List ℕ)
    → has items target ≡ true
    → has (item ∷ items) target ≡ true
unfolding has
has-cons item items target h = ground (arith, h)

has_here : (item : List ℕ) (items : List (List ℕ)) → has (item ∷ items) item ≡ true
unfolding has
has_here item items = ground (arith, same_bytes_refl item)

select_lem :
    (configured available : List (List ℕ))
    → is_empty (select_configured_printer configured available) ≡ false
    → (has configured (select_configured_printer configured available) ≡ true)
      × (has available (select_configured_printer configured available) ≡ true)
unfolding select_configured_printer
select_lem [] available = λ h. absurd (cc)
select_lem (name ∷ names) available =
    if_cases
      (λ (r : List ℕ).
        is_empty r ≡ false → (has (name ∷ names) r ≡ true) × (has available r ≡ true))
      (has available name) (λ e h. (has_here name names, e))
      (λ e h. let (c, a) = select_lem names available h in (has-cons name names _ c, a))

not-true : (b : Bool) → not b ≡ true → b ≡ false
not-true b h = ground arith

both_true : (a b c : Bool) → (a && b && c) ≡ true → (a ≡ true) × (b ≡ true) × (c ≡ true)
both_true true true true h = (refl, refl, refl)
both_true true true false h = absurd (cc)
both_true true false c h = absurd (cc)
both_true false b c h = absurd (cc)

ltb_pos : (n : ℕ) → ltb 0 n ≡ true → 0 < n
ltb_pos n h = ground arith

module _ (is_wide : List ℕ → Bool) where
  score_nil : score_brother_ql is_wide [] ≡ 0
  unfolding score_brother_ql to_lower
  score_nil = refl

  is_empty-score : (name : List ℕ) → 0 < score_brother_ql is_wide name → is_empty name ≡ false
  is_empty-score [] h = absurd (omega (arith, score_nil))
  is_empty-score (b ∷ bs) h = refl

  -- What is found is the best so far, or a name with a better score.
  Found : List ℕ → ℕ → List (List ℕ) → List ℕ → Type 0
  Found best best_score names r =
      (r ≡ best) ⊎ ((has names r ≡ true) × (best_score < score_brother_ql is_wide r))

  Found-cons :
      (best : List ℕ) (best_score : ℕ) (name : List ℕ) (names : List (List ℕ)) (r : List ℕ)
      → Found best best_score names r
      → Found best best_score (name ∷ names) r
  unfolding Found
  Found-cons best best_score name names r (inl e) = inl e
  Found-cons best best_score name names r (inr (h, l)) = inr (has-cons name names r h, l)

  Found-taken :
      (best : List ℕ) (best_score : ℕ) (name : List ℕ) (names : List (List ℕ)) (r : List ℕ)
      → best_score < score_brother_ql is_wide name
      → Found name (score_brother_ql is_wide name) names r
      → (has (name ∷ names) r ≡ true) × (best_score < score_brother_ql is_wide r)
  unfolding Found
  Found-taken best best_score name names r b (inl e) = (rw e (has_here name names), rw e b)
  Found-taken best best_score name names r b (inr (h, l)) = (has-cons name names r h, omega arith)

  detect_from-Found :
      (best : List ℕ) (best_score : ℕ) (names : List (List ℕ))
      → Found best best_score names (detect_from is_wide best best_score names)
  unfolding detect_from Found
  detect_from-Found best best_score [] = inl refl
  detect_from-Found best best_score (name ∷ names) =
      elim (Bool-cases (ltb best_score (score_brother_ql is_wide name))) [
        | inl e ↦ rw e (
            inr (
              Found-taken best best_score name names _ (ground arith)
                (detect_from-Found name (score_brother_ql is_wide name) names)))
        | inr e ↦
            rw e (Found-cons best best_score name names _ (detect_from-Found best best_score names))
      ]

  later :
      (name : List ℕ) (names : List (List ℕ)) (queue : List ℕ) (best_score : ℕ)
      → has (name ∷ names) queue ≡ true
      → ltb best_score (score_brother_ql is_wide name) ≡ false
      → best_score < score_brother_ql is_wide queue
      → has names queue ≡ true
  unfolding has
  later name names queue best_score h e k = elim (Bool-cases (same_bytes name queue)) [
    | inl same ↦
        absurd (ground (arith, ap (score_brother_ql is_wide) (same_bytes-eq name queue same)))
    | inr other ↦ ground arith
  ]

  -- If a name has a better score than the best so far, then one is found.
  detect_from_better :
      (best : List ℕ) (best_score : ℕ) (names : List (List ℕ)) (queue : List ℕ)
      → has names queue ≡ true
      → best_score < score_brother_ql is_wide queue
      → (has names (detect_from is_wide best best_score names) ≡ true)
        × (best_score < score_brother_ql is_wide (detect_from is_wide best best_score names))
  unfolding detect_from
  detect_from_better best best_score [] queue h k = absurd (unfold has in cc)
  detect_from_better best best_score (name ∷ names) queue h k =
      elim (Bool-cases (ltb best_score (score_brother_ql is_wide name))) [
        | inl e ↦ rw e (
            Found-taken best best_score name names _ (ground arith)
              (detect_from-Found name (score_brother_ql is_wide name) names))
        | inr e ↦
            let in_rest = later name names queue best_score h e k in
            let (found, better) = detect_from_better best best_score names queue in_rest k in
            rw e (has-cons name names _ found, better)
      ]

  abbrev pub IsLabelPrinter : List (List ℕ) → List (List ℕ) → List ℕ → Type 0
  IsLabelPrinter configured available name =
      (has available name ≡ true)
      × ((has configured name ≡ true) ⊎ (0 < score_brother_ql is_wide name))

  -- While CUPS has a queue that looks like a Brother QL printer, the queue that is chosen is one that
  -- CUPS has, and one that the site configured or that looks like a Brother QL printer.
  pub resolve_printer-IsLabelPrinter :
      (configured available : List (List ℕ)) (default_name queue : List ℕ)
      → has available queue ≡ true
      → 0 < score_brother_ql is_wide queue
      → IsLabelPrinter configured available
          (resolve_printer is_wide configured available default_name).0
  unfolding resolve_printer detect_brother_ql
  resolve_printer-IsLabelPrinter configured available default_name queue h k =
      let P = λ (r : List ℕ × Source). IsLabelPrinter configured available r.0 in
      let chosen = select_configured_printer configured available in
      let detected = detect_from is_wide [] 0 available in
      let score = score_brother_ql is_wide default_name in
      let (found, better) = detect_from_better [] 0 available queue h k in
      if_cases P (not (is_empty chosen))
        (λ e. let (c, a) = select_lem configured available (not-true _ e) in (a, inl c))
        (λ _.
          if_cases P (not (is_empty default_name) && ltb 0 score && has available default_name)
            (λ e. let (_, l, a) = both_true _ _ _ e in (a, inr (ltb_pos score l)))
            (λ _.
              if_cases P (not (is_empty detected)) (λ _. (found, inr better))
                (λ e. absurd (cc (is_empty-score detected better, e)))))
