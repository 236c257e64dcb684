-- ===== src/Label/Values.antt =====
-- internal/printer/build.go: the values of a request, trimmed once and twice.
use raku_sika_hub.Prelude.{
  ℕ, ◌≡◌, refl, sym, ap, ◌∙◌, inl, inr, false, not, ◌&&◌, List, [], ◌∷◌, arith, if◌then◌else◌,
  if_cases, String, str_eq, Bool-cases,
}
use text.Mathlib.TextEquality.{eq_iff}
use raku_sika_hub.Scale.Text.{is_empty, trim_left, trim_right}
use raku_sika_hub.Scale.Protocol.{trim_space}
use raku_sika_hub.Strings.Trimmed.{is_empty-trim_trim}
use raku_sika_hub.Label.{Fields, value, put, trim_values, normalize_request_data}

value-trim_values :
    (key : String) (fields : Fields)
    → value key (trim_values fields) ≡ trim_space (value key fields)
unfolding value trim_values trim_left trim_right
value-trim_values key [] = refl
value-trim_values key ((k, v) ∷ rest) = elim (Bool-cases (str_eq k key)) [
  | inl e ↦ rw e refl
  | inr e ↦ rw e (value-trim_values key rest)
]

value-put :
    (key k : String) (v : List ℕ) (fields : Fields)
    → value k (put key v fields) ≡ (if str_eq key k then v else value k fields)
unfolding value put
value-put key k v [] = refl
value-put key k v ((j, w) ∷ rest) =
    ground (arith, eq_iff j key, eq_iff j k, eq_iff key k, value-put key k v rest)

-- A value that is trimmed.
abbrev IsTrimmed : List ℕ → Type 0
IsTrimmed v = (raw : List ℕ) × (v ≡ trim_space raw)

normalize_request_data-IsTrimmed :
    (key : String) (fields : Fields) → IsTrimmed (value key (normalize_request_data fields))
unfolding normalize_request_data
normalize_request_data-IsTrimmed key fields =
    let trimmed = trim_values fields in
    let method = value "storageMethod" trimmed in
    if_cases (λ (f : Fields). IsTrimmed (value key f))
      (is_empty (value "storageTemperature" trimmed) && not (is_empty method))
      {x = put "storageTemperature" method trimmed}
      (λ _. rw (value-put "storageTemperature" key method trimmed) (
        if_cases IsTrimmed (str_eq "storageTemperature" key)
          (λ _. (_, value-trim_values "storageMethod" fields))
          (λ _. (_, value-trim_values key fields))))
      (λ _. (_, value-trim_values key fields))

-- A value that is not empty stays so when the data are normalized.
normalize_request_data_keeps :
    (key : String) (fields : Fields)
    → is_empty (trim_space (value key fields)) ≡ false
    → is_empty (value key (normalize_request_data fields)) ≡ false
unfolding normalize_request_data
normalize_request_data_keeps key fields h =
    let trimmed = trim_values fields in
    let method = value "storageMethod" trimmed in
    let kept : is_empty (value key trimmed) ≡ false = rw (value-trim_values key fields) h in
    if_cases (λ (f : Fields). is_empty (value key f) ≡ false)
      (is_empty (value "storageTemperature" trimmed) && not (is_empty method))
      (λ e. rw (value-put "storageTemperature" key method trimmed) (
        if_cases (λ (v : List ℕ). is_empty v ≡ false) (str_eq "storageTemperature" key)
          (λ _. ground (arith, e)) (λ _. kept)))
      (λ _. kept)

-- What is there after normalizing once is there after normalizing twice.
pub normalize_request_data_twice :
    (key : String) (fields : Fields)
    → is_empty (value key (normalize_request_data fields)) ≡ false
    → is_empty (value key (normalize_request_data (normalize_request_data fields))) ≡ false
normalize_request_data_twice key fields h =
    let once = normalize_request_data fields in
    let (raw, e) = normalize_request_data-IsTrimmed key fields in
    normalize_request_data_keeps key once (
      ap (λ (v : List ℕ). is_empty (trim_space v)) e
      ∙ is_empty-trim_trim raw
      ∙ sym (ap is_empty e)
      ∙ h)
