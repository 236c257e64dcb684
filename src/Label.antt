-- ===== src/Label.antt =====
-- internal/printer/build.go and types.go: the data of a label, and how they are made from the fields of
-- a request. A map of Go is a list of its entries; values are bytes, and keys and templates are texts.
pub mod Values
use raku_sika_hub.Prelude.{
  ℕ, Bool, false, not, ◌&&◌, ◌||◌, List, [], ◌∷◌, ◌++◌, if◌then◌else◌, map, String, bytes, str_eq,
}
use raku_sika_hub.Scale.Text.{is_empty, same_bytes}
use raku_sika_hub.Scale.Protocol.{trim_space}
use raku_sika_hub.Strings.{lower, contains, to_lower}

pub data Locale : Type 0 where
  ja en : Locale

-- ExperienceTraceID, which is only logged, and ShrunkToFit, which the printer sets, are left out.
pub record LabelData : Type 0 where
  pub template : String
  pub copies : ℕ
  pub locale : Locale
  pub product_name : List ℕ
  pub product_quantity : List ℕ
  pub deadline_date : List ℕ
  pub deadline_label : List ℕ
  pub storage_temperature : List ℕ
  pub individual_number : List ℕ
  pub capture_location : List ℕ
  pub qr_code : List ℕ
  pub product_ingredient : List ℕ
  pub nutrition_unit : List ℕ
  pub calories_quantity : List ℕ
  pub protein_quantity : List ℕ
  pub fat_quantity : List ℕ
  pub carbohydrates_quantity : List ℕ
  pub salt_equivalent_quantity : List ℕ
  pub is_heated_meat_products : List ℕ
  pub attention_text : List ℕ
  pub facility_name : List ℕ
  pub ingredient : List ℕ
  pub logo_file : List ℕ
  pub certification_mark_file : List ℕ
  pub processor_name : List ℕ
  pub processor_location : List ℕ
  pub ezoshika_certified : Bool
  pub pla_mark : Bool
  pub company_block : List ℕ
  pub facility_block : List ℕ
  pub species : List ℕ
  pub sex : List ℕ
  pub receiving_date : List ℕ
  pub product_name_ja : List ℕ
  pub product_quantity_ja : List ℕ
  pub deadline_date_ja : List ℕ
  pub storage_temperature_ja : List ℕ
  pub species_of_origin : List ℕ
  pub species_of_origin_ja : List ℕ
  pub country_of_origin : List ℕ
  pub country_of_origin_ja : List ℕ
  pub processing_plant_name : List ℕ
  pub address : List ℕ
  pub address_ja : List ℕ

abbrev pub Fields : Type 0
Fields = List (String × List ℕ)

-- data[key], the empty string for a key that is missing.
unfoldable pub value : String → Fields → List ℕ
value key [] = []
value key ((k, v) ∷ rest) = if str_eq k key then v else value key rest

-- data[key] = v.
unfoldable pub put : String → List ℕ → Fields → Fields
put key v [] = (key, v) ∷ []
put key v ((k, w) ∷ rest) = if str_eq k key then (key, v) ∷ rest else (k, w) ∷ put key v rest

unfoldable pub trim_values : Fields → Fields
trim_values [] = []
trim_values ((k, v) ∷ rest) = (k, trim_space v) ∷ trim_values rest

unfoldable pub normalize_request_data : Fields → Fields
unfolding value put trim_values
normalize_request_data fields =
    let normalized = trim_values fields in
    let method = value "storageMethod" normalized in
    if is_empty (value "storageTemperature" normalized) && not (is_empty method)
    then put "storageTemperature" method normalized
    else normalized

-- A case of a switch on a string.
abbrev one_of : List String → List ℕ → Bool
one_of [] bs = false
one_of (s ∷ ss) bs = same_bytes (bytes s) bs || one_of ss bs

abbrev contains_any : List String → List ℕ → Bool
contains_any [] bs = false
contains_any (s ∷ ss) bs = contains (bytes s) bs || contains_any ss bs

abbrev months : List String
months =
    "January" ∷ "February" ∷ "March" ∷ "April" ∷ "May" ∷ "June" ∷ "July" ∷ "August" ∷ "September"
    ∷ "October" ∷ "November" ∷ "December" ∷ []

unfoldable pub looks_english_date : List ℕ → Bool
looks_english_date bs = contains_any months bs

unfoldable pub resolve_locale : Fields → Locale
unfolding value looks_english_date
resolve_locale fields =
    let locale = to_lower (trim_space (value "locale" fields)) in
    let language = to_lower (trim_space (value "language" fields)) in
    let deadline = trim_space (value "deadlineDate" fields) in
    if one_of ("en" ∷ "en-us" ∷ "en-gb" ∷ []) locale
    then en
    else if one_of ("ja" ∷ "ja-jp" ∷ []) locale
    then ja
    else if one_of ("en" ∷ "english" ∷ []) language
    then en
    else if one_of ("ja" ∷ "japanese" ∷ []) language
    then ja
    else if not (is_empty deadline) && looks_english_date deadline
    then en
    else if contains (bytes "Tel:") (value "companyBlock" fields)
        || contains (bytes "Tel:") (value "facilityBlock" fields)
    then en
    else ja

-- strings.EqualFold(s, "true"): no letter beyond ASCII folds to one of it.
abbrev equal_fold_true : List ℕ → Bool
equal_fold_true bs = same_bytes (map lower bs) (bytes "true")

-- DefaultLogoFile is what assets_dir holds, an argument.
unfoldable pub resolve_logo_field : List ℕ → List ℕ → List ℕ
resolve_logo_field input default_logo =
    let trimmed = trim_space input in if is_empty trimmed then default_logo else trimmed

unfoldable pub build_label_data : String → ℕ → Fields → List ℕ → LabelData
unfolding normalize_request_data resolve_locale resolve_logo_field
build_label_data template copies fields default_logo =
    let normalized = normalize_request_data fields in
    record {
      template = template;
      copies = copies;
      locale = resolve_locale normalized;
      product_name = value "productName" normalized;
      product_quantity = value "productQuantity" normalized;
      deadline_date = value "deadlineDate" normalized;
      deadline_label = value "deadlineLabel" normalized;
      storage_temperature = value "storageTemperature" normalized;
      individual_number = value "individualNumber" normalized;
      capture_location = value "captureLocation" normalized;
      qr_code = value "qrCode" normalized;
      product_ingredient = value "productIngredient" normalized;
      nutrition_unit = value "nutritionUnit" normalized;
      calories_quantity = value "caloriesQuantity" normalized;
      protein_quantity = value "proteinQuantity" normalized;
      fat_quantity = value "fatQuantity" normalized;
      carbohydrates_quantity = value "carbohydratesQuantity" normalized;
      salt_equivalent_quantity = value "saltEquivalentQuantity" normalized;
      is_heated_meat_products = value "isHeatedMeatProducts" normalized;
      attention_text = value "attentionText" normalized;
      facility_name = value "facilityName" normalized;
      ingredient = value "ingredient" normalized;
      logo_file = resolve_logo_field (value "logoFile" normalized) default_logo;
      certification_mark_file = value "certificationMarkFile" normalized;
      processor_name = value "processorName" normalized;
      processor_location = value "processorLocation" normalized;
      ezoshika_certified = equal_fold_true (trim_space (value "ezoshikaCertified" normalized));
      pla_mark = equal_fold_true (trim_space (value "plaMark" normalized));
      company_block = value "companyBlock" normalized;
      facility_block = value "facilityBlock" normalized;
      species = value "species" normalized;
      sex = value "sex" normalized;
      receiving_date = value "receivingDate" normalized;
      product_name_ja = value "productNameJa" normalized;
      product_quantity_ja = value "productQuantityJa" normalized;
      deadline_date_ja = value "deadlineDateJa" normalized;
      storage_temperature_ja = value "storageTemperatureJa" normalized;
      species_of_origin = value "speciesOfOrigin" normalized;
      species_of_origin_ja = value "speciesOfOriginJa" normalized;
      country_of_origin = value "countryOfOrigin" normalized;
      country_of_origin_ja = value "countryOfOriginJa" normalized;
      processing_plant_name = value "processingPlantName" normalized;
      address = value "address" normalized;
      address_ja = value "addressJa" normalized;
    }

-- MaxCopies.
abbrev pub max_copies : ℕ
max_copies = 30

abbrev pub valid_templates : List String
valid_templates =
    "traceable" ∷ "traceable_deer" ∷ "traceable_bear" ∷ "traceable_boar" ∷ "traceable_raccoon"
    ∷ "non_traceable" ∷ "non_traceable_deer" ∷ "processed" ∷ "pet" ∷ "individual_qr"
    ∷ "carcass_deer" ∷ "carcass_bear" ∷ []

abbrev pub mem_text : String → List String → Bool
mem_text s [] = false
mem_text s (t ∷ ts) = str_eq t s || mem_text s ts

abbrev pub common_fields : List String
common_fields = "productName" ∷ "productQuantity" ∷ "deadlineDate" ∷ "storageTemperature" ∷ []

abbrev pub traced_fields : List String
traced_fields = common_fields ++ ("individualNumber" ∷ "captureLocation" ∷ "qrCode" ∷ [])

abbrev pub is_traceable : String → Bool
is_traceable template = mem_text template (
    "traceable" ∷ "traceable_deer" ∷ "traceable_bear" ∷ "traceable_boar" ∷ "traceable_raccoon" ∷ [])

abbrev pub is_carcass : String → Bool
is_carcass template = mem_text template ("carcass_deer" ∷ "carcass_bear" ∷ [])

unfoldable pub required_fields : String → List String
required_fields template =
    if is_traceable template
    then traced_fields
    else if is_carcass template
    then "individualNumber" ∷ []
    else common_fields
