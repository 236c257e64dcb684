-- ===== src/Api/Http/Complete.antt =====
-- internal/httpapi/handler.go and internal/printer/build.go: what a request that passes the validation
-- has on its label.
use raku_sika_hub.Prelude.{ℕ, ◌≤◌, ◌≡◌, false, List, [], if◌then◌else◌, String, str_eq, All}
use raku_sika_hub.Result.{Result}
use raku_sika_hub.Scale.Text.{is_empty}
use raku_sika_hub.Label.{LabelData, required_fields, max_copies}

-- The field of a label that bears the name of a field of a request.
abbrev pub field_of : String → LabelData → List ℕ
field_of name label =
    if str_eq name "productName"
    then label.product_name
    else if str_eq name "productQuantity"
    then label.product_quantity
    else if str_eq name "deadlineDate"
    then label.deadline_date
    else if str_eq name "storageTemperature"
    then label.storage_temperature
    else if str_eq name "individualNumber"
    then label.individual_number
    else if str_eq name "captureLocation"
    then label.capture_location
    else if str_eq name "qrCode"
    then label.qr_code
    else []

-- The required fields are on the label, and the copies are in range.
pub record IsComplete (template : String) (label : LabelData) : Type 0 where
  pub same_template : label.template ≡ template
  pub one_copy : 1 ≤ label.copies
  pub few_copies : label.copies ≤ max_copies
  pub has_fields :
      All (λ (name : String). is_empty (field_of name label) ≡ false) (required_fields template)
