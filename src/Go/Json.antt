-- ===== src/Go/Json.antt =====
-- The members of a JSON object, as far as the repository's messages have them.
use text.Mathlib.Text.{◌==◌ as str_eq}
use investor_cache.Base.{String, ℤ, pos, List, [], ◌∷◌, Option, none, some, if◌then◌else◌}

pub data Value : Type 0 where
  json_text : String → Value
  json_number : ℤ → Value
  json_texts : List String → Value

abbrev pub member_of : String → List (String × Value) → Option Value
member_of key [] = none
member_of key ((k, v) ∷ members) = if str_eq k key then some v else member_of key members

-- What `json.Unmarshal` makes of the member behind a field's tag: the field keeps its zero where the
-- member is missing, and another type is an error.
abbrev pub text_field : Option Value → Option String
text_field none = some ""
text_field (some (json_text s)) = some s
text_field (some (json_number i)) = none
text_field (some (json_texts ss)) = none

abbrev pub number_field : Option Value → Option ℤ
number_field none = some (pos 0)
number_field (some (json_text s)) = none
number_field (some (json_number i)) = some i
number_field (some (json_texts ss)) = none

abbrev pub texts_field : Option Value → Option (List String)
texts_field none = some []
texts_field (some (json_text s)) = none
texts_field (some (json_number i)) = none
texts_field (some (json_texts ss)) = some ss

-- Behind a field.
abbrev pub with_field : {A B : Type 0} → Option A → (A → Option B) → Option B
with_field none f = none
with_field (some a) f = f a
