-- ===== src/Profile/Patch.antt =====
-- internal/profile/patch.go: the patch of a profile and its validation. `strconv.ParseFloat` with the
-- sign of its value, and `json.Valid`, are parameters.
pub mod Validation
pub mod Email
mod Tests
use Prim.Native.Char.{Char, code}
use text.Mathlib.Text.{◌==◌ as str_eq}
use investor_cache.Base.{
  String, Bool, true, false, ℕ, suc, ltb, leb, ◌==◌, ◌||◌, ◌&&◌, if◌then◌else◌, List, [], ◌∷◌, ◌++◌,
  Option, none, some,
}
use investor_cache.Go.{Result, ok, err}
use investor_cache.Go.Strings.{concat}
use investor_cache.Go.Text.{trim_space, byte_length}

pub record ValidationError : Type 0 where
  pub field : String
  pub message : String

-- `Error()`
unfoldable pub error_of : ValidationError → String
error_of e = if str_eq e.field "" then e.message else concat e.field (concat ": " e.message)

-- `nil` is `none`.
pub record UpdateProfilePatch : Type 0 where
  pub full_name : Option String
  pub email : Option String
  pub risk_profile : Option String
  pub kyc_status : Option String
  pub portfolio_value : Option String
  pub preferences : Option String

-- `strconv.ParseFloat(s, 64)`, the test `v < 0` of a double, and `json.Valid`.
pub record Parsers (F : Type 0) : Type 0 where
  pub parse_float : String → Result F
  pub is_negative : F → Bool
  pub json_valid : String → Bool

abbrev pub is_nil : Option String → Bool
is_nil none = true
is_nil (some s) = false

unfoldable pub is_empty : UpdateProfilePatch → Bool
is_empty p =
    is_nil p.full_name
    && is_nil p.email
    && is_nil p.risk_profile
    && is_nil p.kyc_status
    && is_nil p.portfolio_value
    && is_nil p.preferences

-- `if v != nil { fields = append(fields, name) }`
abbrev pub append_field : Option String → String → List String → List String
append_field none name fields = fields
append_field (some v) name fields = fields ++ name ∷ []

unfoldable pub changed_fields : UpdateProfilePatch → List String
changed_fields p = append_field p.preferences "preferences" (
    append_field p.portfolio_value "portfolio_value" (
      append_field p.kyc_status "kyc_status" (
        append_field p.risk_profile "risk_profile"
          (append_field p.email "email" (append_field p.full_name "full_name" [])))))

-- The character classes of `emailRegex`.
abbrev pub is_letter : Char → Bool
is_letter c = let n = code c in (leb b'A' n && leb n b'Z') || (leb b'a' n && leb n b'z')

abbrev pub is_host_char : Char → Bool
is_host_char c =
    let n = code c in is_letter c || (leb b'0' n && leb n b'9') || n == b'.' || n == b'-'

abbrev pub is_local_char : Char → Bool
is_local_char c = let n = code c in is_host_char c || n == b'_' || n == b'%' || n == b'+'

-- `[A-Za-z]{2,}$` behind so many letters.
unfoldable pub match_letters : ℕ → String → Bool
match_letters seen String.[] = leb 2 seen
match_letters seen (String.◌∷◌ c s) = let rest = match_letters (suc seen) s in is_letter c && rest

-- `p+`, the separator with the code `sep`, and the rest; the flag says whether a character is
-- matched. Where the rest matches behind a separator the match is found, and otherwise the separator
-- may be one of the characters.
unfoldable pub match_until : (Char → Bool) → ℕ → (String → Bool) → Bool → String → Bool
match_until p sep rest seen String.[] = false
match_until p sep rest seen (String.◌∷◌ c s) =
    let more = match_until p sep rest true s in (seen && code c == sep && rest s) || (p c && more)

-- `[A-Za-z0-9.\-]+\.[A-Za-z]{2,}$`
abbrev pub match_host : String → Bool
match_host s = match_until is_host_char b'.' (match_letters 0) false s

-- `emailRegex.MatchString(email)`
unfoldable pub match_email : String → Bool
match_email s = match_until is_local_char b'@' match_host false s

abbrev pub fault : String → String → Option ValidationError
fault field message = some (record { field = field; message = message })

abbrev pub member : String → List String → Bool
member s [] = false
member s (t ∷ ts) = str_eq s t || member s ts

abbrev pub allowed_risk_profiles : List String
allowed_risk_profiles = "conservative" ∷ "moderate" ∷ "aggressive" ∷ []

abbrev pub allowed_kyc_statuses : List String
allowed_kyc_statuses = "pending" ∷ "verified" ∷ "rejected" ∷ []

unfoldable pub full_name_fault : Option String → Option ValidationError
full_name_fault none = none
full_name_fault (some v) =
    let name = trim_space v in
    if str_eq name ""
    then fault "full_name" "must not be empty"
    else if ltb 255 (byte_length name)
    then fault "full_name" "must be at most 255 characters"
    else none

unfoldable pub email_fault : Option String → Option ValidationError
email_fault none = none
email_fault (some v) =
    let email = trim_space v in
    if str_eq email ""
    then fault "email" "must not be empty"
    else if ltb 255 (byte_length email)
    then fault "email" "must be at most 255 characters"
    else if match_email email
    then none
    else fault "email" "must be a valid email address"

unfoldable pub risk_profile_fault : Option String → Option ValidationError
risk_profile_fault none = none
risk_profile_fault (some v) =
    if member v allowed_risk_profiles
    then none
    else fault "risk_profile" "must be one of: conservative, moderate, aggressive"

unfoldable pub kyc_status_fault : Option String → Option ValidationError
kyc_status_fault none = none
kyc_status_fault (some v) =
    if member v allowed_kyc_statuses
    then none
    else fault "kyc_status" "must be one of: pending, verified, rejected"

-- On to the next test where this one finds nothing.
abbrev pub or_next : Option ValidationError → Option ValidationError → Option ValidationError
or_next none next = next
or_next (some e) next = some e

module _ {F : Type 0} (parsers : Parsers F) where
  abbrev pub float_fault : Result F → Option ValidationError
  float_fault (err e) = fault "portfolio_value" "must be a decimal number"
  float_fault (ok v) =
      if parsers.is_negative v then fault "portfolio_value" "must be non-negative" else none

  unfoldable pub portfolio_value_fault : Option String → Option ValidationError
  portfolio_value_fault none = none
  portfolio_value_fault (some v) = float_fault (parsers.parse_float v)

  unfoldable pub preferences_fault : Option String → Option ValidationError
  preferences_fault none = none
  preferences_fault (some v) =
      if parsers.json_valid v then none else fault "preferences" "must be a valid JSON value"

  unfoldable pub validate_patch : UpdateProfilePatch → Option ValidationError
  validate_patch p =
      if is_empty p
      then fault "" "request body must contain at least one field"
      else or_next (full_name_fault p.full_name) (
          or_next (email_fault p.email) (
            or_next (risk_profile_fault p.risk_profile) (
              or_next (kyc_status_fault p.kyc_status) (
                or_next (portfolio_value_fault p.portfolio_value)
                  (preferences_fault p.preferences)))))
