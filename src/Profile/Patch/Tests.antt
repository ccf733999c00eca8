-- ===== src/Profile/Patch/Tests.antt =====
-- Patches on which the validation runs, and the theorem at a concrete one.
use investor_cache.Base.{
  String, Bool, true, false, [], ◌∷◌, Option, none, some, ◌≡◌, ◌≢◌, ◌↔◌, refl,
}
use investor_cache.Go.{ok}
use investor_cache.Go.Text.{trim_space, trim_left, trim_right, is_space}
use investor_cache.Profile.Patch.{
  UpdateProfilePatch, ValidationError, Parsers, changed_fields, is_empty, match_email, match_until,
  match_letters, full_name_fault, email_fault, risk_profile_fault, kyc_status_fault,
  portfolio_value_fault, preferences_fault, validate_patch, error_of,
}
use investor_cache.Profile.Patch.Email.{IsAddress, match_email_iff}
use investor_cache.Profile.Patch.Validation.{IsAcceptable, validate_patch_iff}

-- Parsers that take everything, the sign as its own number.
abbrev parsers : Parsers Bool
parsers = record { parse_float = λ s. ok false; is_negative = λ b. b; json_valid = λ s. true }

abbrev patch : Option String → UpdateProfilePatch
patch email = record {
  full_name = none;
  email = email;
  risk_profile = none;
  kyc_status = some "verified";
  portfolio_value = none;
  preferences = none;
}

addresses :
    (match_email "ann.lee@mail.example.org" ≡ true)
    × (match_email "ann@example" ≡ false)
    × (match_email "@example.org" ≡ false)
    × (match_email "ann@example.o" ≡ false)
    × (match_email "a@b@example.org" ≡ false)
unfolding match_email match_until match_letters
addresses = (refl, refl, refl, refl, refl)

texts_of : Option ValidationError → Option String
texts_of none = none
texts_of (some e) = some (error_of e)

runs :
    (validate_patch parsers (patch (some " ann@example.org ")) ≡ none)
    × (texts_of (validate_patch parsers (patch (some "ann")))
        ≡ some "email: must be a valid email address")
    × (changed_fields (patch (some "ann")) ≡ "email" ∷ "kyc_status" ∷ [])
unfolding validate_patch is_empty changed_fields full_name_fault email_fault risk_profile_fault
    kyc_status_fault portfolio_value_fault preferences_fault match_email match_until match_letters
    trim_space trim_left trim_right is_space error_of texts_of
runs = (refl, refl, refl)

validate_patch_iff_example : (validate_patch parsers (patch (some "ann@example.org")) ≡ none) ↔ (
    (changed_fields (patch (some "ann@example.org")) ≢ [])
    × IsAcceptable parsers (patch (some "ann@example.org")))
validate_patch_iff_example = validate_patch_iff parsers (patch (some "ann@example.org"))

match_email_iff_example : (match_email "ann@example.org" ≡ true) ↔ IsAddress "ann@example.org"
match_email_iff_example = match_email_iff "ann@example.org"
