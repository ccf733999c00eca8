-- ===== src/Profile/Patch/Validation.antt =====
-- Which patches `ValidatePatch` accepts, and what it blames where it refuses one.

use text.Mathlib.TextEquality.{eq_iff}
use investor_cache.Base.{
  String, true, false, ◌≤◌, List, [], ◌∷◌, Option, none, some, ◌≡◌, ◌≢◌, ◌↔◌, ◌⊎◌, inl, inr, refl,
  arith, Bool-cases,
}
use investor_cache.Go.{Result, ok, err}
use investor_cache.Go.Text.{trim_space, byte_length}
use investor_cache.Profile.Patch.Email.{IsAddress, match_email_iff}
use investor_cache.Profile.Patch.{
  UpdateProfilePatch, ValidationError, Parsers, is_nil, is_empty, append_field, changed_fields,
  full_name_fault, email_fault, risk_profile_fault, kyc_status_fault, portfolio_value_fault,
  preferences_fault, or_next, validate_patch, float_fault,
}

-- A field that is absent, or whose text satisfies `P`.
abbrev pub IfPresent : (String → Type 0) → Option String → Type 0
IfPresent P none = Unit {0}
IfPresent P (some v) = P v

abbrev pub IsText : String → Type 0
IsText s = (s ≢ "") × (byte_length s ≤ 255)

abbrev pub IsRiskProfile : String → Type 0
IsRiskProfile v = (v ≡ "conservative") ⊎ (v ≡ "moderate") ⊎ (v ≡ "aggressive")

abbrev pub IsKycStatus : String → Type 0
IsKycStatus v = (v ≡ "pending") ⊎ (v ≡ "verified") ⊎ (v ≡ "rejected")

or_next-none : (a b : Option ValidationError) → (or_next a b ≡ none) ↔ ((a ≡ none) × (b ≡ none))
or_next-none none b = ground arith
or_next-none (some e) b = ground arith

full_name_lem :
    (o : Option String) → (full_name_fault o ≡ none) ↔ IfPresent (λ v. IsText (trim_space v)) o
unfolding full_name_fault
full_name_lem none = ground arith
full_name_lem (some v) = ground (arith, eq_iff (trim_space v) "")

email_lem :
    (o : Option String)
    → (email_fault o ≡ none) ↔ IfPresent (λ v. IsText (trim_space v) × IsAddress (trim_space v)) o
unfolding email_fault
email_lem none = ground arith
email_lem (some v) = ground (arith, eq_iff (trim_space v) "", match_email_iff (trim_space v))

risk_profile_lem : (o : Option String) → (risk_profile_fault o ≡ none) ↔ IfPresent IsRiskProfile o
unfolding risk_profile_fault
risk_profile_lem none = ground arith
risk_profile_lem (some v) =
    ground (arith, eq_iff v "conservative", eq_iff v "moderate", eq_iff v "aggressive")

kyc_status_lem : (o : Option String) → (kyc_status_fault o ≡ none) ↔ IfPresent IsKycStatus o
unfolding kyc_status_fault
kyc_status_lem none = ground arith
kyc_status_lem (some v) =
    ground (arith, eq_iff v "pending", eq_iff v "verified", eq_iff v "rejected")

append_field-ne-empty :
    (o : Option String) (name : String) (fields : List String)
    → (append_field o name fields ≡ []) ↔ ((is_nil o ≡ true) × (fields ≡ []))
append_field-ne-empty none name fields = ground arith
append_field-ne-empty (some v) name [] = ground arith
append_field-ne-empty (some v) name (f ∷ fs) = ground arith

is_empty_iff : (p : UpdateProfilePatch) → (is_empty p ≡ true) ↔ (changed_fields p ≡ [])
unfolding is_empty changed_fields
is_empty_iff p =
    let fields1 = append_field p.full_name "full_name" [] in
    let fields2 = append_field p.email "email" fields1 in
    let fields3 = append_field p.risk_profile "risk_profile" fields2 in
    let fields4 = append_field p.kyc_status "kyc_status" fields3 in
    let fields5 = append_field p.portfolio_value "portfolio_value" fields4 in
    ground (
      arith,
      append_field-ne-empty p.full_name "full_name" [],
      append_field-ne-empty p.email "email" fields1,
      append_field-ne-empty p.risk_profile "risk_profile" fields2,
      append_field-ne-empty p.kyc_status "kyc_status" fields3,
      append_field-ne-empty p.portfolio_value "portfolio_value" fields4,
      append_field-ne-empty p.preferences "preferences" fields5,
    )

not_empty : (p : UpdateProfilePatch) → is_empty p ≡ false → changed_fields p ≢ []
not_empty p h none_changed = absurd (ground (arith, h, (is_empty_iff p).1 none_changed))

module _ {F : Type 0} (parsers : Parsers F) where
  -- A decimal number that is not negative.
  abbrev pub IsAmount : String → Type 0
  IsAmount v = (x : F) × (parsers.parse_float v ≡ ok x) × (parsers.is_negative x ≡ false)

  float_lem :
      (r : Result F)
      → (float_fault parsers r ≡ none) ↔ ((x : F) × (r ≡ ok x) × (parsers.is_negative x ≡ false))
  float_lem (ok x) = elim (Bool-cases (parsers.is_negative x)) [
    | inl t ↦ rw t (λ h. absurd (cc h), λ (y, same, positive). cc)
    | inr t ↦ rw t (λ h. (x, refl, t), λ h. refl)
  ]
  float_lem (err e) = (λ h. absurd (cc h), λ (y, same, positive). absurd (cc same))

  portfolio_value_lem :
      (o : Option String) → (portfolio_value_fault parsers o ≡ none) ↔ IfPresent IsAmount o
  unfolding portfolio_value_fault
  portfolio_value_lem none = ground arith
  portfolio_value_lem (some v) = float_lem (parsers.parse_float v)

  preferences_lem :
      (o : Option String)
      → (preferences_fault parsers o ≡ none) ↔ IfPresent (λ v. parsers.json_valid v ≡ true) o
  unfolding preferences_fault
  preferences_lem none = ground arith
  preferences_lem (some v) = ground arith

  -- A patch in which every field that is present is acceptable.
  pub record IsAcceptable (p : UpdateProfilePatch) : Type 0 where
    pub full_name : IfPresent (λ v. IsText (trim_space v)) p.full_name
    pub email : IfPresent (λ v. IsText (trim_space v) × IsAddress (trim_space v)) p.email
    pub risk_profile : IfPresent IsRiskProfile p.risk_profile
    pub kyc_status : IfPresent IsKycStatus p.kyc_status
    pub portfolio_value : IfPresent IsAmount p.portfolio_value
    pub preferences : IfPresent (λ v. parsers.json_valid v ≡ true) p.preferences

  faults_lem :
      (a b c d e f : Option ValidationError)
      → (or_next a (or_next b (or_next c (or_next d (or_next e f)))) ≡ none)
        ↔ ((a ≡ none) × (b ≡ none) × (c ≡ none) × (d ≡ none) × (e ≡ none) × (f ≡ none))
  faults_lem a b c d e f = ground (
    arith,
    or_next-none e f,
    or_next-none d (or_next e f),
    or_next-none c (or_next d (or_next e f)),
    or_next-none b (or_next c (or_next d (or_next e f))),
    or_next-none a (or_next b (or_next c (or_next d (or_next e f)))),
  )

  chain_lem :
      (p : UpdateProfilePatch)
      → (or_next (full_name_fault p.full_name) (
            or_next (email_fault p.email) (
              or_next (risk_profile_fault p.risk_profile) (
                or_next (kyc_status_fault p.kyc_status) (
                  or_next
                    (portfolio_value_fault parsers p.portfolio_value)
                    (preferences_fault parsers p.preferences)))))
          ≡ none)
        ↔ IsAcceptable p
  chain_lem p =
      let faults =
        faults_lem (full_name_fault p.full_name) (email_fault p.email)
          (risk_profile_fault p.risk_profile) (kyc_status_fault p.kyc_status)
          (portfolio_value_fault parsers p.portfolio_value)
          (preferences_fault parsers p.preferences) in
      (
        λ h.
            let (a, b, c, d, e, f) = faults.0 h in
            record {
              full_name = (full_name_lem p.full_name).0 a;
              email = (email_lem p.email).0 b;
              risk_profile = (risk_profile_lem p.risk_profile).0 c;
              kyc_status = (kyc_status_lem p.kyc_status).0 d;
              portfolio_value = (portfolio_value_lem p.portfolio_value).0 e;
              preferences = (preferences_lem p.preferences).0 f;
            },
        λ h. faults.1 (
          (full_name_lem p.full_name).1 h.full_name,
          (email_lem p.email).1 h.email,
          (risk_profile_lem p.risk_profile).1 h.risk_profile,
          (kyc_status_lem p.kyc_status).1 h.kyc_status,
          (portfolio_value_lem p.portfolio_value).1 h.portfolio_value,
          (preferences_lem p.preferences).1 h.preferences,
        ),
      )

  -- `ValidatePatch` returns no error exactly where the patch has a field, and each field that is
  -- present is acceptable: a name and an email whose trimmed texts are not empty and have at most
  -- 255 bytes, an email of the form name@host.top, a risk profile and a status that are listed, an
  -- amount that parses and is not negative, and preferences that are valid JSON.
  pub validate_patch_iff :
      (p : UpdateProfilePatch)
      → (validate_patch parsers p ≡ none) ↔ ((changed_fields p ≢ []) × IsAcceptable p)
  unfolding validate_patch
  validate_patch_iff p = elim (Bool-cases (is_empty p)) [
    | inl t ↦ rw t (λ h. absurd (cc h), λ h. absurd (h.0 ((is_empty_iff p).0 t)))
    | inr t ↦ rw t (λ h. (not_empty p t, (chain_lem p).0 h), λ h. (chain_lem p).1 h.1)
  ]
