-- ===== src/Profile/Patch/Email.antt =====
-- The texts that `emailRegex` matches.
use Prim.Native.Char.{Char, code}
use Prim.Native.String.append
use investor_cache.Base.{
  String, Bool, true, false, ℕ, suc, ◌+◌, ◌≤◌, ◌==◌, ◌&&◌, ◌≡◌, ◌↔◌, ◌⊎◌, inl, inr, refl, ap, sym,
  ◌∙◌, arith, Bool-cases,
}
use investor_cache.Go.Strings.{concat}
use investor_cache.Profile.Patch.{
  is_letter, is_host_char, is_local_char, match_letters, match_until, match_host, match_email,
}

abbrev pub AllChars : (Char → Bool) → String → Type 0
AllChars p String.[] = Unit {0}
AllChars p (String.◌∷◌ c s) = (p c ≡ true) × AllChars p s

abbrev pub char_count : String → ℕ
char_count String.[] = 0
char_count (String.◌∷◌ c s) = suc (char_count s)

match_letters_iff :
    (seen : ℕ) (s : String)
    → (match_letters seen s ≡ true) ↔ (AllChars is_letter s × (2 ≤ seen + char_count s))
unfolding match_letters
match_letters_iff seen String.[] = ground arith
match_letters_iff seen (String.◌∷◌ c s) = ground (arith, match_letters_iff (suc seen) s)

module _ (p : Char → Bool) (sep : ℕ) (rest : String → Bool) where
  -- A text that splits at a separator: characters before it, at least one unless `seen`, and the
  -- rest behind it.
  pub record IsSplit (seen : Bool) (s : String) : Type 0 where
    pub before : String
    pub separator : Char
    pub behind : String
    pub spelled : s ≡ concat before (String.◌∷◌ separator behind)
    pub separates : code separator ≡ sep
    pub matched : AllChars p before
    pub started : (seen ≡ true) ⊎ (1 ≤ char_count before)
    pub ends : rest behind ≡ true

  here-IsSplit :
      (seen : Bool) (c : Char) (s : String)
      → seen ≡ true
      → code c ≡ sep
      → rest s ≡ true
      → IsSplit seen (String.◌∷◌ c s)
  here-IsSplit seen c s started same h = record {
    before = String.[];
    separator = c;
    behind = s;
    spelled = sym (append.nil (String.◌∷◌ c s));
    separates = same;
    matched = tt;
    started = inl started;
    ends = h;
  }

  later-IsSplit :
      (seen : Bool) (c : Char) (s : String)
      → p c ≡ true
      → IsSplit true s
      → IsSplit seen (String.◌∷◌ c s)
  later-IsSplit seen c s h split = record {
    before = String.◌∷◌ c split.before;
    separator = split.separator;
    behind = split.behind;
    spelled =
        ap (λ t. String.◌∷◌ c t) split.spelled
        ∙ sym (append.cons c split.before (String.◌∷◌ split.separator split.behind));
    separates = split.separates;
    matched = (h, split.matched);
    started = inr (omega arith);
    ends = split.ends;
  }

  match_until-IsSplit :
      (seen : Bool) (s : String) → match_until p sep rest seen s ≡ true → IsSplit seen s
  unfolding match_until
  match_until-IsSplit seen String.[] h = absurd (cc h)
  match_until-IsSplit seen (String.◌∷◌ c s) h =
      elim (Bool-cases (seen && code c == sep && rest s)) [
        | inl t ↦ here-IsSplit seen c s (ground arith) (ground arith) (ground arith)
        | inr t ↦ later-IsSplit seen c s (ground arith) (match_until-IsSplit true s (ground arith))
      ]

  split-matches :
      (seen : Bool) (before : String) (c : Char) (behind : String)
      → code c ≡ sep
      → AllChars p before
      → (seen ≡ true) ⊎ (1 ≤ char_count before)
      → rest behind ≡ true
      → match_until p sep rest seen (concat before (String.◌∷◌ c behind)) ≡ true
  unfolding match_until
  split-matches seen String.[] c behind same all started h =
      rw (append.nil (String.◌∷◌ c behind)) (ground arith)
  split-matches seen (String.◌∷◌ d ds) c behind same all started h =
      rw (append.cons d ds (String.◌∷◌ c behind))
        (ground (arith, split-matches true ds c behind same all.1 (inl refl) h))

  match_until_iff : (s : String) → (match_until p sep rest false s ≡ true) ↔ IsSplit false s
  match_until_iff s = (
    match_until-IsSplit false s,
    λ split. rw split.spelled (
        split-matches false split.before split.separator split.behind split.separates split.matched
          split.started split.ends),
  )

-- An address: a name, an at sign, a host, a dot and a top level of at least two letters.
pub record IsAddress (s : String) : Type 0 where
  pub name : String
  pub at : Char
  pub host : String
  pub dot : Char
  pub top : String
  pub spelled : s ≡ concat name (String.◌∷◌ at (concat host (String.◌∷◌ dot top)))
  pub is_at : code at ≡ b'@'
  pub is_dot : code dot ≡ b'.'
  pub name_chars : AllChars is_local_char name
  pub name_length : 1 ≤ char_count name
  pub host_chars : AllChars is_host_char host
  pub host_length : 1 ≤ char_count host
  pub top_letters : AllChars is_letter top
  pub top_length : 2 ≤ char_count top

begun : (n : ℕ) → (false ≡ true) ⊎ (1 ≤ n) → 1 ≤ n
begun n h = ground (arith, h)

match_email-IsAddress : (s : String) → match_email s ≡ true → IsAddress s
unfolding match_email
match_email-IsAddress s h =
    let name = (match_until_iff is_local_char b'@' match_host s).0 h in
    let host = (match_until_iff is_host_char b'.' (match_letters 0) name.behind).0 name.ends in
    let letters = (match_letters_iff 0 host.behind).0 host.ends in
    record {
      name = name.before;
      at = name.separator;
      host = host.before;
      dot = host.separator;
      top = host.behind;
      spelled =
          name.spelled ∙ ap (λ t. concat name.before (String.◌∷◌ name.separator t)) host.spelled;
      is_at = name.separates;
      is_dot = host.separates;
      name_chars = name.matched;
      name_length = begun (char_count name.before) name.started;
      host_chars = host.matched;
      host_length = begun (char_count host.before) host.started;
      top_letters = letters.0;
      top_length = omega (arith, letters.1);
    }

matches : (s : String) → IsAddress s → match_email s ≡ true
unfolding match_email
matches s a = (match_until_iff is_local_char b'@' match_host s).1 (record {
  before = a.name;
  separator = a.at;
  behind = concat a.host (String.◌∷◌ a.dot a.top);
  spelled = a.spelled;
  separates = a.is_at;
  matched = a.name_chars;
  started = inr a.name_length;
  ends =
      (match_until_iff is_host_char b'.' (match_letters 0)
          (concat a.host (String.◌∷◌ a.dot a.top))).1
        (record {
          before = a.host;
          separator = a.dot;
          behind = a.top;
          spelled = refl;
          separates = a.is_dot;
          matched = a.host_chars;
          started = inr a.host_length;
          ends = (match_letters_iff 0 a.top).1 (a.top_letters, omega (arith, a.top_length));
        });
})

-- The pattern matches exactly the texts that are a name, an at sign, a host, a dot and at least two
-- letters, with at least one character in the name and in the host, each of its class.
pub match_email_iff : (s : String) → (match_email s ≡ true) ↔ IsAddress s
unfolding match_email
match_email_iff s = (match_email-IsAddress s, matches s)
