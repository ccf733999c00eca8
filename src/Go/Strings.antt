-- ===== src/Go/Strings.antt =====
-- `strings.TrimPrefix`, `strings.Join` and the concatenation of texts.
use Prim.Native.String.{◌++◌ as string_append, len, slice}
use text.Mathlib.Text.{starts_with}
use text.Mathlib.TextPositions.{starts_with-append, slice-append_right, len-append}
use Prim.Native.Char.{Char, code}
use Prim.Native.String.append.{nil as append_nil, cons as append_cons}
use investor_cache.Base.{
  String, List, [], ◌∷◌, ◌≡◌, refl, ap, ◌∙◌, Bool, false, ◌||◌, ◌==◌, All, arith, if◌then◌else◌,
}

abbrev pub concat : String → String → String
concat s t = string_append s t

-- `strings.Join(elems, sep)`
abbrev pub join : String → List String → String
join sep [] = ""
join sep (s ∷ []) = s
join sep (s ∷ t ∷ rest) = concat s (concat sep (join sep (t ∷ rest)))

-- `if len(s) >= len(prefix) && s[:len(prefix)] == prefix { return s[len(prefix):] }; return s`
pub trim_prefix : String → String → String
trim_prefix s p = if starts_with s p then slice s (len p) (len s) else s

pub trim_prefix-concat : (p s : String) → trim_prefix (concat p s) p ≡ s
unfolding trim_prefix
trim_prefix-concat p s = rw (starts_with-append p s, len-append p s) (slice-append_right p s)

abbrev pub before_first : Char → List String → List String
before_first c [] = String.◌∷◌ c "" ∷ []
before_first c (s ∷ rest) = String.◌∷◌ c s ∷ rest

-- `strings.Split(s, sep)` for a separator of one character.
unfoldable pub split : Char → String → List String
split sep String.[] = "" ∷ []
split sep (String.◌∷◌ c s) =
    let rest = split sep s in if code c == code sep then "" ∷ rest else before_first c rest

abbrev pub contains : Char → String → Bool
contains sep String.[] = false
contains sep (String.◌∷◌ c s) = code c == code sep || contains sep s

split-whole : (sep : Char) (s : String) → contains sep s ≡ false → split sep s ≡ s ∷ []
unfolding split
split-whole sep String.[] h = refl
split-whole sep (String.◌∷◌ c s) h = ground (arith, split-whole sep s)

split-concat :
    (sep : Char) (s t : String)
    → contains sep s ≡ false
    → split sep (concat s (String.◌∷◌ sep t)) ≡ s ∷ split sep t
unfolding split
split-concat sep String.[] t h = rw (append_nil (String.◌∷◌ sep t)) (ground arith)
split-concat sep (String.◌∷◌ c s) t h =
    rw (append_cons c s (String.◌∷◌ sep t)) (ground (arith, split-concat sep s t))

-- Texts without the separator are the parts of their join.
join-step :
    (sep : Char) (s t : String) (ss : List String)
    → join (String.◌∷◌ sep "") (s ∷ t ∷ ss)
      ≡ concat s (String.◌∷◌ sep (join (String.◌∷◌ sep "") (t ∷ ss)))
join-step sep s t ss = ap (concat s) (append_cons sep "" _ ∙ ap (String.◌∷◌ sep) (append_nil _))

pub split-join :
    (sep : Char) (s : String) (ss : List String)
    → All (λ p. contains sep p ≡ false) (s ∷ ss)
    → split sep (join (String.◌∷◌ sep "") (s ∷ ss)) ≡ s ∷ ss
split-join sep s [] h = split-whole sep s h.0
split-join sep s (t ∷ ss) h =
    ap (split sep) (join-step sep s t ss)
    ∙ split-concat sep s (join (String.◌∷◌ sep "") (t ∷ ss)) h.0
    ∙ ap (λ rest. s ∷ rest) (split-join sep t ss h.1)
