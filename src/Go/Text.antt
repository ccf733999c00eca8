-- ===== src/Go/Text.antt =====
-- Texts as Go sees them: `strings.TrimSpace` and `len`, the number of bytes in UTF-8.
use Prim.Native.Char.{Char, code}
use Prim.Native.String.{len}
use investor_cache.Base.{
  String, Bool, true, false, ℕ, leb, ◌==◌, ◌||◌, ◌&&◌, if◌then◌else◌, ◌≡◌, refl,
}

-- `unicode.IsSpace`
unfoldable pub is_space : Char → Bool
is_space c =
    let n = code c in
    (leb 9 n && leb n 13)
    || n == 32
    || n == 133
    || n == 160
    || n == 5760
    || (leb 8192 n && leb n 8202)
    || n == 8232
    || n == 8233
    || n == 8239
    || n == 8287
    || n == 12288

abbrev pub is_blank : String → Bool
is_blank String.[] = true
is_blank (String.◌∷◌ c s) = false

unfoldable pub trim_left : String → String
trim_left String.[] = String.[]
trim_left (String.◌∷◌ c s) = let rest = trim_left s in if is_space c then rest else String.◌∷◌ c s

unfoldable pub trim_right : String → String
trim_right String.[] = String.[]
trim_right (String.◌∷◌ c s) =
    let rest = trim_right s in if is_blank rest && is_space c then String.[] else String.◌∷◌ c rest

unfoldable pub trim_space : String → String
trim_space s = trim_right (trim_left s)

-- `len(s)`
abbrev pub byte_length : String → ℕ
byte_length s = len s

trims : trim_space "  Ann Lee \n" ≡ "Ann Lee"
unfolding trim_space trim_left trim_right is_space
trims = refl

counts_bytes : byte_length "é" ≡ 2
counts_bytes = refl
