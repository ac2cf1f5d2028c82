-- ===== src/Domain/Text.antt =====
-- The checks of Go's strings, unicode and utf8 packages that the validators call. A text is a
-- sequence of code points: valid UTF-8 is assumed.
use Prim.Native.Char.{code}
use text.Mathlib.Text.{◌==◌ as string_eq}
use xr_trading.Base.{
  ◌≡◌, refl, arith, arith, ◌≡◌, ℕ, ◌+◌, String, Bool, true, false, not, if◌then◌else◌, ltb, ◌&&◌,
  ◌||◌, List, [], ◌∷◌, leb, ◌==◌, length,
}

abbrev pub codes : String → List ℕ
codes String.[] = []
codes (String.◌∷◌ c s) = code c ∷ codes s

-- `a == b` on strings
abbrev pub same_text : String → String → Bool
same_text a b = string_eq a b

-- unicode.IsSpace
unfoldable pub is_space : ℕ → Bool
is_space c =
    leb 9 c && leb c 13
    || (c == 32 || c == 0x85 || c == 0xa0 || c == 0x1680)
    || leb 0x2000 c && leb c 0x200a
    || (c == 0x2028 || c == 0x2029 || c == 0x202f || c == 0x205f || c == 0x3000)

starts_spaced : List ℕ → Bool
unfolding is_space
starts_spaced [] = false
starts_spaced (c ∷ cs) = is_space c

ends_spaced : List ℕ → Bool
unfolding is_space
ends_spaced [] = false
ends_spaced (c ∷ []) = is_space c
ends_spaced (_ ∷ cs) = ends_spaced cs

-- `strings.TrimSpace(s) != s`: a space stands at an end of `s`.
unfoldable pub is_padded : String → Bool
unfolding starts_spaced ends_spaced
is_padded s = starts_spaced (codes s) || ends_spaced (codes s)

-- utf8.RuneCountInString
unfoldable pub rune_count : String → ℕ
rune_count s = length (codes s)

-- `s == "" || strings.TrimSpace(s) != s || utf8.RuneCountInString(s) > n`, negated
unfoldable pub is_bounded_text : ℕ → String → Bool
is_bounded_text n s = not (same_text s "" || is_padded s || ltb n (rune_count s))

-- `strings.TrimSpace(s) == ""`
all_spaces : List ℕ → Bool
unfolding is_space
all_spaces [] = true
all_spaces (c ∷ cs) = is_space c && all_spaces cs

unfoldable pub is_blank : String → Bool
unfolding all_spaces
is_blank s = all_spaces (codes s)

-- strings.HasPrefix
unfoldable pub has_prefix : List ℕ → List ℕ → Bool
has_prefix s [] = true
has_prefix [] (_ ∷ _) = false
has_prefix (c ∷ cs) (p ∷ ps) = c == p && has_prefix cs ps

-- The number of bytes of a character in UTF-8, and `len(s)`.
byte_count : ℕ → ℕ
byte_count c = if ltb c 0x80 then 1 else if ltb c 0x800 then 2 else if ltb c 0x10000 then 3 else 4

unfoldable pub bytes : List ℕ → ℕ
unfolding byte_count
bytes [] = 0
bytes (c ∷ cs) = byte_count c + bytes cs

-- `a-z0-9`
is_alphanumeric : ℕ → Bool
is_alphanumeric c = leb 97 c && leb c 122 || leb 48 c && leb c 57

-- `^[a-z0-9]+(?:[s][a-z0-9]+)*$` for a set `s` of separators: `inside` says that the last character was a
-- letter or a digit.
unfoldable pub matches_words : (ℕ → Bool) → Bool → List ℕ → Bool
unfolding is_alphanumeric
matches_words is_separator inside [] = inside
matches_words is_separator inside (c ∷ cs) =
    if is_alphanumeric c
    then matches_words is_separator true cs
    else inside && is_separator c && matches_words is_separator false cs

-- `a == b` on texts that are sequences of characters.
unfoldable pub same_codes : List ℕ → List ℕ → Bool
same_codes [] [] = true
same_codes (c ∷ cs) (d ∷ ds) = c == d && same_codes cs ds
same_codes _ _ = false

pub same_codes-same : (cs : List ℕ) → same_codes cs cs ≡ true
unfolding same_codes
same_codes-same [] = refl
same_codes-same (c ∷ cs) = rw (same_codes-same cs) (ground arith)
