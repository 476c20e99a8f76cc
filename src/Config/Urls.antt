-- ===== src/Config/Urls.antt =====
-- The text functions that config.rs applies to a URL. They are those of `str` over code points;
-- lower-casing is written for ASCII, since the code only compares the result with prefixes in
-- "http://" and "https://", and no other character has a lower case among these letters.
pub mod Laws
use azoth_balancer.Prelude.{
  ℕ, zero, suc, ◌+◌, ◌≤◌, ◌<◌, Bool, true, false, ◌&&◌, ◌||◌, List, [], ◌∷◌, ◌++◌, map, Text, codes,
  ltb, leb, ◌==◌, is_empty, if◌then◌else◌,
}

-- `char::is_whitespace`: the property White_Space
unfoldable pub is_whitespace : ℕ → Bool
is_whitespace c =
    (leb 9 c && leb c 13)
    || c == 32
    || c == 0x85
    || c == 0xA0
    || c == 0x1680
    || (leb 0x2000 c && leb c 0x200A)
    || c == 0x2028
    || c == 0x2029
    || c == 0x202F
    || c == 0x205F
    || c == 0x3000

-- `char::is_control`: the category Cc
unfoldable pub is_control : ℕ → Bool
is_control c = leb c 31 || (leb 127 c && leb c 159)

unfoldable pub to_lower : ℕ → ℕ
to_lower c = if leb b'A' c && leb c b'Z' then c + 32 else c

unfoldable pub starts_with : Text → Text → Bool
starts_with [] s = true
starts_with (p ∷ ps) [] = false
starts_with (p ∷ ps) (c ∷ s) = p == c && starts_with ps s

-- `s.to_lowercase().starts_with(scheme)`
unfoldable pub has_scheme : Text → Text → Bool
unfolding starts_with to_lower
has_scheme scheme s = starts_with scheme (map to_lower s)

abbrev pub drop : ℕ → Text → Text
drop zero s = s
drop (suc n) [] = []
drop (suc n) (c ∷ s) = drop n s

unfoldable pub trim_start : (ℕ → Bool) → Text → Text
trim_start p [] = []
trim_start p (c ∷ s) = if p c then trim_start p s else c ∷ s

-- Pops characters off the end while they pass the test.
unfoldable pub trim_end : (ℕ → Bool) → Text → Text
trim_end p [] = []
trim_end p (c ∷ s) = let rest = trim_end p s in if is_empty rest && p c then [] else c ∷ rest

unfoldable pub trim : Text → Text
unfolding trim_start trim_end is_whitespace
trim s = trim_end is_whitespace (trim_start is_whitespace s)

-- the bytes of a character in UTF-8
abbrev utf8_width : ℕ → ℕ
utf8_width c = if ltb c 0x80 then 1 else if ltb c 0x800 then 2 else if ltb c 0x10000 then 3 else 4

-- `s.len()`
unfoldable pub byte_len : Text → ℕ
byte_len [] = 0
byte_len (c ∷ s) = utf8_width c + byte_len s

abbrev pub is_slash : ℕ → Bool
is_slash c = c == b'/'

-- Lower-case the scheme, then remove the slashes at the end.
unfoldable pub canonicalize : Text → Text
unfolding has_scheme trim_end
canonicalize url = trim_end is_slash (
    if has_scheme (codes "http://") url
    then codes "http://" ++ drop 7 url
    else if has_scheme (codes "https://") url
    then codes "https://" ++ drop 8 url
    else url)
