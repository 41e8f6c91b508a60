-- ===== src/Text.antt =====
-- Go strings and the functions of the package `strings` that the program calls. A text is the list
-- of its code points. Spaces are Go's `unicode.IsSpace`; case folding is that of ASCII, with the two
-- other letters whose lower case is an ASCII letter.
pub mod Laws
pub mod Numbers
pub mod Suffixes
use Prim.Native.Char.{code}
use mathlib.Core.List.{reverse}
use mesh_vpn.Base.{
  ℕ, ◌+◌, String, Bool, true, false, not, ◌&&◌, ◌||◌, List, [], ◌∷◌, ◌++◌, map, leb, ltb, drop,
  length, ◌==◌, if◌then◌else◌, keep,
}

abbrev pub Text : Type 0
Text = List ℕ

-- The text of a literal.
abbrev pub codes : String → Text
codes String.[] = []
codes (String.◌∷◌ c s) = code c ∷ codes s

-- `s == t` on strings.
unfoldable pub text_eq : Text → Text → Bool
text_eq [] [] = true
text_eq [] (d ∷ t) = false
text_eq (c ∷ s) [] = false
text_eq (c ∷ s) (d ∷ t) = c == d && text_eq s t

-- `s < t` on strings, byte by byte.
unfoldable pub text_lt : Text → Text → Bool
text_lt [] [] = false
text_lt [] (d ∷ t) = true
text_lt (c ∷ s) [] = false
text_lt (c ∷ s) (d ∷ t) = if c == d then text_lt s t else ltb c d

unfoldable pub is_empty : Text → Bool
is_empty [] = true
is_empty (c ∷ s) = false

unfoldable pub is_space : ℕ → Bool
is_space c =
    leb 9 c && leb c 13
    || c == 0x20
    || c == 0x85
    || c == 0xA0
    || c == 0x1680
    || leb 0x2000 c && leb c 0x200A
    || c == 0x2028
    || c == 0x2029
    || c == 0x202F
    || c == 0x205F
    || c == 0x3000

-- Drops the longest front of which every code point passes the test.
unfoldable pub trim_left : (ℕ → Bool) → Text → Text
trim_left p [] = []
trim_left p (c ∷ s) = let rest = trim_left p s in if p c then rest else c ∷ s

unfoldable pub trim_both : (ℕ → Bool) → Text → Text
unfolding trim_left
trim_both p s = reverse (trim_left p (reverse (trim_left p s)))

-- `strings.TrimSpace(s)`
unfoldable pub trim_space : Text → Text
unfolding trim_both is_space
trim_space s = trim_both is_space s

-- `strings.Trim(s, cut)` for a cut set of one code point
unfoldable pub trim_char : ℕ → Text → Text
unfolding trim_both
trim_char cut s = trim_both (λ c. c == cut) s

unfoldable pub lower : ℕ → ℕ
lower c =
    if leb b'A' c && leb c b'Z'
    then c + 32
    else if c == 0x130
    then b'i'
    else if c == 0x212A
    then b'k'
    else c

-- `strings.ToLower(s)`
unfoldable pub to_lower : Text → Text
unfolding lower
to_lower s = map lower s

-- `strings.ReplaceAll(s, old, new)` for single code points
unfoldable pub replace_all : ℕ → ℕ → Text → Text
replace_all old new s = map (λ c. if c == old then new else c) s

-- `strings.ReplaceAll(s, old, "")`
unfoldable pub remove_all : ℕ → Text → Text
unfolding keep
remove_all old s = keep (λ c. not (c == old)) s

unfoldable pub contains_char : ℕ → Text → Bool
contains_char c [] = false
contains_char c (d ∷ s) = d == c || contains_char c s

unfoldable pub has_prefix : Text → Text → Bool
has_prefix [] s = true
has_prefix (c ∷ p) [] = false
has_prefix (c ∷ p) (d ∷ s) = c == d && has_prefix p s

-- `strings.Contains(s, part)`
unfoldable pub contains_text : Text → Text → Bool
unfolding has_prefix
contains_text part [] = has_prefix part []
contains_text part (c ∷ s) = has_prefix part (c ∷ s) || contains_text part s

unfoldable pub drop_prefix : Text → Text → Text
unfolding has_prefix
drop_prefix p s = if has_prefix p s then drop (length p) s else s

-- `strings.TrimSuffix(s, suffix)`
unfoldable pub trim_suffix : Text → Text → Text
unfolding drop_prefix
trim_suffix suffix s = reverse (drop_prefix (reverse suffix) (reverse s))

-- The last part of `strings.Split(s, sep)` for a separator of one code point: what follows the last
-- separator, or the whole text.
last_part_from : ℕ → Text → Text → Text
last_part_from sep part [] = part
last_part_from sep part (c ∷ s) = last_part_from sep (if c == sep then [] else part ++ c ∷ []) s

unfoldable pub last_part : ℕ → Text → Text
unfolding last_part_from
last_part sep s = last_part_from sep [] s
