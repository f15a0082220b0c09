-- ===== src/Base/Text.antt =====
-- Go strings as lists of bytes, and what the program uses of package strings: comparison,
-- TrimSpace, ToLower, HasPrefix, Cut and LastIndex (of one byte).
use Prim.Native.Nat.{ℕ, zero, suc, ◌+◌}
use Prim.Native.Char.{code}
use Prim.Native.String.{String}
use mathlib.Core.Path.{◌≡◌, refl}
use mathlib.Core.Logic.{◌↔◌}
use mathlib.Core.Bool.{Bool, true, false, ◌||◌, ◌&&◌}
use mathlib.Core.List.{List, [], ◌∷◌, reverse}
use mathlib.Core.Option.{Option, none, some}
use native.Mathlib.Omega.{arith}
use roambench.Base.Tests.{ltb, leb, ◌==◌, if◌then◌else◌}

-- The bytes of a Go string.
abbrev pub Text : Type 0
Text = List ℕ

-- The bytes of an ASCII literal. `String` has its own `[]` and `∷`.
abbrev pub codes : String → Text
codes String.[] = []
codes (String.◌∷◌ c s) = code c ∷ codes s

-- `a == b` on strings.
unfoldable pub text_eq : Text → Text → Bool
text_eq [] [] = true
text_eq [] (_ ∷ _) = false
text_eq (_ ∷ _) [] = false
text_eq (x ∷ xs) (y ∷ ys) = (x == y) && text_eq xs ys

pub text_eq_iff : (a b : Text) → (text_eq a b ≡ true) ↔ (a ≡ b)
unfolding text_eq
text_eq_iff [] [] = ground arith
text_eq_iff [] (_ ∷ _) = ground arith
text_eq_iff (_ ∷ _) [] = ground arith
text_eq_iff (x ∷ xs) (y ∷ ys) = ground (arith, text_eq_iff xs ys)

pub text_eq_refl : (a : Text) → text_eq a a ≡ true
text_eq_refl a = (text_eq_iff a a).1 refl

pub text_eq_sym : (a b : Text) → text_eq a b ≡ text_eq b a
text_eq_sym a b = ground (arith, text_eq_iff a b, text_eq_iff b a)

-- `s == ""`.
abbrev pub is_empty : Text → Bool
is_empty [] = true
is_empty (_ ∷ _) = false

-- `strings.HasPrefix(s, p)`, with the prefix first.
unfoldable pub has_prefix : Text → Text → Bool
has_prefix [] s = true
has_prefix (_ ∷ _) [] = false
has_prefix (p ∷ ps) (c ∷ s) = (p == c) && has_prefix ps s

-- White space of one byte, of two bytes and of three: `unicode.IsSpace` over UTF-8.
is_space1 : ℕ → Bool
is_space1 c = (leb 9 c && leb c 13) || c == 32

is_space2 : ℕ → ℕ → Bool
is_space2 a b = a == 0xc2 && (b == 0x85 || b == 0xa0)

is_space3 : ℕ → ℕ → ℕ → Bool
is_space3 a b c =
    (a == 0xe1 && b == 0x9a && c == 0x80)
    || (a == 0xe2
        && b == 0x80
        && ((leb 0x80 c && leb c 0x8a) || c == 0xa8 || c == 0xa9 || c == 0xaf))
    || (a == 0xe2 && b == 0x81 && c == 0x9f)
    || (a == 0xe3 && b == 0x80 && c == 0x80)

-- The bytes of the white space rune that a text begins with, 0 if it begins with none.
leading_space : Text → ℕ
unfolding is_space1 is_space2 is_space3
leading_space [] = 0
leading_space (a ∷ []) = if is_space1 a then 1 else 0
leading_space (a ∷ b ∷ []) = if is_space1 a then 1 else if is_space2 a b then 2 else 0
leading_space (a ∷ b ∷ c ∷ s) =
    if is_space1 a then 1 else if is_space2 a b then 2 else if is_space3 a b c then 3 else 0

-- The same for a reversed text, whose first byte is the last of the text.
trailing_space : Text → ℕ
unfolding is_space1 is_space2 is_space3
trailing_space [] = 0
trailing_space (a ∷ []) = if is_space1 a then 1 else 0
trailing_space (a ∷ b ∷ []) = if is_space1 a then 1 else if is_space2 b a then 2 else 0
trailing_space (a ∷ b ∷ c ∷ s) =
    if is_space1 a then 1 else if is_space2 b a then 2 else if is_space3 c b a then 3 else 0

-- Drops runes from the front while `width` finds one; `k` bytes of the last one are still to go.
trim_front : (Text → ℕ) → ℕ → Text → Text
trim_front width k [] = []
trim_front width (suc k) (c ∷ s) = trim_front width k s
trim_front width zero (c ∷ s) = elim (width (c ∷ s)) [ zero ↦ c ∷ s | suc k ↦ trim_front width k s ]

-- `strings.TrimSpace`.
unfoldable pub trim_space : Text → Text
unfolding leading_space trailing_space trim_front
trim_space s = reverse (trim_front trailing_space 0 (reverse (trim_front leading_space 0 s)))

-- One rune in lower case: the byte to write, and how many more bytes were read. Two runes outside
-- ASCII have a lower case in ASCII, U+0130 and U+212A; the others stay outside ASCII and are
-- left as they are, which no comparison with an ASCII word can tell.
lower_rune : ℕ → Text → ℕ × ℕ
unfolding has_prefix
lower_rune c s =
    if leb b'A' c && leb c b'Z'
    then (c + 32, 0)
    else if c == 0xc4 && has_prefix (0xb0 ∷ []) s
    then (b'i', 1)
    else if c == 0xe2 && has_prefix (0x84 ∷ 0xaa ∷ []) s
    then (b'k', 2)
    else (c, 0)

lower_from : ℕ → Text → Text
unfolding lower_rune
lower_from k [] = []
lower_from (suc k) (c ∷ s) = lower_from k s
lower_from zero (c ∷ s) = (lower_rune c s).0 ∷ lower_from (lower_rune c s).1 s

-- `strings.ToLower`, up to letters outside ASCII.
unfoldable pub to_lower : Text → Text
unfolding lower_from
to_lower = lower_from 0

-- `strings.Cut(s, sep)` at one byte: what stands before the separator, and what stands behind.
unfoldable pub cut : ℕ → Text → Text × Text
cut sep [] = ([], [])
cut sep (c ∷ s) =
    let (before, after) = cut sep s in if c == sep then ([], s) else (c ∷ before, after)

-- `s[strings.LastIndex(s, sep)+1:]` at one byte, `none` where the byte does not stand in `s`.
unfoldable pub after_last : ℕ → Text → Option Text
after_last sep [] = none
after_last sep (c ∷ s) = elim (after_last sep s) [
  | some t ↦ some t
  | none ↦ if c == sep then some s else none
]

-- The bytes that `utf8.DecodeRune` reads at the front; an invalid byte is read alone.
is_cont : ℕ → Bool
is_cont c = leb 0x80 c && leb c 0xbf

is_pair : ℕ → ℕ → Bool
unfolding is_cont
is_pair a b = leb 0xc2 a && leb a 0xdf && is_cont b

is_triple : ℕ → ℕ → ℕ → Bool
unfolding is_cont
is_triple a b c =
    is_cont c
    && ((a == 0xe0 && leb 0xa0 b && leb b 0xbf)
        || (a == 0xed && leb 0x80 b && leb b 0x9f)
        || (((leb 0xe1 a && leb a 0xec) || a == 0xee || a == 0xef) && is_cont b))

is_quad : ℕ → ℕ → ℕ → ℕ → Bool
unfolding is_cont
is_quad a b c d =
    is_cont c
    && is_cont d
    && ((a == 0xf0 && leb 0x90 b && leb b 0xbf)
        || (a == 0xf4 && leb 0x80 b && leb b 0x8f)
        || (leb 0xf1 a && leb a 0xf3 && is_cont b))

rune_tail : ℕ → Text → ℕ
unfolding is_pair is_triple is_quad
rune_tail a [] = 0
rune_tail a (b ∷ []) = if is_pair a b then 1 else 0
rune_tail a (b ∷ c ∷ []) = if is_pair a b then 1 else if is_triple a b c then 2 else 0
rune_tail a (b ∷ c ∷ d ∷ s) =
    if is_pair a b then 1 else if is_triple a b c then 2 else if is_quad a b c d then 3 else 0

runes_from : ℕ → Text → ℕ
unfolding rune_tail
runes_from k [] = 0
runes_from (suc k) (a ∷ s) = runes_from k s
runes_from zero (a ∷ s) = suc (runes_from (rune_tail a s) s)

-- `len([]rune(s))`.
unfoldable pub rune_count : Text → ℕ
unfolding runes_from
rune_count = runes_from 0

-- `a <= b` on strings: bytes in order.
unfoldable pub text_le : Text → Text → Bool
text_le [] b = true
text_le (x ∷ a) [] = false
text_le (x ∷ a) (y ∷ b) = ltb x y || (x == y && text_le a b)

unfoldable pub insert_sorted : Text → List Text → List Text
unfolding text_le
insert_sorted x [] = x ∷ []
insert_sorted x (y ∷ ys) = if text_le x y then x ∷ y ∷ ys else y ∷ insert_sorted x ys

-- `sort.Strings`.
unfoldable pub sort_strings : List Text → List Text
unfolding insert_sorted
sort_strings [] = []
sort_strings (x ∷ xs) = insert_sorted x (sort_strings xs)

-- `contains(values, target)`.
unfoldable pub contains : List Text → Text → Bool
contains [] t = false
contains (x ∷ xs) t = text_eq x t || contains xs t

runes_mixed : rune_count (b'a' ∷ 0xc3 ∷ 0xa9 ∷ 0xe2 ∷ 0x82 ∷ 0xac ∷ 0xff ∷ []) ≡ 4
unfolding rune_count
runes_mixed = refl

trim_both : trim_space (codes "  a b \n") ≡ codes "a b"
unfolding trim_space
trim_both = refl

trim_wide : trim_space (0xe2 ∷ 0x80 ∷ 0x83 ∷ b'x' ∷ 0xc2 ∷ 0xa0 ∷ []) ≡ codes "x"
unfolding trim_space
trim_wide = refl

lower_kelvin : to_lower (b'O' ∷ 0xe2 ∷ 0x84 ∷ 0xaa ∷ []) ≡ codes "ok"
unfolding to_lower
lower_kelvin = refl
