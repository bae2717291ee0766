-- ===== src/Base/Text.antt =====
-- A `str` as the list of its code points, with the operations of the standard library that the
-- source calls. Every byte test of the source is about ASCII, where bytes and code points agree.
use Prim.Native.Nat.{ℕ, zero, suc, ◌+◌, ◌-◌, ◌*◌, ◌/◌, ◌%◌}
use Prim.Native.Char.{code}
use Prim.Native.String.{String}
use mathlib.Core.Path.{◌≡◌, refl}
use mathlib.Core.Bool.{Bool, true, false, ◌&&◌, ◌||◌}
use mathlib.Core.List.{List, [], ◌∷◌, map, reverse}
use mathlib.Core.Option.{Option, none, some}
use native.Mathlib.Omega.{arith}
use crypto_payment_detector.Base.Tests.{ltb, ◌==◌, leb, if◌then◌else◌}
use crypto_payment_detector.Base.Lists.{any}

abbrev pub Text : Type 0
Text = List ℕ

-- A literal.
abbrev pub text : String → Text
text String.[] = []
text (String.◌∷◌ c s) = code c ∷ text s

-- `==` on `str`.
unfoldable pub same : Text → Text → Bool
same [] [] = true
same [] (b ∷ t) = false
same (a ∷ s) [] = false
same (a ∷ s) (b ∷ t) = (a == b) && same s t

pub same→≡ : (s t : Text) → same s t ≡ true → s ≡ t
unfolding same
same→≡ [] [] h = refl
same→≡ [] (b ∷ t) h = cc
same→≡ (a ∷ s) [] h = cc
same→≡ (a ∷ s) (b ∷ t) h = ground (arith, same→≡ s t)

pub same_refl : (s : Text) → same s s ≡ true
unfolding same
same_refl [] = refl
same_refl (a ∷ s) = ground (arith, same_refl s)

-- `matches!(s, a | b | ..)`
unfoldable pub one_of : Text → List Text → Bool
one_of s ts = any (same s) ts

-- `char::is_whitespace`: the Unicode property White_Space.
unfoldable pub is_whitespace : ℕ → Bool
is_whitespace c =
    (leb 9 c && leb c 13)
    || c == 32
    || c == 0x85
    || c == 0xA0
    || c == 0x1680
    || (leb 0x2000 c && leb c 0x200A)
    || c == 0x2028
    || c == 0x2029
    || c == 0x202F
    || c == 0x205F
    || c == 0x3000

-- `trim_start_matches(p)`
unfoldable pub trim_start_matches : (ℕ → Bool) → Text → Text
trim_start_matches p [] = []
trim_start_matches p (c ∷ s) = if p c then trim_start_matches p s else c ∷ s

-- `trim_end_matches(p)`
unfoldable pub trim_end_matches : (ℕ → Bool) → Text → Text
unfolding trim_start_matches
trim_end_matches p s = reverse (trim_start_matches p (reverse s))

unfoldable pub trim : Text → Text
unfolding trim_start_matches trim_end_matches is_whitespace
trim s = trim_end_matches is_whitespace (trim_start_matches is_whitespace s)

-- `to_ascii_lowercase`, `to_ascii_uppercase`
unfoldable pub to_ascii_lowercase : Text → Text
to_ascii_lowercase = map (λ c. if leb 65 c && leb c 90 then c + 32 else c)

unfoldable pub to_ascii_uppercase : Text → Text
to_ascii_uppercase = map (λ c. if leb 97 c && leb c 122 then c - 32 else c)

unfoldable pub is_empty : Text → Bool
is_empty [] = true
is_empty (c ∷ s) = false

unfoldable pub starts_with : Text → Text → Bool
starts_with [] s = true
starts_with (p ∷ ps) [] = false
starts_with (p ∷ ps) (c ∷ s) = (p == c) && starts_with ps s

-- `contains`
unfoldable pub contains : Text → Text → Bool
unfolding starts_with
contains p [] = starts_with p []
contains p (c ∷ s) = starts_with p (c ∷ s) || contains p s

unfoldable pub ends_with : Text → Text → Bool
unfolding starts_with
ends_with p s = starts_with (reverse p) (reverse s)

-- `split` at each character that satisfies the test; always at least one piece.
split_from : (ℕ → Bool) → Text → Text → List Text
split_from p piece [] = reverse piece ∷ []
split_from p piece (c ∷ s) =
    let next = split_from p [] s in
    let more = split_from p (c ∷ piece) s in if p c then reverse piece ∷ next else more

unfoldable pub split : (ℕ → Bool) → Text → List Text
unfolding split_from
split p s = split_from p [] s

digits : ℕ → ℕ → Text → Text
digits zero n later = later
digits (suc k) n later =
    let rest = digits k (n / 10) ((48 + n % 10) ∷ later) in
    if leb n 9 then (48 + n) ∷ later else rest

-- What `{}` prints of a `u64`, which has at most 20 digits.
unfoldable pub decimal : ℕ → Text
unfolding digits
decimal n = digits 20 n []

read_digits : ℕ → Text → Option ℕ
read_digits value [] = some value
read_digits value (c ∷ s) =
    let next = value * 10 + (c - 48) in
    let rest = read_digits next s in
    if leb 48 c && leb c 57 && leb next 18446744073709551615 then rest else none

unsigned : Text → Option ℕ
unfolding read_digits
unsigned [] = none
unsigned (c ∷ s) = read_digits 0 (c ∷ s)

-- `parse::<u64>().ok()`, which takes one leading `+`.
unfoldable pub parse_u64 : Text → Option ℕ
unfolding unsigned
parse_u64 [] = none
parse_u64 (c ∷ s) = if c == 43 then unsigned s else unsigned (c ∷ s)

unfoldable pub last_piece : List Text → Option Text
last_piece [] = none
last_piece (t ∷ []) = some t
last_piece (t ∷ u ∷ ts) = last_piece (u ∷ ts)

-- The bytes of a code point in UTF-8.
len_utf8 : ℕ → ℕ
len_utf8 c = if ltb c 128 then 1 else if ltb c 2048 then 2 else if ltb c 65536 then 3 else 4

-- Whether `s[..n]` is a text: the text has `n` bytes, and no code point stands across the last.
unfoldable pub is_char_boundary : ℕ → Text → Bool
unfolding len_utf8
is_char_boundary n [] = n == 0
is_char_boundary n (c ∷ s) =
    let rest = is_char_boundary (n - len_utf8 c) s in (n == 0) || (leb (len_utf8 c) n && rest)
