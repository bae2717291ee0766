-- ===== src/Error/Redact.antt =====
-- `redact_urls` of error.rs, which every message passes before it is shown. The source scans bytes
-- and cuts only at ASCII bytes, where bytes and code points agree.
pub mod Hides
use crypto_payment_detector.Base.{
  ℕ, zero, suc, ◌+◌, ◌≤◌, ◌<◌, ◌≡◌, refl, sym, ◌∙◌, ap, Bool, true, false, not, ◌&&◌, ◌||◌, Option,
  none, some, List, [], ◌∷◌, ◌++◌, if◌then◌else◌, leb, ◌==◌, length, all, arith, Bool-cases,
  Option-cases, inl, inr,
}
use mathlib.Core.List.{reverse}
use crypto_payment_detector.Base.Text.{
  Text, text, starts_with, contains, trim_start_matches, trim_end_matches,
}

unfoldable pub is_alphabetic : ℕ → Bool
is_alphabetic c = (leb 65 c && leb c 90) || (leb 97 c && leb c 122)

-- A byte of a scheme: alphanumeric, `+`, `-` or `.`.
unfoldable pub is_scheme_byte : ℕ → Bool
unfolding is_alphabetic
is_scheme_byte c = is_alphabetic c || (leb 48 c && leb c 57) || c == 43 || c == 45 || c == 46

-- ASCII whitespace (tab, line feed, form feed, carriage return, space) or one of `)]}>"',;`.
unfoldable pub ends_url : ℕ → Bool
ends_url c =
    c == 9
    || c == 10
    || c == 12
    || c == 13
    || c == 32
    || c == 41
    || c == 93
    || c == 125
    || c == 62
    || c == 34
    || c == 39
    || c == 44
    || c == 59

abbrev pub separator : Text
separator = 58 ∷ 47 ∷ 47 ∷ []

abbrev pub after_separator : Text → Text
after_separator (a ∷ b ∷ c ∷ s) = s
after_separator s = []

abbrev pub found : ℕ → Option (Text × Text) → Option (Text × Text)
found c none = none
found c (some (before, rest)) = some (c ∷ before, rest)

-- `find("://")`: what stands before the first separator and what after it.
unfoldable pub split_separator : Text → Option (Text × Text)
split_separator [] = none
split_separator (c ∷ s) =
    let more = split_separator s in
    if starts_with separator (c ∷ s) then some ([], after_separator (c ∷ s)) else found c more

abbrev pub take_while : (ℕ → Bool) → Text → Text
take_while p [] = []
take_while p (c ∷ s) = if p c then c ∷ take_while p s else []

-- The loop that moves `start` back over the bytes of a scheme.
unfoldable pub scheme_of : Text → Text
scheme_of before = reverse (take_while is_scheme_byte (reverse before))

unfoldable pub before_scheme : Text → Text
before_scheme before = trim_end_matches is_scheme_byte before

unfoldable pub is_scheme : Text → Bool
is_scheme [] = false
is_scheme (c ∷ s) = is_alphabetic c && all is_scheme_byte (c ∷ s)

-- `while end < message.len()`
unfoldable pub after_url : Text → Text
after_url s = trim_start_matches (λ c. not (ends_url c)) s

-- One round at a separator; `more` redacts the rest.
unfoldable pub redact_at : (Text → Text) → Text → Text → Text
redact_at more before rest =
    if is_scheme (scheme_of before)
    then before_scheme before
      ++ (scheme_of before ++ (text "://[redacted]" ++ more (after_url rest)))
    else before ++ (separator ++ more rest)

unfoldable pub redact_found : (Text → Text) → Text → Option (Text × Text) → Text
unfolding redact_at
redact_found more message none = message
redact_found more message (some (before, rest)) = redact_at more before rest

-- The rounds that are left; each takes at least the separator.
unfoldable pub redact_from : ℕ → Text → Text
unfolding redact_found
redact_from zero message = message
redact_from (suc n) message = redact_found (redact_from n) message (split_separator message)

unfoldable pub redact_urls : Text → Text
unfolding redact_from
redact_urls message = redact_from (length message) message

pub trim-length : (p : ℕ → Bool) (s : Text) → length (trim_start_matches p s) ≤ length s
unfolding trim_start_matches
trim-length p [] = omega arith
trim-length p (c ∷ s) = ground (arith, trim-length p s)

after_separator-length : (c : ℕ) (s : Text) → length (after_separator (c ∷ s)) < length (c ∷ s)
after_separator-length c [] = omega arith
after_separator-length c (a ∷ []) = omega arith
after_separator-length c (a ∷ b ∷ s) = omega arith

found-length :
    (c : ℕ) (o : Option (Text × Text)) (k : ℕ) (before rest : Text)
    → ((b r : Text) → o ≡ some (b, r) → length r < k)
    → found c o ≡ some (before, rest)
    → length rest < suc k
found-length c none k before rest h e = absurd (ground arith)
found-length c (some (b, r)) k before rest h e =
    let i : r ≡ rest = ground arith in let l = h b r refl in rw (← i) (omega arith)

pub split_separator-length :
    (s before rest : Text) → split_separator s ≡ some (before, rest) → length rest < length s
unfolding split_separator
split_separator-length [] before rest h = absurd (ground arith)
split_separator-length (c ∷ s) before rest h = elim (Bool-cases (starts_with separator (c ∷ s))) [
  | inl e ↦
      let i : after_separator (c ∷ s) ≡ rest = ground arith in rw (← i) (after_separator-length c s)
  | inr e ↦
      found-length c (split_separator s) (length s) before rest (split_separator-length s)
        (rw e at h)
]
