-- ===== src/Error/Redact/Hides.antt =====
-- What `redact_urls` of error.rs leaves of a message: its rounds are enough, and no URL shows.
use crypto_payment_detector.Base.{
  ℕ, zero, suc, ◌≤◌, ◌≡◌, refl, sym, ◌∙◌, ap, Bool, true, false, not, Option, none, some, [], ◌∷◌,
  ◌++◌, length, all, arith, Bool-cases, inl, inr,
}
use mathlib.Core.List.{reverse, reverse-append, reverse-reverse, append_assoc}
use crypto_payment_detector.Base.Text.{
  Text, text, starts_with, contains, trim_start_matches, trim_end_matches,
}
use crypto_payment_detector.Error.Redact.{
  separator, ends_url, is_scheme_byte, split_separator, take_while, scheme_of, before_scheme,
  is_scheme, after_url, redact_at, redact_found, redact_from, redact_urls, trim-length,
  split_separator-length,
}

redact_at-same :
    (more more' : Text → Text) (before rest : Text)
    → ((t : Text) → length t ≤ length rest → more t ≡ more' t)
    → redact_at more before rest ≡ redact_at more' before rest
unfolding redact_at after_url
redact_at-same more more' before rest h =
    rw (h rest (omega arith), h (after_url rest) (trim-length _ rest)) refl

redact_found-same :
    (more more' : Text → Text) (s : Text) (o : Option (Text × Text))
    → ((b r : Text) → o ≡ some (b, r) → (t : Text) → length t ≤ length r → more t ≡ more' t)
    → redact_found more s o ≡ redact_found more' s o
unfolding redact_found
redact_found-same more more' s none h = refl
redact_found-same more more' s (some (b, r)) h = redact_at-same more more' b r (h b r refl)

redact_from-enough :
    (n m : ℕ) (s : Text) → length s ≤ n → length s ≤ m → redact_from n s ≡ redact_from m s
unfolding redact_from split_separator redact_found
redact_from-enough zero zero s h k = refl
redact_from-enough zero (suc m) [] h k = refl
redact_from-enough zero (suc m) (c ∷ s) h k = absurd (omega arith)
redact_from-enough (suc n) zero [] h k = refl
redact_from-enough (suc n) zero (c ∷ s) h k = absurd (omega arith)
redact_from-enough (suc n) (suc m) s h k =
    redact_found-same (redact_from n) (redact_from m) s (split_separator s) (λ b r e t l.
      let shorter = split_separator-length s b r e in
      redact_from-enough n m t (omega arith) (omega arith))

-- The loop without its bound.
redact_urls-step : (s : Text) → redact_urls s ≡ redact_found redact_urls s (split_separator s)
unfolding redact_urls
redact_urls-step s =
    redact_from-enough (length s) (suc (length s)) s (omega arith) (omega arith)
    ∙ redact_found-same (redact_from (length s)) redact_urls s (split_separator s) (λ b r e t l.
      let shorter = split_separator-length s b r e in
      redact_from-enough (length s) (length t) t (omega arith) (omega arith))

split_separator-append :
    (before rest : Text)
    → contains separator (before ++ (58 ∷ 47 ∷ [])) ≡ false
    → split_separator (before ++ (58 ∷ 47 ∷ 47 ∷ rest)) ≡ some (before, rest)
unfolding split_separator contains starts_with
split_separator-append [] rest h = refl
split_separator-append (a ∷ []) rest h = ground arith
split_separator-append (a ∷ b ∷ []) rest h =
    let i = split_separator-append (b ∷ []) rest (ground arith) in rw i (ground arith)
split_separator-append (a ∷ b ∷ c ∷ s) rest h =
    let i = split_separator-append (b ∷ c ∷ s) rest (ground arith) in rw i (ground arith)

after_url-append :
    (url rest : Text)
    → all (λ c. not (ends_url c)) url ≡ true
    → after_url (url ++ rest) ≡ after_url rest
unfolding after_url trim_start_matches
after_url-append [] rest h = refl
after_url-append (c ∷ url) rest h = ground (arith, after_url-append url rest)

take_while-trim : (p : ℕ → Bool) (s : Text) → take_while p s ++ trim_start_matches p s ≡ s
unfolding trim_start_matches
take_while-trim p [] = refl
take_while-trim p (c ∷ s) = elim (Bool-cases (p c)) [
  | inl e ↦ rw e (ap (λ (t : Text). c ∷ t) (take_while-trim p s))
  | inr e ↦ rw e refl
]

before_scheme-scheme_of : (before : Text) → before_scheme before ++ scheme_of before ≡ before
unfolding before_scheme scheme_of trim_end_matches
before_scheme-scheme_of before =
    sym (
      reverse-append (take_while is_scheme_byte (reverse before))
        (trim_start_matches is_scheme_byte (reverse before)))
    ∙ ap reverse (take_while-trim is_scheme_byte (reverse before))
    ∙ reverse-reverse before

-- A message whose first separator follows a scheme: what stands before the separator stays, and
-- the text up to the next delimiter, whatever it is, is replaced by a fixed mark; the rest is
-- redacted in the same way.
pub redact_urls-hides :
    (before url rest : Text)
    → contains separator (before ++ (58 ∷ 47 ∷ [])) ≡ false
    → is_scheme (scheme_of before) ≡ true
    → all (λ c. not (ends_url c)) url ≡ true
    → redact_urls (before ++ (separator ++ (url ++ rest)))
      ≡ before ++ (text "://[redacted]" ++ redact_urls (after_url rest))
unfolding redact_found redact_at
redact_urls-hides before url rest first valid h =
    redact_urls-step (before ++ (separator ++ (url ++ rest)))
    ∙ rw (split_separator-append before (url ++ rest) first, valid, after_url-append url rest h)
        (sym (append_assoc (before_scheme before) (scheme_of before) _))
    ∙ ap (λ (t : Text). t ++ (text "://[redacted]" ++ redact_urls (after_url rest)))
        (before_scheme-scheme_of before)
