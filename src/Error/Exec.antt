-- ===== src/Error/Exec.antt =====
-- Actions over a state: what was written before an error stays written, as in a method on `&self`.
use native.Mathlib.Omega.{arith}
use crypto_payment_detector.Base.{◌≡◌, refl, subst, Bool, true, false, if◌then◌else◌}
use crypto_payment_detector.Error.Defs.{DetectorError, Result, ok, err}

abbrev pub Exec : Type 0 → Type 0 → Type 0
Exec S A = S → Result A × S

module _ {S A : Type 0} where
  abbrev pub pure : A → Exec S A
  pure a s = (ok a, s)

  abbrev pub raise : DetectorError → Exec S A
  raise e s = (err e, s)

  abbrev pub lift : Result A → Exec S A
  lift r s = (r, s)

  abbrev pub gets : (S → A) → Exec S A
  gets f s = (ok (f s), s)

  -- The outcome as a result, for `if let Err(e) = ..` and `match`.
  abbrev pub attempt : Exec S A → Exec S (Result A)
  attempt m s = let (r, s') = m s in (ok r, s')

abbrev pub modify : {S : Type 0} → (S → S) → Exec S (Unit {0})
modify f s = (ok tt, f s)

abbrev pub after : {S A B : Type 0} → Result A × S → (A → Exec S B) → Result B × S
after (ok a, s) f = f a s
after (err e, s) f = (err e, s)

infixl 5 ◌>>=◌ ◌>>◌
abbrev pub ◌>>=◌ : {S A B : Type 0} → Exec S A → (A → Exec S B) → Exec S B
◌>>=◌ m f s = after (m s) f

abbrev pub ◌>>◌ : {S B : Type 0} → Exec S (Unit {0}) → Exec S B → Exec S B
m >> k = m >>= λ _. k

-- Every run of the action leads from a state to a related one, errors included.
pub record Follows {S A : Type 0} (R : S → S → Type 0) (m : Exec S A) : Type 0 where
  pub at : (s : S) → R s (m s).1

module _ {S : Type 0} {R : S → S → Type 0} where
  pub after-Follows :
      {A B : Type 0}
      → ((a b c : S) → R a b → R b c → R a c)
      → (s : S) (x : Result A × S) (f : A → Exec S B) → R s x.1
      → ((a : A) → Follows R (f a))
      → R s (after x f).1
  after-Follows trans s (ok a, t) f h k = trans s t _ h ((k a).at t)
  after-Follows trans s (err e, t) f h k = h

  pub Follows-bind :
      {A B : Type 0}
      → ((a b c : S) → R a b → R b c → R a c)
      → (m : Exec S A) (f : A → Exec S B) → Follows R m
      → ((a : A) → Follows R (f a))
      → Follows R (m >>= f)
  Follows-bind trans m f h k = record { at = λ s. after-Follows trans s (m s) f (h.at s) k }

  pub Follows-if :
      {A : Type 0} (b : Bool) (m n : Exec S A)
      → Follows R m
      → Follows R n
      → Follows R (if b then m else n)
  Follows-if true m n h k = h
  Follows-if false m n h k = k

-- The rule of a bind for a property of its outcome.
pub after_lem :
    {S A B : Type 0} (x : Result A × S) (f : A → Exec S B) (Q : Result B × S → Type 0)
    → ((a : A) → x.0 ≡ ok a → Q (f a x.1))
    → ((e : DetectorError) → x.0 ≡ err e → Q (err e, x.1))
    → Q (after x f)
after_lem (ok a, s) f Q h k = h a refl
after_lem (err e, s) f Q h k = k e refl

-- The same, where the first action is known to succeed.
pub after_with :
    {S A B : Type 0} (x : Result A × S) (f : A → Exec S B) (Q : Result B × S → Type 0) (a : A)
    → x.0 ≡ ok a
    → Q (f a x.1)
    → Q (after x f)
after_with (ok b, s) f Q a h q = let e : a ≡ b = cc in subst (λ c. Q (f c s)) e q
after_with (err e, s) f Q a h q = absurd (ground arith)

-- What holds of an outcome that is not an error.
unfoldable pub OnOk : {S A : Type 0} → (A → S → Type 0) → Result A × S → Type 0
OnOk P (ok a, s) = P a s
OnOk P (err e, s) = Unit

module _ {S A : Type 0} where
  pub OnOk-bind :
      {B : Type 0} (x : Result A × S) (f : A → Exec S B) (P : A → S → Type 0) (Q : B → S → Type 0)
      → OnOk P x
      → ((a : A) (s : S) → P a s → OnOk Q (f a s))
      → OnOk Q (after x f)
  unfolding OnOk
  OnOk-bind (ok a, s) f P Q h k = k a s h
  OnOk-bind (err e, s) f P Q h k = tt

  pub OnOk-and :
      (x : Result A × S) (R : S → Type 0) (P : A → S → Type 0)
      → R x.1
      → OnOk P x
      → OnOk (λ a s. R s × P a s) x
  unfolding OnOk
  OnOk-and (ok a, s) R P r h = (r, h)
  OnOk-and (err e, s) R P r h = tt

  pub OnOk-map :
      (x : Result A × S) (P Q : A → S → Type 0)
      → OnOk P x
      → ((a : A) (s : S) → P a s → Q a s)
      → OnOk Q x
  unfolding OnOk
  OnOk-map (ok a, s) P Q h k = k a s h
  OnOk-map (err e, s) P Q h k = tt

pub OnOk-lift : {S A : Type 0} (r : Result A) (s : S) → OnOk (λ a t. r ≡ ok a) (lift r s)
unfolding OnOk
OnOk-lift (ok a) s = refl
OnOk-lift (err e) s = tt

pub OnOk-pure : {S A : Type 0} (P : A → S → Type 0) (a : A) (s : S) → P a s → OnOk P (ok a, s)
unfolding OnOk
OnOk-pure P a s h = h

pub OnOk-any : {S A : Type 0} (x : Result A × S) → OnOk (λ a s. Unit) x
unfolding OnOk
OnOk-any (ok a, s) = tt
OnOk-any (err e, s) = tt

pub OnOk-at :
    {S A : Type 0} (x : Result A × S) (P : A → S → Type 0) (a : A) → x.0 ≡ ok a → OnOk P x → P a x.1
unfolding OnOk
OnOk-at (ok b, s) P a e h = let i : b ≡ a = cc in subst (λ c. P c s) i h
OnOk-at (err x, s) P a e h = absurd (ground arith)

-- What holds of the outcomes of an action that starts where `R` holds.
pub record Yields {S A : Type 0} (R : S → Type 0) (P : A → S → Type 0) (m : Exec S A) : Type 0 where
  pub at : (s : S) → R s → OnOk P (m s)

module _ {S : Type 0} {R : S → Type 0} where
  pub Yields-bind :
      {A B : Type 0} (P : A → S → Type 0) {Q : B → S → Type 0} (m : Exec S A) (f : A → Exec S B)
      → Yields R P m
      → ((a : A) → Yields (P a) Q (f a))
      → Yields R Q (m >>= f)
  Yields-bind P {Q} m f h k = record {
    at = λ s r. OnOk-bind (m s) f P Q (h.at s r) (λ a t p. (k a).at t p);
  }

  pub Yields-any : {A : Type 0} (m : Exec S A) → Yields R (λ a s. Unit) m
  Yields-any m = record { at = λ s r. OnOk-any (m s) }

  pub Yields-if :
      {A : Type 0} {P : A → S → Type 0} (b : Bool) (m n : Exec S A)
      → (b ≡ true → Yields R P m)
      → (b ≡ false → Yields R P n)
      → Yields R P (if b then m else n)
  Yields-if true m n h k = h refl
  Yields-if false m n h k = k refl

pub lift-Yields :
    {S A : Type 0} {R : S → Type 0} (r : Result A) → Yields R (λ a s. (r ≡ ok a) × R s) (lift r)
unfolding OnOk
lift-Yields (ok a) = record { at = λ s h. (refl, h) }
lift-Yields (err e) = record { at = λ s h. tt }

pub pure-Yields :
    {S A : Type 0} {R : S → Type 0} {P : A → S → Type 0} (a : A)
    → ((s : S) → R s → P a s)
    → Yields R P (pure a)
unfolding OnOk
pure-Yields a h = record { at = h }

pub raise-Yields :
    {S A : Type 0} {R : S → Type 0} {P : A → S → Type 0} (e : DetectorError) → Yields R P (raise e)
unfolding OnOk
raise-Yields e = record { at = λ s h. tt }

-- An action that leaves the state.
pub lift-keeps : {S A : Type 0} {R : S → Type 0} (r : Result A) → Yields R (λ a. R) (lift r)
unfolding OnOk
lift-keeps (ok a) = record { at = λ s h. h }
lift-keeps (err e) = record { at = λ s h. tt }
