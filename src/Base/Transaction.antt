-- ===== src/Base/Transaction.antt =====
-- A database transaction: a step on the tables that gives a value and the new tables, or throws.
-- What throws has no tables, since the transaction is rolled back.
use mathlib.Core.Path.{◌≡◌, refl, ap}
use mathlib.Core.Bool.{Bool, true, false}
use mathlib.Core.Option.{Option, none, some}
use emis.Base.Errors.{Failure}

pub data Result (A : Type 0) : Type 0 where
  ok : A → Result A
  err : Failure → Result A

abbrev pub Tx : Type 0 → Type 0 → Type 0
Tx S A = S → Result (A × S)

infixl 5 ◌>>=◌ ◌>>◌
abbrev pub ◌>>=◌ : {S A B : Type 0} → Tx S A → (A → Tx S B) → Tx S B
◌>>=◌ m f s = elim (m s) [ ok (a, s') ↦ f a s' | err e ↦ err e ]

abbrev pub ◌>>◌ : {S B : Type 0} → Tx S (Unit {0}) → Tx S B → Tx S B
m >> k = m >>= λ _. k

module _ {S : Type 0} where
  abbrev pub pure : {A : Type 0} → A → Tx S A
  pure a s = ok (a, s)

  abbrev pub throw : {A : Type 0} → Failure → Tx S A
  throw e s = err e

  abbrev pub gets : {A : Type 0} → (S → A) → Tx S A
  gets f s = ok (f s, s)

  abbrev pub modify : (S → S) → Tx S (Unit {0})
  modify f s = ok (tt, f s)

  abbrev pub throw_if : Bool → Failure → Tx S (Unit {0})
  throw_if true e s = err e
  throw_if false e s = ok (tt, s)

  abbrev pub throw_unless : Bool → Failure → Tx S (Unit {0})
  throw_unless true e s = ok (tt, s)
  throw_unless false e s = err e

  abbrev pub or_throw : {A : Type 0} → Option A → Failure → Tx S A
  or_throw none e s = err e
  or_throw (some a) e s = ok (a, s)

  -- A step on one table, as a step on all.
  abbrev pub on_part : {X : Type 0} → (S → X) → (X → S → S) → (X → Result X) → Tx S (Unit {0})
  on_part get set f s = elim (f (get s)) [ ok x ↦ ok (tt, set x s) | err e ↦ err e ]

  -- What a successful first step shows, with what the rest then did.
  pub on_part-ok :
      {X B : Type 0} (get : S → X) (set : X → S → S) (f : X → Result X) (k : Tx S B) (s : S)
      {r : B × S}
      → (on_part get set f >> k) s ≡ ok r
      → (x : X) × (f (get s) ≡ ok x) × (k (set x s) ≡ ok r)
  on_part-ok {X} {B} get set f k s {r} h = go (f (get s)) refl h
    where
      step : Result X → Result (Unit {0} × S)
      step x = elim x [ ok x ↦ ok (tt, set x s) | err e ↦ err e ]

      go :
          (x : Result X)
          → f (get s) ≡ x
          → (elim (step x) [ ok (_, s') ↦ k s' | err e ↦ err e ]) ≡ ok r
          → (x : X) × (f (get s) ≡ ok x) × (k (set x s) ≡ ok r)
      go (ok x) e h' = (x, e, h')
      go (err x) e h' = cc

  pub throw_if-ok :
      {B : Type 0} (b : Bool) (e : Failure) (k : Tx S B) (s : S) {r : B × S}
      → (throw_if b e >> k) s ≡ ok r
      → (b ≡ false) × (k s ≡ ok r)
  throw_if-ok true e k s h = cc
  throw_if-ok false e k s h = (refl, h)

  pub throw_unless-ok :
      {B : Type 0} (b : Bool) (e : Failure) (k : Tx S B) (s : S) {r : B × S}
      → (throw_unless b e >> k) s ≡ ok r
      → (b ≡ true) × (k s ≡ ok r)
  throw_unless-ok true e k s h = (refl, h)
  throw_unless-ok false e k s h = cc

  pub or_throw-ok :
      {A B : Type 0} (o : Option A) (e : Failure) (k : A → Tx S B) (s : S) {r : B × S}
      → (or_throw o e >>= k) s ≡ ok r
      → (a : A) × (o ≡ some a) × (k a s ≡ ok r)
  or_throw-ok (some a) e k s h = (a, refl, h)
  or_throw-ok none e k s h = cc

  -- A first step that is known to go through, or to throw.
  pub or_throw-some :
      {A B : Type 0} {o : Option A} {a : A} (e : Failure) (f : A → Tx S B) (s : S)
      → o ≡ some a
      → (or_throw o e >>= f) s ≡ f a s
  or_throw-some e f s h = ap (λ o. (or_throw o e >>= f) s) h

  pub throw_unless-false :
      {B : Type 0} {b : Bool} (e : Failure) (k : Tx S B) (s : S)
      → b ≡ false
      → (throw_unless b e >> k) s ≡ err e
  throw_unless-false e k s h = ap (λ b. (throw_unless b e >> k) s) h

  pub throw_unless-true :
      {B : Type 0} {b : Bool} (e : Failure) (k : Tx S B) (s : S)
      → b ≡ true
      → (throw_unless b e >> k) s ≡ k s
  throw_unless-true e k s h = ap (λ b. (throw_unless b e >> k) s) h

  pub throw_if-true :
      {B : Type 0} {b : Bool} (e : Failure) (k : Tx S B) (s : S)
      → b ≡ true
      → (throw_if b e >> k) s ≡ err e
  throw_if-true e k s h = ap (λ b. (throw_if b e >> k) s) h

  pub throw_if-false :
      {B : Type 0} {b : Bool} (e : Failure) (k : Tx S B) (s : S)
      → b ≡ false
      → (throw_if b e >> k) s ≡ k s
  throw_if-false e k s h = ap (λ b. (throw_if b e >> k) s) h

-- Inversion of a successful bind.
pub >>=-eq-ok :
    {S A B : Type 0} (m : Tx S A) (f : A → Tx S B) (s : S) {r : B × S}
    → (m >>= f) s ≡ ok r
    → (a : A) × (s' : S) × (m s ≡ ok (a, s')) × (f a s' ≡ ok r)
>>=-eq-ok {S} {A} m f s {r} h = go (m s) refl h
  where
    go :
        (x : Result (A × S))
        → m s ≡ x
        → (elim x [ ok (a, s') ↦ f a s' | err e ↦ err e ]) ≡ ok r
        → (a : A) × (s' : S) × (m s ≡ ok (a, s')) × (f a s' ≡ ok r)
    go (ok (a, s')) e h' = (a, s', e, h')
    go (err e') e h' = cc

-- A bind whose first step goes through is the rest from there.
pub >>-ok :
    {S B : Type 0} (m : Tx S (Unit {0})) (k : Tx S B) (s s' : S)
    → m s ≡ ok (tt, s')
    → (m >> k) s ≡ k s'
>>-ok {S} {B} m k s s' h =
    ap
      (λ (x : Result (Unit {0} × S)). elim x as (λ _. Result (B × S)) [
        | ok (_, t) ↦ k t
        | err e ↦ err e
      ])
      h
