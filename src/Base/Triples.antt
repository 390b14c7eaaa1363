-- ===== src/Base/Triples.antt =====
-- What a transaction makes of a condition on the tables, step by step: a condition before, and what
-- then holds of a success.
use mathlib.Core.Path.{◌≡◌, refl, sym, ap, ◌∙◌, subst}
use mathlib.Core.Bool.{Bool, true, false}
use mathlib.Core.Option.{Option, none, some}
use emis.Base.Errors.{Failure}
use emis.Base.Transaction.{
  ok, Tx, pure, ◌>>=◌, ◌>>◌, throw_if, throw_unless, or_throw, gets, modify, >>=-eq-ok,
}

abbrev pub Triple : {S A : Type 0} → (S → Type 0) → Tx S A → (A → S → Type 0) → Type 0
Triple {S} {A} P m Q = (a : A) (s s' : S) → P s → m s ≡ ok (a, s') → Q a s'

module _ {S : Type 0} where
  pub Triple-bind :
      {A B : Type 0} (P : S → Type 0) (Q : A → S → Type 0) (R : B → S → Type 0) (m : Tx S A)
      (k : A → Tx S B)
      → Triple P m Q
      → ((a : A) → Triple (Q a) (k a) R)
      → Triple P (m >>= k) R
  Triple-bind P Q R m k first later b s s' p e =
      let (a, t, e1, e2) = >>=-eq-ok m k s e in later a b t s' (first a s t p e1) e2

  -- a step that keeps the condition, before others
  pub Triple-then :
      {B : Type 0} (P : S → Type 0) (R : B → S → Type 0) (m : Tx S (Unit {0})) (k : Tx S B)
      → Triple P m (λ _. P)
      → Triple P k R
      → Triple P (m >> k) R
  Triple-then P R m k first later = Triple-bind P (λ _. P) R m (λ _. k) first (λ _. later)

  pub Triple-throw_if :
      (P : S → Type 0) (b : Bool) (e : Failure) → Triple P (throw_if b e) (λ _ s. P s × (b ≡ false))
  Triple-throw_if P true e a s s' p h = cc
  Triple-throw_if P false e a s s' p h = let same : s ≡ s' = cc in (subst P same p, refl)

  pub Triple-throw_unless :
      (P : S → Type 0) (b : Bool) (e : Failure)
      → Triple P (throw_unless b e) (λ _ s. P s × (b ≡ true))
  Triple-throw_unless P true e a s s' p h = let same : s ≡ s' = cc in (subst P same p, refl)
  Triple-throw_unless P false e a s s' p h = cc

  pub Triple-or_throw :
      {A : Type 0} (P : S → Type 0) (f : S → Option A) (e : Failure)
      → Triple P (λ s. or_throw (f s) e s) (λ a s. P s × (f s ≡ some a))
  Triple-or_throw {A} P f e a s s' p h = go (f s) refl h
    where
      go : (o : Option A) → f s ≡ o → or_throw o e s ≡ ok (a, s') → P s' × (f s' ≡ some a)
      go none is h' = cc
      go (some x) is h' =
          let same : s ≡ s' = cc in
          let found : x ≡ a = cc in (subst P same p, ap f (sym same) ∙ is ∙ ap some found)

  pub Triple-gets :
      {A : Type 0} (P : S → Type 0) (f : S → A) → Triple P (gets f) (λ a s. P s × (f s ≡ a))
  Triple-gets P f a s s' p h =
      let same : s ≡ s' = cc in
      let value : f s ≡ a = cc in (subst P same p, ap f (sym same) ∙ value)

  pub Triple-modify :
      (P Q : S → Type 0) (f : S → S) → ((s : S) → P s → Q (f s)) → Triple P (modify f) (λ _. Q)
  Triple-modify P Q f keep a s s' p h = let same : f s ≡ s' = cc in subst Q same (keep s p)

  pub Triple-pure : {A : Type 0} (P : S → Type 0) (x : A) → Triple P (pure x) (λ _. P)
  Triple-pure P x a s s' p h = let same : s ≡ s' = cc in subst P same p

  -- less before, more after
  pub Triple-weaken :
      {A : Type 0} (P : S → Type 0) (Q R : A → S → Type 0) (m : Tx S A)
      → ((a : A) (s : S) → Q a s → R a s)
      → Triple P m Q
      → Triple P m R
  Triple-weaken P Q R m imp t a s s' p h = imp a s' (t a s s' p h)
