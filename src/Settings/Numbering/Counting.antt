-- ===== src/Settings/Numbering/Counting.antt =====
-- The counters: what is issued, in which order, and that no two numbers of a scope are the same.
use mathlib.Core.List.{append_cancel_right, append_cancel_left}
use text.Mathlib.Text.{◌==◌ as str_eq}
use text.Mathlib.TextEquality.{eq_iff}
use emis.Base.{
  ℕ, suc, ◌+◌, ◌≡◌, ◌≢◌, ◌↔◌, ◌⊎◌, pure, >>=-eq-ok, refl, sym, subst, ◌∙◌, ap, String, true, ◌&&◌,
  Option, List, [], ◌∷◌, ◌++◌, Result, ok, err, arith, if◌then◌else◌,
}
use emis.Settings.Numbering.{
  Text, text_eq, Piece, sequence, NumberContext, piece_text, fill, format_number, seq_width,
  decimal, pad_start, Counter, is_counter, upsert, next, next_value, next_in_context,
  NumberSettings, DateParts, IssuedNumber, number_scope, number_context_at, branch_code_for, join,
  from_result,
}
use emis.Settings.Numbering.Decimal.{value_from, value_from-pad_start}

pub text_eq_iff : (s t : Text) → (text_eq s t ≡ true) ↔ (s ≡ t)
text_eq_iff [] [] = (λ h. refl, λ h. refl)
text_eq_iff [] (b ∷ t) = (λ h. cc, λ h. cc)
text_eq_iff (a ∷ s) [] = (λ h. cc, λ h. cc)
text_eq_iff (a ∷ s) (b ∷ t) =
    let (to, from) = text_eq_iff s t in (λ h. ground arith, λ h. ground arith)

-- The last number issued in a scope of a series, 0 before the first.
unfoldable pub last_value : String → Text → List Counter → ℕ
last_value key scope [] = 0
last_value key scope (c ∷ counters) =
    if is_counter key scope c then c.last_value else last_value key scope counters

upsert-value :
    (key : String) (scope : Text) (counters : List Counter)
    → (upsert key scope counters).0 ≡ last_value key scope counters + 1
unfolding upsert last_value
upsert-value key scope [] = refl
upsert-value key scope (c ∷ counters) = ground (arith, upsert-value key scope counters)

last_value-upsert :
    (key key' : String) (scope scope' : Text) (counters : List Counter)
    → last_value key' scope' (upsert key scope counters).1 ≡ (
        if str_eq key key' && text_eq scope scope'
        then last_value key scope counters + 1
        else last_value key' scope' counters)
unfolding upsert last_value
last_value-upsert key key' scope scope' [] = ground arith
last_value-upsert key key' scope scope' (c ∷ counters) = ground (
  arith,
  last_value-upsert key key' scope scope' counters,
  eq_iff key key',
  eq_iff c.series_key key,
  eq_iff c.series_key key',
  text_eq_iff scope scope',
  text_eq_iff c.scope scope,
  text_eq_iff c.scope scope',
)

pub from_result-ok :
    {S A : Type 0} (r : Result A) (s : S) {a : A} {s' : S}
    → from_result r s ≡ ok (a, s')
    → (r ≡ ok a) × (s' ≡ s)
from_result-ok (ok a) s h = ground arith
from_result-ok (err e) s h = cc

-- What an issue did: the counter for the series and for the scope that the pattern gives that day
-- moved on by one, the number is that value in the pattern, and every other counter is as it was.
pub record IsIssue (inst : NumberSettings) (today : DateParts) (key : String) (branch_id : Option ℕ)
    (counters counters' : List Counter) (issued : IssuedNumber) : Type 0 where
  pub code : Option Text
  pub scope : Text
  pub coded : branch_code_for inst (inst.pattern_of key) branch_id ≡ ok code
  pub scoped : number_scope (inst.pattern_of key) (number_context_at today inst code) ≡ ok scope
  pub counted : issued.sequence ≡ last_value key scope counters + 1
  pub printed :
      format_number (inst.pattern_of key) (number_context_at today inst code) issued.sequence
      ≡ ok issued.number
  pub moved : last_value key scope counters' ≡ issued.sequence
  pub kept :
      (key' : String) (scope' : Text)
      → (key ≢ key') ⊎ (scope ≢ scope')
      → last_value key' scope' counters' ≡ last_value key' scope' counters

upsert-kept :
    (key key' : String) (scope scope' : Text) (counters : List Counter)
    → (key ≢ key') ⊎ (scope ≢ scope')
    → last_value key' scope' (upsert key scope counters).1 ≡ last_value key' scope' counters
upsert-kept key key' scope scope' counters h = ground (
  arith,
  last_value-upsert key key' scope scope' counters,
  eq_iff key key',
  text_eq_iff scope scope',
)

upsert-moved :
    (key : String) (scope : Text) (counters : List Counter)
    → last_value key scope (upsert key scope counters).1 ≡ (upsert key scope counters).0
upsert-moved key scope counters = ground (
  arith,
  last_value-upsert key key scope scope counters,
  upsert-value key scope counters,
  eq_iff key key,
  text_eq_iff scope scope,
)

-- A successful issue of the next number is such an issue: no number is skipped in its scope.
pub next-IsIssue :
    (inst : NumberSettings) (today : DateParts) (key : String) (branch_id : Option ℕ)
    (counters counters' : List Counter) (issued : IssuedNumber)
    → next inst today key branch_id counters ≡ ok (issued, counters')
    → IsIssue inst today key branch_id counters counters' issued
unfolding next next_in_context next_value
next-IsIssue inst today key branch_id counters counters' issued h =
    let pattern = inst.pattern_of key in
    let (code, s1, got_code, h1) =
      >>=-eq-ok (from_result (branch_code_for inst pattern branch_id))
        (λ code. next_in_context key pattern (number_context_at today inst code)) counters h in
    let (coded, same1) =
      from_result-ok (branch_code_for inst pattern branch_id) counters got_code in
    let ctx = number_context_at today inst code in
    let (scope, s2, got_scope, h2) =
      >>=-eq-ok (from_result (number_scope pattern ctx)) (next_value key pattern ctx) s1 h1 in
    let (scoped, same2) = from_result-ok (number_scope pattern ctx) s1 got_scope in
    let (value, s3) = upsert key scope s2 in
    let (number, s4, got_number, h4) =
      >>=-eq-ok (from_result (format_number pattern ctx value))
        (λ number. pure (record { number = number; sequence = value })) s3 h2 in
    let (printed, same4) = from_result-ok (format_number pattern ctx value) s3 got_number in
    let up : upsert key scope counters ≡ (value, counters') = ground arith in
    let is_number : issued.number ≡ number = ground arith in
    let is_value : issued.sequence ≡ value = ground arith in
    record {
      code = code;
      scope = scope;
      coded = coded;
      scoped = scoped;
      counted =
          is_value
          ∙ (ap (λ (r : ℕ × List Counter). r.0) (sym up) ∙ upsert-value key scope counters);
      printed = ap (format_number pattern ctx) is_value ∙ (printed ∙ ap ok (sym is_number));
      moved =
          subst (λ (r : ℕ × List Counter). last_value key scope r.1 ≡ r.0) up
            (upsert-moved key scope counters)
          ∙ sym is_value;
      kept = λ key' scope' d.
          subst
            (λ (r : ℕ × List Counter). last_value key' scope' r.1 ≡ last_value key' scope' counters)
            up (upsert-kept key key' scope scope' counters d);
    }

-- How many {SEQ:n} a pattern has.
abbrev pub sequences : List Piece → ℕ
sequences [] = 0
sequences (sequence width ∷ pattern) = suc (sequences pattern)
sequences (_ ∷ pattern) = sequences pattern

join-ok :
    (a b : Result Text) {t : Text}
    → join a b ≡ ok t
    → (x y : Text) × (a ≡ ok x) × (b ≡ ok y) × (t ≡ x ++ y)
join-ok (ok x) (ok y) h = (x, y, refl, refl, ground arith)
join-ok (ok x) (err e) h = cc
join-ok (err e) b h = cc

-- With no {SEQ:n} the sequence does not matter.
fill-constant :
    (pattern : List Piece) (ctx : NumberContext) (s t : Text)
    → sequences pattern ≡ 0
    → fill pattern ctx s ≡ fill pattern ctx t
unfolding fill
fill-constant [] ctx s t h = refl
fill-constant (sequence width ∷ pattern) ctx s t h = absurd (omega arith)
fill-constant (p ∷ pattern) ctx s t h = cc (fill-constant pattern ctx s t h)

fill-injective :
    (pattern : List Piece) (ctx : NumberContext) (s t : Text) {x : Text}
    → sequences pattern ≡ 1
    → fill pattern ctx s ≡ ok x
    → fill pattern ctx t ≡ ok x
    → s ≡ t
unfolding fill
fill-injective [] ctx s t h p q = absurd (omega arith)
fill-injective (sequence width ∷ pattern) ctx s t h p q =
    let (a, b, ea, eb, e) = join-ok (ok s) (fill pattern ctx s) p in
    let (a', b', ea', eb', e') = join-ok (ok t) (fill pattern ctx t) q in
    let rest = fill-constant pattern ctx s t (omega arith) in
    let same : b ≡ b' = cc in append_cancel_right s t b (cc)
fill-injective (piece ∷ pattern) ctx s t h p q =
    let (a, b, ea, eb, e) = join-ok (piece_text ctx s piece) (fill pattern ctx s) p in
    let (a', b', ea', eb', e') = join-ok (piece_text ctx t piece) (fill pattern ctx t) q in
    let same_text : a ≡ a' = cc in
    let same : b ≡ b' = append_cancel_left a b b' (cc) in
    fill-injective pattern ctx s t {x = b} h eb (cc)

-- In a pattern with one {SEQ:n}, two sequence values with the same number are the same value.
pub format_number-injective :
    (pattern : List Piece) (ctx : NumberContext) (m n : ℕ) (number : Text)
    → sequences pattern ≡ 1
    → format_number pattern ctx m ≡ ok number
    → format_number pattern ctx n ≡ ok number
    → m ≡ n
unfolding format_number
format_number-injective pattern ctx m n number one p q =
    let w = seq_width pattern in
    let texts =
      fill-injective pattern ctx (pad_start w (decimal m)) (pad_start w (decimal n)) one p q in
    sym (value_from-pad_start w m) ∙ (ap (value_from 0) texts ∙ value_from-pad_start w n)
