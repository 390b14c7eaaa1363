-- ===== src/Completion/Passing.antt =====
-- When a result passes.
use emis.Base.{ℕ, ◌≤◌, ◌≡◌, ◌↔◌, Option, none, some, arith}
use emis.Completion.{
  CompletionRules, EnrollmentResult, CompletionOutcome, passed, evaluate_completion,
}

-- A rule is met where there is none, or where the number is given and is at least the minimum.
abbrev pub IsMet : Option ℕ → Option ℕ → Type 0
IsMet none given = Unit
IsMet (some minimum) none = ⊥
IsMet (some minimum) (some n) = minimum ≤ n

-- A result passes exactly when every rule of the course is met, the minimum itself counting.
pub evaluate_completion-passed_iff :
    (rules : CompletionRules) (result : EnrollmentResult)
    → (evaluate_completion rules result ≡ passed) ↔ (
        IsMet rules.min_score result.score
        × IsMet rules.min_attendance_percent result.attendance_percent)
unfolding evaluate_completion
evaluate_completion-passed_iff rules result =
    go rules.min_score result.score rules.min_attendance_percent result.attendance_percent
  where
    outcome : Option ℕ → Option ℕ → Option ℕ → Option ℕ → CompletionOutcome
    outcome a b c d =
        evaluate_completion (record { min_attendance_percent = c; min_score = a })
          (record { score = b; attendance_percent = d })

    go : (a b c d : Option ℕ) → (outcome a b c d ≡ passed) ↔ (IsMet a b × IsMet c d)
    go none b none d = ground arith
    go none b (some m) none = ground arith
    go none b (some m) (some n) = ground arith
    go (some k) none none d = ground arith
    go (some k) none (some m) none = ground arith
    go (some k) none (some m) (some n) = ground arith
    go (some k) (some j) none d = ground arith
    go (some k) (some j) (some m) none = ground arith
    go (some k) (some j) (some m) (some n) = ground arith
