-- ===== src/Billing/Approvals/Requests.antt =====
-- Which requests stand beside each other.
use emis.Base.{
  ℕ, ◌≡◌, refl, sym, subst, String, Bool, true, false, Option, none, List, [], ◌∷◌, ◌++◌, ok, arith,
  any, any-append, throw_if-ok, update_where, Bool-cases, inl, inr, request_pending,
}
use emis.Versioning.{matches}
use emis.Billing.Tables.{ApprovalRow, ApprovalPayload, pending, Books, record_audit}
use emis.Billing.Invoices.{Actor}
use emis.Billing.Approvals.{
  is_pending, is_open_for, same_type, Decision, approve, reject, decided_status, approvals_table,
  decide_row, create_request, decide,
}
use emis.Billing.Ledger.{IsSound}
use emis.Billing.Approvals.Deciding.{bumped, decide-IsDecided}

-- Of two requests of one type for one subject, one at most is open.
abbrev pub HasOnePending : List ApprovalRow → Type 0
HasOnePending [] = Unit
HasOnePending (r ∷ rows) =
    (is_pending r.status ≡ true → any (is_open_for r.payload r.subject_id) rows ≡ false)
    × HasOnePending rows

same_type-sym : (p q : ApprovalPayload) → same_type p q ≡ same_type q p
same_type-sym (ApprovalPayload.discount a b c) (ApprovalPayload.discount d e f) = refl
same_type-sym (ApprovalPayload.discount a b c) ApprovalPayload.payment_void = refl
same_type-sym ApprovalPayload.payment_void (ApprovalPayload.discount d e f) = refl
same_type-sym ApprovalPayload.payment_void ApprovalPayload.payment_void = refl

HasOnePending-append :
    (rows : List ApprovalRow) (new : ApprovalRow)
    → HasOnePending rows
    → any (is_open_for new.payload new.subject_id) rows ≡ false
    → HasOnePending (rows ++ new ∷ [])
HasOnePending-append [] new h free = ((λ p. refl), tt)
HasOnePending-append (r ∷ rows) new h free = (
  (λ p.
      let old = h.0 p in
      let e = any-append (is_open_for r.payload r.subject_id) rows (new ∷ []) in
      let t = same_type-sym r.payload new.payload in ground arith),
  HasOnePending-append rows new h.1 (ground arith),
)

-- A new request never stands beside an open one of its type for its subject: where requests had that
-- property, they have it after `create`.
create_request-HasOnePending :
    (new_id : ℕ) (payload : ApprovalPayload) (subject_id : ℕ) (reason : String) (actor : Actor)
    (s s' : Books)
    → HasOnePending s.approvals
    → create_request new_id payload subject_id reason actor s ≡ ok (tt, s')
    → HasOnePending s'.approvals
unfolding create_request record_audit
create_request-HasOnePending new_id payload subject_id reason actor s s' one h =
    let new : ApprovalRow = record {
      id = new_id;
      payload = payload;
      status = pending;
      subject_id = subject_id;
      reason = reason;
      requested_by = actor.user_id;
      decided_by = none;
      decision_note = none;
      decided_at = none;
      updated_by = actor.user_id;
      version = 1;
    } in
    let store = λ (t : Books).
      record_audit "approval.requested" "approval" new_id
        (record t { approvals = t.approvals ++ new ∷ [] }) in
    let (free, h1) =
      throw_if-ok (any (is_open_for payload subject_id) s.approvals) request_pending store s h in
    let stored : s'.approvals ≡ s.approvals ++ new ∷ [] = ground arith in
    subst HasOnePending (sym stored) (HasOnePending-append s.approvals new one free)

-- A change that leaves requests closed opens none.
module _ (q : ApprovalRow → Bool) (f : ApprovalRow → ApprovalRow)
    (closes : (r : ApprovalRow) → is_pending (f r).status ≡ false) where
  any-closing :
      (payload : ApprovalPayload) (subject_id : ℕ) (rows : List ApprovalRow)
      → any (is_open_for payload subject_id) rows ≡ false
      → any (is_open_for payload subject_id) (update_where q f rows) ≡ false
  any-closing payload subject_id [] h = refl
  any-closing payload subject_id (r ∷ rows) h =
      ground (arith, any-closing payload subject_id rows, closes r)

  HasOnePending-closing :
      (rows : List ApprovalRow) → HasOnePending rows → HasOnePending (update_where q f rows)
  HasOnePending-closing [] h = tt
  HasOnePending-closing (r ∷ rows) h = elim (Bool-cases (q r)) [
    | inl t ↦
        rw t ((λ p. let closed = closes r in absurd (ground arith)), HasOnePending-closing rows h.1)
    | inr t ↦
        rw t
          ((λ p. any-closing r.payload r.subject_id rows (h.0 p)), HasOnePending-closing rows h.1)
  ]

decided_status-closed : (decision : Decision) → is_pending (decided_status decision) ≡ false
decided_status-closed approve = refl
decided_status-closed reject = refl

-- A decision on sound books opens no request beside another.
decide-HasOnePending :
    (now id : ℕ) (decision : Decision) (remark : Option String) (actor : Actor) (s s' : Books)
    → IsSound s
    → HasOnePending s.approvals
    → decide now id decision remark actor s ≡ ok (tt, s')
    → HasOnePending s'.approvals
decide-HasOnePending now id decision remark actor s s' sound one h =
    let w = decide-IsDecided now id decision remark actor s s' sound h in
    subst HasOnePending (sym w.approvals) (
      HasOnePending-closing (matches approvals_table w.request.id w.request.version)
        (λ r. bumped (decide_row now decision remark actor r)) (λ r. decided_status-closed decision)
        s.approvals one)

-- A request or a decision that went through.
pub data ApprovalStep : Books → Books → Type 0 where
  asks :
      {s s' : Books} (new_id : ℕ) (payload : ApprovalPayload) (subject_id : ℕ) (reason : String)
      (actor : Actor)
      → create_request new_id payload subject_id reason actor s ≡ ok (tt, s')
      → ApprovalStep s s'
  decides :
      {s s' : Books} (now id : ℕ) (decision : Decision) (remark : Option String) (actor : Actor)
      → IsSound s
      → decide now id decision remark actor s ≡ ok (tt, s')
      → ApprovalStep s s'

pub data ApprovalSteps : Books → Books → Type 0 where
  stay : {s : Books} → ApprovalSteps s s
  followed : {s t u : Books} → ApprovalStep s t → ApprovalSteps t u → ApprovalSteps s u

-- However requests are made, and decided on sound books: there is never an open one beside another of
-- its type for its subject.
pub ApprovalSteps-HasOnePending :
    (s s' : Books) → HasOnePending s.approvals → ApprovalSteps s s' → HasOnePending s'.approvals
ApprovalSteps-HasOnePending s s' one stay = one
ApprovalSteps-HasOnePending s s' one (followed {t = t} first later) =
    ApprovalSteps-HasOnePending t s' (after first) later
  where
    after : ApprovalStep s t → HasOnePending t.approvals
    after (asks new_id payload subject_id reason actor h) =
        create_request-HasOnePending new_id payload subject_id reason actor s t one h
    after (decides now id decision remark actor sound h) =
        decide-HasOnePending now id decision remark actor s t sound one h
