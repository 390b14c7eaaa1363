-- ===== src/Billing/Approvals/Deciding.antt =====
-- What `decide` comes to: two persons, one decision, and the change of money that it stands for.
use emis.Base.{
  ℕ, ◌+◌, ◌≡◌, ◌≢◌, sym, subst, ap, ◌∙◌, String, Bool, true, false, Option, some, List, Result, ok,
  err, ◌>>◌, >>=-eq-ok, throw_if, throw_unless, throw_if-ok, throw_unless-ok, or_throw-ok, arith,
  find_row, find_row-holds, find_row-update_narrow, update_where, ==_iff, ◌==◌, if◌then◌else◌, inl,
  inr, approval_not_found, approval_decided, self_approval, check_violation,
}
use emis.Versioning.{matches, update_versioned, update_versioned_cases}
use emis.Billing.Tables.{ApprovalRow, Books, record_audit}
use emis.Billing.Invoices.{Actor}
use emis.Billing.Approvals.{
  is_pending, is_approval, approval_checks, Decision, is_approve, approvals_table, decide_row,
  carry_out, close_request, decide,
}
use emis.Billing.Approvals.Carrying.{IsCarried, IsCarried-rest, carry_out-IsSound}
use emis.Billing.Ledger.{IsSound}
use emis.Billing.Ledger.Payment.{IsSound-rest}
use emis.Billing.Ledger.Money.{record_audit-books}

abbrev pub bumped : ApprovalRow → ApprovalRow
bumped r = record r { version = r.version + 1 }

close_request-ok :
    (now : ℕ) (request : ApprovalRow) (decision : Decision) (remark : Option String) (actor : Actor)
    (s s' : Books)
    → find_row (is_approval request.id) s.approvals ≡ some request
    → close_request now request decision remark actor s ≡ ok (tt, s')
    → s' ≡ record s {
      approvals =
          update_where
            (matches approvals_table request.id request.version)
            (λ r. bumped (decide_row now decision remark actor r))
            s.approvals;
    }
unfolding close_request
close_request-ok now request decision remark actor s s' found h =
    let values = decide_row now decision remark actor in
    let table = approvals_table in
    elim (update_versioned_cases table request.id request.version values approval_not_found
      s.approvals) [
        | inl (before, is_before, done) ↦
            go
              (update_versioned table request.id request.version values approval_not_found
                s.approvals)
              _ _ done h
        | inr (inl (other, is_other, differs, failed)) ↦ absurd (
            differs (
              let same : other ≡ request = ground arith in
              ap (λ (r : ApprovalRow). r.version) same))
        | inr (inr (gap, failed)) ↦ absurd (ground arith)
      ]
  where
    after : List ApprovalRow → Books
    after rows = record s { approvals = rows }

    answer : Result (ApprovalRow × List ApprovalRow) → Result (Unit {0} × Books)
    answer x = elim x [
      | ok (row, rows) ↦ if approval_checks row then ok (tt, after rows) else err check_violation
      | err e ↦ err e
    ]

    stored : Bool → List ApprovalRow → Result (Unit {0} × Books)
    stored b rows = if b then ok (tt, after rows) else err check_violation

    checked : (b : Bool) (rows : List ApprovalRow) → stored b rows ≡ ok (tt, s') → s' ≡ after rows
    checked true rows h' = ground arith
    checked false rows h' = absurd (ground arith)

    go :
        (x : Result (ApprovalRow × List ApprovalRow)) (row : ApprovalRow) (rows : List ApprovalRow)
        → x ≡ ok (row, rows)
        → answer x ≡ ok (tt, s')
        → s' ≡ after rows
    go (ok (row', rows')) row rows e h' =
        let same : rows' ≡ rows = ground arith in
        checked (approval_checks row') rows' h' ∙ ap after same
    go (err x) row rows e h' = absurd (ground arith)

abbrev pub decided_rows :
    ℕ → Decision → Option String → Actor → ApprovalRow → List ApprovalRow → List ApprovalRow
decided_rows now decision remark actor request =
    update_where (matches approvals_table request.id request.version)
      (λ r. bumped (decide_row now decision remark actor r))

-- What a successful decision did.
pub record IsDecided (now id : ℕ) (decision : Decision) (remark : Option String) (actor : Actor)
    (s s' : Books) : Type 0 where
  pub request : ApprovalRow
  pub found : find_row (is_approval id) s.approvals ≡ some request
  pub pending : is_pending request.status ≡ true
  pub other_one : (request.requested_by == actor.user_id) ≡ false
  pub sound : IsSound s'
  pub carried : IsCarried decision request s s'
  pub approvals : s'.approvals ≡ decided_rows now decision remark actor request s.approvals

pub decide-IsDecided :
    (now id : ℕ) (decision : Decision) (remark : Option String) (actor : Actor) (s s' : Books)
    → IsSound s
    → decide now id decision remark actor s ≡ ok (tt, s')
    → IsDecided now id decision remark actor s s'
unfolding decide
decide-IsDecided now id decision remark actor s s' sound h =
    let log =
      record_audit (if is_approve decision then "approval.approved" else "approval.rejected")
        "approval" id in
    let close = λ (request : ApprovalRow). close_request now request decision remark actor >> log in
    let act = λ (request : ApprovalRow). carry_out now request decision actor >> close request in
    let other = λ (request : ApprovalRow).
      throw_if (request.requested_by == actor.user_id) self_approval >> act request in
    let check = λ (request : ApprovalRow).
      throw_unless (is_pending request.status) approval_decided >> other request in
    let (request, found, h1) =
      or_throw-ok (find_row (is_approval id) s.approvals) approval_not_found check s h in
    let (pending, h2) =
      throw_unless-ok (is_pending request.status) approval_decided (other request) s h1 in
    let (other_one, h3) =
      throw_if-ok (request.requested_by == actor.user_id) self_approval (act request) s h2 in
    let (u1, s1, h4, h5) =
      >>=-eq-ok (carry_out now request decision actor) (λ _. close request) s h3 in
    let (u2, s2, h6, h7) =
      >>=-eq-ok (close_request now request decision remark actor) (λ _. log) s1 h5 in
    let (sound1, same, carried1) = carry_out-IsSound now request decision actor s s1 sound h4 in
    let same_id : request.id ≡ id =
      (==_iff request.id id).0 (find_row-holds (is_approval id) s.approvals found) in
    let found_own : find_row (is_approval request.id) s1.approvals ≡ some request =
      subst (λ (j : ℕ). find_row (is_approval j) s1.approvals ≡ some request) (sym same_id)
        (ap (find_row (is_approval id)) same ∙ found) in
    let closed = close_request-ok now request decision remark actor s1 s2 found_own h6 in
    let e = record_audit-books _ "approval" id s2 s' h7 in
    let written = decided_rows now decision remark actor request s1.approvals in
    record {
      request = request;
      found = found;
      pending = pending;
      other_one = other_one;
      sound = IsSound-rest s1 s' sound1 cc;
      carried = IsCarried-rest decision request s s1 s' carried1 (cc) (cc) (cc);
      approvals =
          let step : s'.approvals ≡ written = cc in
          step ∙ ap (decided_rows now decision remark actor request) same;
    }

-- A decision that goes through on sound books: the request was open and someone else had asked, it is
-- now decided by this person with one version more, and the books are still sound. A rejection leaves
-- invoices, instalments and payments alone; an approved discount lowers its invoice's total by exactly
-- its amount and leaves what is paid, and an approved void takes exactly its payment's amount off what
-- the invoice has paid.
pub decide_lem :
    (now id : ℕ) (decision : Decision) (remark : Option String) (actor : Actor) (s s' : Books)
    → IsSound s
    → decide now id decision remark actor s ≡ ok (tt, s')
    → IsSound s'
      × (request : ApprovalRow) × (find_row (is_approval id) s.approvals ≡ some request)
      × (is_pending request.status ≡ true)
      × (request.requested_by ≢ actor.user_id)
      × (find_row (is_approval id) s'.approvals
          ≡ some (bumped (decide_row now decision remark actor request)))
      × IsCarried decision request s s'
decide_lem now id decision remark actor s s' sound h =
    let w = decide-IsDecided now id decision remark actor s s' sound h in
    let request = w.request in
    let own = find_row-holds (is_approval id) s.approvals w.found in
    let narrow =
      λ (r : ApprovalRow) (m : matches approvals_table request.id request.version r ≡ true).
        let is_own : is_approval id r ≡ true = ground arith in is_own in
    let found =
      find_row-update_narrow (is_approval id) (matches approvals_table request.id request.version)
        (λ r. bumped (decide_row now decision remark actor r)) narrow s.approvals w.found
        (ground arith) own in
    let differs = w.other_one in
    (
      w.sound,
      request,
      w.found,
      w.pending,
      (λ same_person. ground arith),
      ap (find_row (is_approval id)) w.approvals ∙ found,
      w.carried,
    )
