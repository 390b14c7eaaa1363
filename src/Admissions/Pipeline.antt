-- ===== src/Admissions/Pipeline.antt =====
-- How applications move along the pipeline, over any sequence of operations.
use emis.Base.{
  ℕ, ◌≢◌, or_throw, pure, ◌>>=◌, student_not_found, ◌+◌, ◌≡◌, ◌⊎◌, refl, sym, subst, ap, ◌∙◌, Bool,
  true, ◌||◌, Option, none, some, List, [], ◌∷◌, Result, ok, Tx, inl, inr, arith, any, find_row,
  update_where, All, All-imp, All-update_met, Distinct, Distinct-find_row, is_some, Bool-cases,
}
use emis.Access.{Grant}
use emis.Versioning.{matches}
use emis.Registry.{
  ApplicationStatus, submitted, contacted, placement_scheduled, placed, offered, confirmed,
  enrolled, rejected, expired, ApplicationRow, StudentRow, student_row, student_is, Registry,
  application_is, applications_table,
}
use emis.Billing.Invoices.{Actor}
use emis.Admissions.{
  same_status, can_transition, can_place, manual_targets, awaits_class, transition, PlacementValues,
  record_placement, mark_enrolled, student_for, convert,
}
use emis.Admissions.Steps.{
  next_version, written_rows, with_status, with_placement, with_student, transition-IsTransition,
  record_placement-IsPlacement, convert-IsConversion,
}

-- A status stays, or moves to one that APPLICATION_TRANSITIONS lists.
abbrev pub MayMove : ApplicationStatus → ApplicationStatus → Type 0
MayMove a b = (a ≡ b) ⊎ (can_transition a b ≡ true)

-- Each application of the second list is the one of the first list, moved or not.
abbrev pub HasMoved : List ApplicationRow → List ApplicationRow → Type 0
HasMoved [] [] = Unit
HasMoved [] (b ∷ bs) = ⊥
HasMoved (a ∷ as_) [] = ⊥
HasMoved (a ∷ as_) (b ∷ bs) = (a.id ≡ b.id) × (MayMove a.status b.status) × HasMoved as_ bs

update_where-HasMoved :
    (q : ApplicationRow → Bool) (f : ApplicationRow → ApplicationRow)
    → ((r : ApplicationRow) → r.id ≡ (f r).id)
    → (rows : List ApplicationRow)
    → All (λ (r : ApplicationRow). q r ≡ true → MayMove r.status (f r).status) rows
    → HasMoved rows (update_where q f rows)
update_where-HasMoved q f same [] h = tt
update_where-HasMoved q f same (r ∷ rows) h = elim (Bool-cases (q r)) [
  | inl t ↦ rw t (same r, h.0 t, update_where-HasMoved q f same rows h.1)
  | inr t ↦ rw t (refl, inl refl, update_where-HasMoved q f same rows h.1)
]

-- An update of the application that was found moves only that one.
written_rows-HasMoved :
    (id expected : ℕ) (values : ApplicationRow → ApplicationRow) (to : ApplicationStatus)
    (rows : List ApplicationRow) {before : ApplicationRow}
    → ((r : ApplicationRow) → r.id ≡ (values r).id)
    → ((r : ApplicationRow) → (values r).status ≡ to)
    → Distinct (λ (r : ApplicationRow). r.id) rows
    → find_row (application_is id) rows ≡ some before
    → MayMove before.status to
    → HasMoved rows (written_rows id expected values rows)
written_rows-HasMoved id expected values to rows same becomes d found may =
    update_where-HasMoved (matches applications_table id expected) (λ r. next_version (values r))
      same rows
      (All-imp (λ r h m. subst (λ b. MayMove r.status b) (sym (becomes r)) (h (ground arith))) rows
        (Distinct-find_row (λ (r : ApplicationRow). r.id) (λ r. MayMove r.status to) id rows d found
          may))

same_status-≡ : (a b : ApplicationStatus) → same_status a b ≡ true → a ≡ b
same_status-≡ a b h = ground arith

placeable-MayMove : (a : ApplicationStatus) → can_place a ≡ true → MayMove a placed
unfolding can_place can_transition
placeable-MayMove submitted h = inr refl
placeable-MayMove contacted h = inr refl
placeable-MayMove placement_scheduled h = inr refl
placeable-MayMove placed h = inl refl
placeable-MayMove offered h = cc
placeable-MayMove confirmed h = cc
placeable-MayMove enrolled h = cc
placeable-MayMove rejected h = cc
placeable-MayMove ApplicationStatus.withdrawn h = cc
placeable-MayMove expired h = cc

offered_confirmed : MayMove offered confirmed
unfolding can_transition
offered_confirmed = inr refl

confirmed_enrolled : MayMove confirmed enrolled
unfolding can_transition
confirmed_enrolled = inr refl

mark_enrolled-rows :
    (student_id : ℕ) (s s' : Registry)
    → mark_enrolled student_id s ≡ ok (tt, s')
    → s'.applications
      ≡ update_where
          (awaits_class student_id)
          (λ (r : ApplicationRow). record r { status = enrolled; version = r.version + 1 })
          s.applications
unfolding mark_enrolled
mark_enrolled-rows student_id s s' h = ground arith

enrolled-HasMoved :
    (student_id : ℕ) (s s' : Registry)
    → mark_enrolled student_id s ≡ ok (tt, s')
    → HasMoved s.applications s'.applications
enrolled-HasMoved student_id s s' h =
    subst (HasMoved s.applications) (sym (mark_enrolled-rows student_id s s' h)) (
      update_where-HasMoved (awaits_class student_id) _ (λ r. refl) s.applications
        (each s.applications))
  where
    each :
        (rows : List ApplicationRow)
        → All
            (λ (r : ApplicationRow). awaits_class student_id r ≡ true → MayMove r.status enrolled)
            rows
    each [] = tt
    each (r ∷ rows) = (
      (λ t.
          let was : same_status r.status confirmed ≡ true = ground arith in
          subst (λ a. MayMove a enrolled) (sym (same_status-≡ r.status confirmed was))
            confirmed_enrolled),
      each rows,
    )

-- The operations on applications, with what each is called with.
pub data Operation : Type 0 where
  moving : Bool → ℕ → ApplicationStatus → ℕ → List Grant → Actor → Operation
  placing : Bool → ℕ → ℕ → PlacementValues → ℕ → List Grant → Actor → Operation
  enrolling : ℕ → Operation
  converting : ℕ → Option ℕ → ℕ → List Grant → Actor → Operation

-- An application that is confirmed or enrolled has its student.
abbrev pub HasStudent : ApplicationRow → Type 0
HasStudent r =
    (same_status r.status confirmed || same_status r.status enrolled) ≡ true
    → is_some r.student_id ≡ true

-- A person moves an application only to a status that the endpoint accepts.
abbrev pub is_manual : Operation → Bool
is_manual (moving on id to expected grants actor) = any (same_status to) manual_targets
is_manual _ = true

manual-not_confirmed :
    (to : ApplicationStatus)
    → any (same_status to) manual_targets ≡ true
    → (same_status to confirmed || same_status to enrolled) ≢ true
manual-not_confirmed to m e = ground arith

module _ (create : ApplicationRow → Tx Registry ℕ) where
  unfoldable pub run : Operation → Tx Registry (Unit {0})
  unfolding transition record_placement mark_enrolled convert
  run (moving on id to expected grants actor) = transition on id to expected grants actor
  run (placing on now id input expected grants actor) =
      record_placement on now id input expected grants actor
  run (enrolling student_id) = mark_enrolled student_id
  run (converting id existing expected grants actor) =
      convert create id existing expected grants actor

  -- Registering a student does not touch the applications.
  abbrev pub LeavesApplications : Type 0
  LeavesApplications =
      (before : ApplicationRow) (s s' : Registry) (id : ℕ)
      → create before s ≡ ok (id, s')
      → s'.applications ≡ s.applications

  student_for-applications :
      LeavesApplications
      → (existing : Option ℕ) (before : ApplicationRow) (s s' : Registry) (id : ℕ)
      → student_for create existing before s ≡ ok (id, s')
      → s'.applications ≡ s.applications
  unfolding student_for student_row
  student_for-applications leaves none before s s' id h = leaves before s s' id h
  student_for-applications leaves (some k) before s s' id h =
      go (find_row (student_is k) s.students) h
    where
      answer : Option StudentRow → Result (ℕ × Registry)
      answer o = (or_throw o student_not_found >>= λ (student : StudentRow). pure student.id) s

      go : (o : Option StudentRow) → answer o ≡ ok (id, s') → s'.applications ≡ s.applications
      go (some student) h' = ground arith
      go none h' = absurd (ground arith)

  -- An operation that goes through moves each application along the listed transitions only, or
  -- leaves its status (a retest replaces a placement): no other change of status exists. The ids of
  -- applications are distinct, and registering a student leaves the applications alone.
  pub run-HasMoved :
      LeavesApplications
      → (operation : Operation) (s s' : Registry)
      → Distinct (λ (r : ApplicationRow). r.id) s.applications
      → run operation s ≡ ok (tt, s')
      → HasMoved s.applications s'.applications
  unfolding run
  run-HasMoved leaves (moving on id to expected grants actor) s s' d h =
      let w = transition-IsTransition on id to expected grants actor s s' h in
      subst (HasMoved s.applications) (sym w.result) (
        written_rows-HasMoved id expected (with_status to actor) to s.applications (λ r. refl)
          (λ r. refl) d w.found (inr w.listed))
  run-HasMoved leaves (placing on now id input expected grants actor) s s' d h =
      let w = record_placement-IsPlacement on now id input expected grants actor s s' h in
      subst (HasMoved s.applications) (sym w.result) (
        written_rows-HasMoved id expected (with_placement now input actor) placed s.applications
          (λ r. refl) (λ r. refl) d w.found (placeable-MayMove w.before.status w.placeable))
  run-HasMoved leaves (enrolling student_id) s s' d h = enrolled-HasMoved student_id s s' h
  run-HasMoved leaves (converting id existing expected grants actor) s s' d h =
      let w = convert-IsConversion create id existing expected grants actor s s' h in
      let kept =
        student_for-applications leaves existing w.before s w.registered w.student_id
          w.registering in
      let may : MayMove w.before.status confirmed =
        subst (λ a. MayMove a confirmed) (sym (same_status-≡ w.before.status offered w.ready))
          offered_confirmed in
      subst (HasMoved s.applications)
        (sym (w.result ∙ ap (written_rows id expected (with_student w.student_id actor)) kept))
        (written_rows-HasMoved id expected (with_student w.student_id actor) confirmed
          s.applications (λ r. refl) (λ r. refl) d w.found may)

  -- An operation that goes through leaves confirmed and enrolled applications with their student, where
  -- a person moves an application to one of the statuses that the endpoint accepts.
  pub run-HasStudent :
      LeavesApplications
      → (operation : Operation) (s s' : Registry) → is_manual operation ≡ true
      → All HasStudent s.applications
      → run operation s ≡ ok (tt, s')
      → All HasStudent s'.applications
  unfolding run
  run-HasStudent leaves (moving on id to expected grants actor) s s' m a h =
      let w = transition-IsTransition on id to expected grants actor s s' h in
      subst (All HasStudent) (sym w.result) (
        All-update_met (matches applications_table id expected)
          (λ r. next_version (with_status to actor r))
          (λ r p t e. absurd (manual-not_confirmed to m e)) s.applications a)
  run-HasStudent leaves (placing on now id input expected grants actor) s s' m a h =
      let w = record_placement-IsPlacement on now id input expected grants actor s s' h in
      subst (All HasStudent) (sym w.result) (
        All-update_met (matches applications_table id expected)
          (λ r. next_version (with_placement now input actor r)) (λ r p t e. absurd (ground arith))
          s.applications a)
  run-HasStudent leaves (enrolling student_id) s s' m a h =
      subst (All HasStudent) (sym (mark_enrolled-rows student_id s s' h))
        (All-update_met (awaits_class student_id) _ (λ r p t e. ground arith) s.applications a)
  run-HasStudent leaves (converting id existing expected grants actor) s s' m a h =
      let w = convert-IsConversion create id existing expected grants actor s s' h in
      let kept =
        student_for-applications leaves existing w.before s w.registered w.student_id
          w.registering in
      subst (All HasStudent)
        (sym (w.result ∙ ap (written_rows id expected (with_student w.student_id actor)) kept))
        (All-update_met (matches applications_table id expected)
          (λ r. next_version (with_student w.student_id actor r)) (λ r p t e. refl) s.applications
          a)
