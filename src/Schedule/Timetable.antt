-- ===== src/Schedule/Timetable.antt =====
-- A room or an instructor is in one place at a time, and a class has the sessions of its plan.
use emis.Base.{
  append-nil, append_assoc, select-append, ℕ, ◌≤◌, ◌≡◌, refl, sym, ap, ◌∙◌, subst, Bool, false, not,
  List, [], ◌∷◌, ◌++◌, map, Result, ok, err, arith, ltb, ◌==◌, ==-self, any, length, select, All,
  All-append, select-All, Bool-cases, inl, inr,
}
use emis.Schedule.{
  HolidayRule, max_sessions, session_dates, ClassSession, same_room, same_instructor,
  insert_sessions, Cohort, plan_of, session_on, is_of, generate_sessions,
}

-- Two sessions that do not need one room, or one instructor, at one time.
abbrev pub IsApart : ClassSession → ClassSession → Type 0
IsApart a b = (same_room a b ≡ false) × (same_instructor a b ≡ false)

-- Each session is apart from those before it.
abbrev pub IsFree : List ClassSession → Type 0
IsFree [] = Unit
IsFree (r ∷ rows) = All (λ (later : ClassSession). IsApart later r) rows × IsFree rows

IsFree-snoc :
    (new : ClassSession) (rows : List ClassSession)
    → IsFree rows
    → All (λ (r : ClassSession). IsApart new r) rows
    → IsFree (rows ++ new ∷ [])
IsFree-snoc new [] free apart = (tt, tt)
IsFree-snoc new (r ∷ rows) free apart = (
  All-append (λ (later : ClassSession). IsApart later r) rows (new ∷ []) free.0 (apart.0, tt),
  IsFree-snoc new rows free.1 apart.1,
)

IsFree-select :
    (p : ClassSession → Bool) (rows : List ClassSession) → IsFree rows → IsFree (select p rows)
IsFree-select p [] free = tt
IsFree-select p (r ∷ rows) free = elim (Bool-cases (p r)) [
  | inl t ↦ rw t (
    select-All (λ (later : ClassSession). IsApart later r) p rows free.0,
    IsFree-select p rows free.1,
  )
  | inr t ↦ rw t (IsFree-select p rows free.1)
]

any-IsApart :
    (new : ClassSession) (rows : List ClassSession)
    → any (same_room new) rows ≡ false
    → any (same_instructor new) rows ≡ false
    → All (λ r. IsApart new r) rows
any-IsApart new [] a b = tt
any-IsApart new (r ∷ rows) a b =
    ((ground arith, ground arith), any-IsApart new rows (ground arith) (ground arith))

-- What a successful insert did.
insert_sessions_lem :
    (new rows rows' : List ClassSession)
    → IsFree rows
    → insert_sessions new rows ≡ ok rows'
    → IsFree rows' × (rows' ≡ rows ++ new)
unfolding insert_sessions
insert_sessions_lem [] rows rows' free h =
    let same : rows ≡ rows' = cc in (subst IsFree same free, sym (append-nil rows ∙ same))
insert_sessions_lem (new ∷ more) rows rows' free h =
    elim (Bool-cases (ltb new.starts_at new.ends_at)) [
      | inl t ↦ elim (Bool-cases (any (same_room new) rows)) [
        | inl u ↦ absurd (ground arith)
        | inr u ↦ elim (Bool-cases (any (same_instructor new) rows)) [
          | inl v ↦ absurd (ground arith)
          | inr v ↦
              let later : insert_sessions more (rows ++ new ∷ []) ≡ ok rows' = ground arith in
              let (good, same) =
                insert_sessions_lem more (rows ++ new ∷ []) rows'
                  (IsFree-snoc new rows free (any-IsApart new rows u v)) later in
              (good, same ∙ append_assoc rows (new ∷ []) more)
        ]
      ]
      | inr t ↦ absurd (ground arith)
    ]

module _ (instant : ℕ → ℕ → ℕ) (c : Cohort) where
  own : List ℕ → List ClassSession
  own dates = map (session_on instant c) dates

  select-own : (dates : List ℕ) → select (is_of c.id) (own dates) ≡ own dates
  unfolding own
  select-own [] = refl
  select-own (d ∷ dates) =
      rw (==-self c.id) (ap (λ l. session_on instant c d ∷ l) (select-own dates))

  select-others : (dates : List ℕ) → select (λ r. not (is_of c.id r)) (own dates) ≡ []
  unfolding own
  select-others [] = refl
  select-others (d ∷ dates) = rw (==-self c.id) (select-others dates)

  no_own :
      (rows : List ClassSession) → select (is_of c.id) (select (λ r. not (is_of c.id r)) rows) ≡ []
  no_own [] = refl
  no_own (r ∷ rows) = elim (Bool-cases (is_of c.id r)) [
    | inl t ↦ rw t (no_own rows)
    | inr t ↦ rw t (rw t (no_own rows))
  ]

  others_stay :
      (rows : List ClassSession)
      → select (λ r. not (is_of c.id r)) (select (λ r. not (is_of c.id r)) rows)
        ≡ select (λ r. not (is_of c.id r)) rows
  others_stay [] = refl
  others_stay (r ∷ rows) = elim (Bool-cases (is_of c.id r)) [
    | inl t ↦ rw t (others_stay rows)
    | inr t ↦ rw t (rw t (ap (λ l. r ∷ l) (others_stay rows)))
  ]

  -- Where no room and no instructor was needed twice at one time, so it is after the sessions of a class
  -- are made anew: the class then has one session on each date of its plan, of which there are between
  -- one and 400, and the sessions of other classes stay.
  pub generate_sessions_lem :
      (holidays : List HolidayRule) (rows rows' : List ClassSession) (n : ℕ)
      → IsFree rows
      → generate_sessions instant holidays c rows ≡ ok (n, rows')
      → IsFree rows'
        × (select (is_of c.id) rows'
            ≡ map (session_on instant c) (session_dates (plan_of holidays c)))
        × (select (λ r. not (is_of c.id r)) rows' ≡ select (λ r. not (is_of c.id r)) rows)
        × (n ≡ length (session_dates (plan_of holidays c)))
        × (1 ≤ n)
        × (n ≤ 400)
  unfolding generate_sessions own
  generate_sessions_lem holidays rows rows' n free h = elim (Bool-cases (length dates == 0)) [
    | inl t ↦ absurd (ground arith)
    | inr t ↦ elim (Bool-cases (ltb max_sessions (length dates))) [
      | inl u ↦ absurd (ground arith)
      | inr u ↦ go (insert_sessions (own dates) others) refl t u (ground arith)
    ]
  ]
    where
      dates : List ℕ
      dates = session_dates (plan_of holidays c)

      others : List ClassSession
      others = select (λ (r : ClassSession). not (is_of c.id r)) rows

      answer : Result (List ClassSession) → Result (ℕ × List ClassSession)
      answer r = elim r [ err e ↦ err e | ok rows' ↦ ok (length dates, rows') ]

      go :
          (r : Result (List ClassSession))
          → insert_sessions (own dates) others ≡ r
          → (length dates == 0) ≡ false
          → ltb max_sessions (length dates) ≡ false
          → answer r ≡ ok (n, rows')
          → IsFree rows'
            × (select (is_of c.id) rows' ≡ own dates)
            × (select (λ r. not (is_of c.id r)) rows' ≡ others)
            × (n ≡ length dates)
            × (1 ≤ n)
            × (n ≤ 400)
      go (err e) is t u e' = cc
      go (ok rows'') is t u e' =
          let (good, is_rows) =
            insert_sessions_lem (own dates) others rows''
              (IsFree-select (λ r. not (is_of c.id r)) rows free) is in
          let same : rows'' ≡ rows' = cc in
          let count : length dates ≡ n = cc in
          let rows_are : rows' ≡ others ++ own dates = sym same ∙ is_rows in
          let theirs : select (is_of c.id) (others ++ own dates) ≡ own dates =
            select-append (is_of c.id) others (own dates) ∙ rw (no_own rows) (select-own dates) in
          let not_theirs : select (λ r. not (is_of c.id r)) (others ++ own dates) ≡ others =
            select-append (λ r. not (is_of c.id r)) others (own dates)
            ∙ rw (others_stay rows) (rw (select-others dates) (append-nil others)) in
          (
            subst IsFree same good,
            ap (select (is_of c.id)) rows_are ∙ theirs,
            ap (select (λ r. not (is_of c.id r))) rows_are ∙ not_theirs,
            sym count,
            ground arith,
            ground arith,
          )
