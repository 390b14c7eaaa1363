-- ===== src/Versioning/Updating.antt =====
-- What optimistic locking gives two people who edit one row: packages/db/src/versioning.ts.
use emis.Base.{
  ℕ, ◌+◌, ◌≡◌, inl, inr, refl, sym, subst, ap, ◌∙◌, true, not, some, List, [], ◌∷◌, Result, ok, err,
  ◌==◌, Failure, version_conflict, arith, Bool-cases, select, find_row, find_row-All,
  find_row-holds, find_row-update_other, update_where, Distinct, Distinct-found,
  Distinct-update_where,
}
use emis.Versioning.{Versioned, matches, update_versioned, update_versioned_cases}

-- What the statement adds to the new values: the version is set one higher, and the id stays.
pub record IsVersioned {A : Type 0} (t : Versioned A) : Type 0 where
  pub keeps_id : (r : A) → t.id (t.bump r) ≡ t.id r
  pub raises : (r : A) → t.version (t.bump r) ≡ t.version r + 1

-- New values for a row omit its id and its version.
pub record IsEdit {A : Type 0} (t : Versioned A) (values : A → A) : Type 0 where
  pub keeps_id : (r : A) → t.id (values r) ≡ t.id r
  pub keeps_version : (r : A) → t.version (values r) ≡ t.version r

-- With distinct ids, the row that an update meets is the one with the id.
pub found-by_id :
    {A : Type 0} (t : Versioned A) (id expected : ℕ) (rows : List A) {before : A}
    → Distinct t.id rows
    → find_row (matches t id expected) rows ≡ some before
    → (find_row (λ r. t.id r == id) rows ≡ some before) × (t.version before ≡ expected)
found-by_id t id expected rows {before} distinct found =
    let met = find_row-holds (matches t id expected) rows found in
    let own =
      find_row-All (λ x. find_row (λ y. t.id y == t.id x) rows ≡ some x) (matches t id expected)
        rows (Distinct-found t.id rows distinct) found in
    let same : t.id before ≡ id = ground arith in
    (subst (λ k. find_row (λ y. t.id y == k) rows ≡ some before) same own, ground arith)

one_answer :
    {A : Type 0} {x : Result (A × List A)} (a b : A) (xs ys : List A)
    → x ≡ ok (a, xs)
    → x ≡ ok (b, ys)
    → (a ≡ b) × (xs ≡ ys)
one_answer a b xs ys h k = (ground arith, ground arith)

pub update_where-others :
    {A : Type 0} (t : Versioned A) (id expected : ℕ) (f : A → A)
    → ((r : A) → t.id (f r) ≡ t.id r)
    → (rows : List A)
    → select (λ r. not (t.id r == id)) (update_where (matches t id expected) f rows)
      ≡ select (λ r. not (t.id r == id)) rows
update_where-others t id expected f same [] = refl
update_where-others t id expected f same (r ∷ rows) =
    let later = update_where-others t id expected f same rows in
    elim (Bool-cases (t.id r == id)) [
      | inl u ↦
          let still : (t.id (f r) == id) ≡ true = ap (λ k. k == id) (same r) ∙ u in
          elim (Bool-cases (t.version r == expected)) [
            | inl v ↦ rw u (rw v (rw still later))
            | inr v ↦ rw u (rw v (rw u later))
          ]
      | inr u ↦ rw u (rw u (ap (λ l. r ∷ l) later))
    ]

-- An update that goes through has edited the row with the id, which was at the expected version, and no
-- other; the stored row is the one answered, one version higher.
pub update_versioned-stored :
    {A : Type 0} (t : Versioned A) (laws : IsVersioned t) (id expected : ℕ) (values : A → A)
    (edit : IsEdit t values) (gone : Failure) (rows rows' : List A) (row : A)
    → Distinct t.id rows
    → update_versioned t id expected values gone rows ≡ ok (row, rows')
    → (before : A) × (find_row (λ r. t.id r == id) rows ≡ some before)
      × (t.version before ≡ expected)
      × (row ≡ t.bump (values before))
      × (rows' ≡ update_where (matches t id expected) (λ r. t.bump (values r)) rows)
      × (find_row (λ r. t.id r == id) rows' ≡ some row)
      × (select (λ r. not (t.id r == id)) rows' ≡ select (λ r. not (t.id r == id)) rows)
update_versioned-stored {A} t laws id expected values edit gone rows rows' row distinct h =
    elim (update_versioned_cases t id expected values gone rows) [
      | inl (before, found, done) ↦
          let (is_row, is_rows) = one_answer row (before_row before) rows' after h done in
          let (by_id, at) = found-by_id t id expected rows distinct found in
          let met = find_row-holds (matches t id expected) rows found in
          let stored =
            find_row-update_other (λ r. t.id r == id) (matches t id expected) before_row
              (λ y. ap (λ k. k == id) (same_id y)) rows by_id met in
          (
            before,
            by_id,
            at,
            is_row,
            is_rows,
            subst (λ l. find_row (λ r. t.id r == id) l ≡ some row) (sym is_rows)
                (stored ∙ ap some (sym is_row)),
            subst (λ l. select (λ r. not (t.id r == id)) l ≡ select (λ r. not (t.id r == id)) rows)
                (sym is_rows) (update_where-others t id expected before_row same_id rows),
          )
      | inr (inl (other, found, differs, failed)) ↦ absurd (ground arith)
      | inr (inr (gap, failed)) ↦ absurd (ground arith)
    ]
  where
    before_row : A → A
    before_row r = t.bump (values r)

    after : List A
    after = update_where (matches t id expected) before_row rows

    same_id : (r : A) → t.id (t.bump (values r)) ≡ t.id r
    same_id r = laws.keeps_id (values r) ∙ edit.keeps_id r

-- No update is lost: where two people have read a row at one version and the first has changed it, the
-- change of the second, whatever it is, ends in a conflict. The row then stored is the edit of the first,
-- one version above the one that both had read, and no other row has changed. This asks for distinct
-- ids, a first edit that keeps id and version, and a table that raises the version with each update.
pub update_versioned-not_lost :
    {A : Type 0} (t : Versioned A) (laws : IsVersioned t) (id expected : ℕ) (values : A → A)
    (edit : IsEdit t values) (second : A → A) (gone : Failure) (rows rows' : List A) (row : A)
    → Distinct t.id rows
    → update_versioned t id expected values gone rows ≡ ok (row, rows')
    → (update_versioned t id expected second gone rows' ≡ err version_conflict)
      × (find_row (λ r. t.id r == id) rows' ≡ some row)
      × (t.version row ≡ expected + 1)
      × ((before : A) × (find_row (λ r. t.id r == id) rows ≡ some before)
          × (row ≡ t.bump (values before)))
      × (select (λ r. not (t.id r == id)) rows' ≡ select (λ r. not (t.id r == id)) rows)
update_versioned-not_lost {A} t laws id expected values edit second gone rows rows' row distinct h =
    let (before, by_id, at, is_row, is_rows, stored, others) =
      update_versioned-stored t laws id expected values edit gone rows rows' row distinct h in
    let raised : t.version row ≡ expected + 1 =
      ap t.version is_row
      ∙ (laws.raises (values before) ∙ ap (λ n. n + 1) (edit.keeps_version before ∙ at)) in
    let distinct' : Distinct t.id rows' = subst (Distinct t.id) (sym is_rows) (
      Distinct-update_where t.id (matches t id expected) (λ r. t.bump (values r))
        (λ r. laws.keeps_id (values r) ∙ edit.keeps_id r) rows distinct) in
    (refused stored raised distinct', stored, raised, (before, by_id, is_row), others)
  where
    refused :
        find_row (λ r. t.id r == id) rows' ≡ some row
        → t.version row ≡ expected + 1
        → Distinct t.id rows'
        → update_versioned t id expected second gone rows' ≡ err version_conflict
    refused stored raised distinct' =
        elim (update_versioned_cases t id expected second gone rows') [
          | inl (x, found, done) ↦
              let (by_id, at) = found-by_id t id expected rows' distinct' found in
              let same : x ≡ row = ground arith in
              let versions : t.version x ≡ t.version row = ap t.version same in absurd (omega arith)
          | inr (inl (other, found, differs, failed)) ↦ failed
          | inr (inr (gap, failed)) ↦ absurd (ground arith)
        ]
