-- ===== src/Versioning.antt =====
-- Optimistic locking: packages/db/src/versioning.ts and apps/api/src/common/http/versioning.ts.
pub mod Updating
mod Tests
use emis.Base.{
  ℕ, ◌+◌, ◌≡◌, ◌≢◌, ◌⊎◌, inl, inr, refl, Bool, true, false, ◌&&◌, Option, none, some, List, [], ◌∷◌,
  Result, ok, err, Tx, ◌==◌, if◌then◌else◌, find_row, update_where, Failure, version_conflict,
  arith, Option-cases, find_row-holds, find_row-fails,
}

pub data VersionedUpdateResult (A : Type 0) : Type 0 where
  updated : A → VersionedUpdateResult A
  conflict : ℕ → VersionedUpdateResult A
  not_found : VersionedUpdateResult A

-- A table whose rows have an id and a version; `bump` sets the version one higher.
pub record Versioned (A : Type 0) : Type 0 where
  pub id : A → ℕ
  pub version : A → ℕ
  pub bump : A → A

module _ {A : Type 0} (t : Versioned A) where
  abbrev pub matches : ℕ → ℕ → A → Bool
  matches id expected r = t.id r == id && t.version r == expected

  -- One UPDATE on the id and the version; if it met no row, a read tells a conflict from a gap.
  unfoldable pub update_with_version : ℕ → ℕ → (A → A) → List A → VersionedUpdateResult A × List A
  update_with_version id expected values rows = elim (find_row (matches id expected) rows) [
    | some r ↦ (
      updated (t.bump (values r)),
      update_where (matches id expected) (λ r. t.bump (values r)) rows,
    )
    | none ↦ elim (find_row (λ r. t.id r == id) rows) [
      | some r ↦ (conflict (t.version r), rows)
      | none ↦ (not_found, rows)
    ]
  ]

-- The row, or the error that `gone` makes, or the conflict.
unfoldable pub versioned_row : {A : Type 0} → VersionedUpdateResult A → Failure → Result A
versioned_row not_found gone = err gone
versioned_row (conflict version) gone = err version_conflict
versioned_row (updated row) gone = ok row

-- The two together, as a step on the rows.
unfoldable pub update_versioned :
    {A : Type 0} → Versioned A → ℕ → ℕ → (A → A) → Failure → Tx (List A) A
unfolding update_with_version versioned_row
update_versioned t id expected values gone rows =
    let (result, rows') = update_with_version t id expected values rows in
    elim (versioned_row result gone) [ ok row ↦ ok (row, rows') | err e ↦ err e ]

-- What an update of a row at an expected version comes to: the row was at that version and the new
-- rows differ there alone; or another version was there; or no row has the id.
pub update_versioned_cases :
    {A : Type 0} (t : Versioned A) (id expected : ℕ) (values : A → A) (gone : Failure)
    (rows : List A)
    → ((before : A) × (find_row (matches t id expected) rows ≡ some before)
        × (update_versioned t id expected values gone rows
            ≡ ok (
              t.bump (values before),
              update_where (matches t id expected) (λ r. t.bump (values r)) rows,
            )))
      ⊎ (((other : A) × (find_row (λ r. t.id r == id) rows ≡ some other)
            × (t.version other ≢ expected)
            × (update_versioned t id expected values gone rows ≡ err version_conflict))
          ⊎ ((find_row (λ r. t.id r == id) rows ≡ none)
              × (update_versioned t id expected values gone rows ≡ err gone)))
unfolding update_versioned
update_versioned_cases t id expected values gone rows =
    elim (Option-cases (find_row (matches t id expected) rows)) [
      | inr (before, found) ↦ inl (before, found, ground arith)
      | inl missed ↦ elim (Option-cases (find_row (λ r. t.id r == id) rows)) [
        | inr (other, found) ↦
            let fails =
              find_row-fails (matches t id expected) (λ r. t.id r == id) rows missed found in
            let has_id = find_row-holds (λ r. t.id r == id) rows found in
            inr (inl (other, found, (λ e. ground arith), ground arith))
        | inl gap ↦ inr (inr (gap, ground arith))
      ]
    ]
