-- ===== src/Versioning/Tests.antt =====
-- Two rows with versions, and the theorem applied to them.
use emis.Base.{
  ℕ, ◌+◌, ◌≡◌, refl, not, some, List, [], ◌∷◌, ok, err, ◌==◌, find_row, select, arith,
  version_conflict, course_not_found,
}
use emis.Versioning.{Versioned, update_versioned}
use emis.Versioning.Updating.{update_versioned-not_lost}

pub record Row : Type 0 where
  pub id : ℕ
  pub version : ℕ
  pub value : ℕ

abbrev table : Versioned Row
table = record {
  id = λ r. r.id;
  version = λ r. r.version;
  bump = λ r. record r { version = r.version + 1 };
}

abbrev rows : List Row
rows = record { id = 1; version = 4; value = 10 } ∷ record { id = 2; version = 1; value = 20 } ∷ []

abbrev set : Row → Row
set r = record r { value = 11 }

-- A stale version is a conflict, and nothing is written.
stale : update_versioned table 1 3 set course_not_found rows ≡ err version_conflict
unfolding update_versioned
stale = refl

abbrev changed : Row
changed = record { id = 1; version = 5; value = 11 }

abbrev stored : List Row
stored = changed ∷ record { id = 2; version = 1; value = 20 } ∷ []

is_changed : update_versioned table 1 4 set course_not_found rows ≡ ok (changed, stored)
unfolding update_versioned
is_changed = refl

abbrev clear : Row → Row
clear r = record r { value = 0 }

update_versioned-not_lost_example :
    (update_versioned table 1 4 clear course_not_found stored ≡ err version_conflict)
    × (find_row (λ (r : Row). r.id == 1) stored ≡ some changed)
    × (table.version changed ≡ 4 + 1)
    × ((before : Row) × (find_row (λ (r : Row). r.id == 1) rows ≡ some before)
        × (changed ≡ table.bump (set before)))
    × (select (λ (r : Row). not (r.id == 1)) stored ≡ select (λ (r : Row). not (r.id == 1)) rows)
update_versioned-not_lost_example =
    update_versioned-not_lost table (record { keeps_id = λ r. refl; raises = λ r. refl }) 1 4 set
      (record { keeps_id = λ r. refl; keeps_version = λ r. refl }) clear course_not_found rows
      stored changed (((λ e. absurd (omega arith)), tt), (tt, tt)) is_changed
