-- ===== src/Audit.antt =====
-- The audit log: `chainHash` (apps/api/src/modules/audit/domain/hash-chain.ts), and `record` and `verify`
-- of apps/api/src/modules/audit/application/audit.service.ts. The hash is of a library: it is a
-- parameter, a function of the previous hash and the content, which the theorems on tampering take to
-- give different hashes for different arguments. An entry's content is one value, compared as a whole.
pub mod Passes
pub mod Tampering
pub mod Detecting
mod Tests
use emis.Base.{
  ℕ, zero, suc, ◌+◌, ◌≡◌, Bool, true, false, not, ◌&&◌, ◌||◌, Option, none, some, List, [], ◌∷◌,
  ◌++◌, Result, ok, err, leb, ltb, ◌==◌, if◌then◌else◌, select, length, take,
}

-- What the log takes from outside: contents and hashes, with the test by which hashes are compared.
pub record Hashing : Type 1 where
  pub Content : Type 0
  pub Hash : Type 0
  pub hash_eq : Hash → Hash → Bool
  pub hash_eq_iff : (a b : Hash) → (hash_eq a b ≡ true → a ≡ b) × (a ≡ b → hash_eq a b ≡ true)
  -- sha256 of the previous hash and the canonical content
  pub chain_hash : Content → Option Hash → Hash

abbrev pub last_of {ℓ} : {A : Type ℓ} → List A → Option A
last_of [] = none
last_of (x ∷ []) = some x
last_of (x ∷ y ∷ xs) = last_of (y ∷ xs)

module _ (h : Hashing) where
  open h use {Content, Hash, hash_eq, chain_hash}

  pub record AuditRow : Type 0 where
    pub seq : ℕ
    pub content : Content
    pub prev_hash : Option Hash
    pub hash : Hash

  -- `chainHash(content, prevHash) !== row.hash` and `row.prevHash !== prevHash`, negated
  abbrev pub same_hash : Option Hash → Option Hash → Bool
  same_hash none none = true
  same_hash none (some b) = false
  same_hash (some a) none = false
  same_hash (some a) (some b) = hash_eq a b

  abbrev pub hash_of : Option AuditRow → Option Hash
  hash_of none = none
  hash_of (some r) = some r.hash

  -- `record`: the new row is chained to the last one. The lock makes the writers follow each other, and
  -- the database gives the next number of the sequence.
  unfoldable pub append_entry : ℕ → Content → List AuditRow → List AuditRow
  append_entry seq content rows =
      let prev = hash_of (last_of rows) in
      rows
      ++ record { seq = seq; content = content; prev_hash = prev; hash = chain_hash content prev }
        ∷ []

pub record VerifyResponse : Type 0 where
  pub intact : Bool
  pub checked : ℕ
  pub broken_at_seq : Option ℕ

abbrev pub found_intact : ℕ → VerifyResponse
found_intact checked = record { intact = true; checked = checked; broken_at_seq = none }

-- VERIFY_BATCH
abbrev pub verify_batch : ℕ
verify_batch = 1000

module _ (h : Hashing) where
  open h use {Content, Hash, hash_eq, chain_hash}

  -- What the inner loop comes to: an answer, or the variables behind it.
  pub data Pass : Type 0 where
    broken : VerifyResponse → Pass
    going : Option Hash → ℕ → ℕ → Pass

  abbrev pub is_broken : AuditRow h → Option Hash → Bool
  is_broken r prev =
      not (same_hash h r.prev_hash prev) || not (hash_eq (chain_hash r.content r.prev_hash) r.hash)

  unfoldable pub pass : List (AuditRow h) → Option Hash → ℕ → ℕ → Pass
  pass [] prev checked after = going prev checked after
  pass (r ∷ rows) prev checked after =
      let rest = pass rows (some r.hash) (checked + 1) r.seq in
      if is_broken r prev
      then broken (record { intact = false; checked = checked; broken_at_seq = some r.seq })
      else rest

  -- The next rows behind a number of the sequence, at most `size` of them.
  abbrev pub batch : ℕ → ℕ → List (AuditRow h) → List (AuditRow h)
  batch size after rows = take size (select (λ (r : AuditRow h). ltb after r.seq) rows)

  -- The outer loop; none stands for running out of fuel.
  unfoldable pub verify_from :
      ℕ → ℕ → List (AuditRow h) → Option Hash → ℕ → ℕ → Option VerifyResponse
  unfolding pass
  verify_from zero size rows prev checked after = none
  verify_from (suc fuel) size rows prev checked after = elim (batch size after rows) [
    | [] ↦ some (found_intact checked)
    | r ∷ more ↦ elim (pass (r ∷ more) prev checked after) [
      | broken answer ↦ some answer
      | going prev' checked' after' ↦ verify_from fuel size rows prev' checked' after'
    ]
  ]

  -- `verify`, on the rows in the order of their sequence numbers
  unfoldable pub verify : List (AuditRow h) → Option VerifyResponse
  unfolding verify_from
  verify rows = verify_from (length rows + 1) verify_batch rows none 0 0
