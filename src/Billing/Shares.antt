-- ===== src/Billing/Shares.antt =====
-- `splitByBasisPoints` (packages/contracts/src/money.ts): a total split by shares in basis points.
pub mod Laws
use emis.Base.{
  ℕ, ◌+◌, ◌-◌, ◌*◌, ◌/◌, List, [], ◌∷◌, map, Result, ok, err, ◌==◌, if◌then◌else◌, sum_of,
  bad_shares,
}

abbrev pub whole : ℕ
whole = 10000

-- Every part rounded down.
unfoldable pub part_of : ℕ → ℕ → ℕ
part_of total bp = total * bp / whole

-- `parts[parts.length - 1] += extra`
pub add_to_last : ℕ → List ℕ → List ℕ
add_to_last extra [] = []
add_to_last extra (x ∷ []) = (x + extra) ∷ []
add_to_last extra (x ∷ y ∷ xs) = x ∷ add_to_last extra (y ∷ xs)

abbrev pub sum : List ℕ → ℕ
sum = sum_of (λ n. n)

unfoldable pub split_by_basis_points : ℕ → List ℕ → Result (List ℕ)
unfolding add_to_last part_of
split_by_basis_points total [] = err bad_shares
split_by_basis_points total (bp ∷ bps) =
    let shares = bp ∷ bps in
    if sum shares == whole
    then (let parts = map (part_of total) shares in ok (add_to_last (total - sum parts) parts))
    else err bad_shares
