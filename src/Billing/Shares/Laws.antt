-- ===== src/Billing/Shares/Laws.antt =====
-- The parts of a split add up to the total.
use emis.Base.{ℕ, ◌+◌, ◌-◌, ◌*◌, ◌≤◌, ◌≡◌, refl, ap, List, [], ◌∷◌, map, ok, length, arith}
use emis.Billing.Shares.{whole, part_of, add_to_last, sum, split_by_basis_points}

-- The rounded parts never exceed the total that the shares make up.
parts-le : (total : ℕ) (bps : List ℕ) → sum (map (part_of total) bps) * whole ≤ total * sum bps
unfolding part_of
parts-le total [] = omega arith
parts-le total (bp ∷ bps) = omega (arith, parts-le total bps)

sum-add_to_last :
    (extra x : ℕ) (xs : List ℕ) → sum (add_to_last extra (x ∷ xs)) ≡ sum (x ∷ xs) + extra
unfolding add_to_last
sum-add_to_last extra x [] = omega arith
sum-add_to_last extra x (y ∷ ys) = omega (arith, sum-add_to_last extra y ys)

length-add_to_last : (extra : ℕ) (xs : List ℕ) → length (add_to_last extra xs) ≡ length xs
unfolding add_to_last
length-add_to_last extra [] = refl
length-add_to_last extra (x ∷ []) = refl
length-add_to_last extra (x ∷ y ∷ xs) = omega (arith, length-add_to_last extra (y ∷ xs))

pub length-map : {A B : Type 0} (f : A → B) (xs : List A) → length (map f xs) ≡ length xs
length-map f [] = refl
length-map f (x ∷ xs) = omega (arith, length-map f xs)

-- Each part is at least its share rounded down, at every position.
abbrev pub AtLeast : List ℕ → List ℕ → Type 0
AtLeast [] [] = Unit
AtLeast (x ∷ xs) (y ∷ ys) = (y ≤ x) × AtLeast xs ys
AtLeast _ _ = ⊥

add_to_last-AtLeast : (extra : ℕ) (xs : List ℕ) → AtLeast (add_to_last extra xs) xs
unfolding add_to_last
add_to_last-AtLeast extra [] = tt
add_to_last-AtLeast extra (x ∷ []) = (omega arith, tt)
add_to_last-AtLeast extra (x ∷ y ∷ xs) = (omega arith, add_to_last-AtLeast extra (y ∷ xs))

-- With shares that make up a whole, one or more of them, the split succeeds; it has a part for each
-- share, none is below its share rounded down, and together they are exactly the total.
pub split_by_basis_points_lem :
    (total : ℕ) (bps : List ℕ)
    → sum bps ≡ whole
    → (parts : List ℕ) × (split_by_basis_points total bps ≡ ok parts)
      × (sum parts ≡ total)
      × (length parts ≡ length bps)
      × AtLeast parts (map (part_of total) bps)
unfolding split_by_basis_points
split_by_basis_points_lem total [] h = absurd (omega arith)
split_by_basis_points_lem total (bp ∷ bps) h =
    let parts : List ℕ = map (part_of total) (bp ∷ bps) in
    let extra : ℕ = total - sum parts in
    let below : sum parts * whole ≤ total * sum (bp ∷ bps) = parts-le total (bp ∷ bps) in
    (
      add_to_last extra parts,
      ground arith,
      omega (
        arith,
        sum-add_to_last extra (part_of total bp) (map (part_of total) bps),
        ap (λ (n : ℕ). total * n) h,
      ),
      omega (arith, length-add_to_last extra parts, length-map (part_of total) (bp ∷ bps)),
      add_to_last-AtLeast extra parts,
    )
