-- ===== src/Audit/Detecting.antt =====
-- Two intact logs with one last hash hold the same entries, if the hash has no collisions.
use emis.Base.{ℕ, ◌≡◌, refl, sym, ap, ◌∙◌, Option, none, some, List, [], ◌∷◌, ◌++◌, map, length}
use mathlib.Core.List.{append-nil}
use emis.Audit.{Hashing, AuditRow, hash_of, last_of, found_intact, verify}
use emis.Audit.Passes.{IsOrdered}
use emis.Audit.Tampering.{IsChained, last_hash, last_hash-none, verify-IsChained, IsChained-verify}

-- Different contents, or contents behind different hashes, have different hashes.
abbrev pub IsInjective : Hashing → Type 0
IsInjective h =
    (c d : h.Content) (p q : Option h.Hash)
    → h.chain_hash c p ≡ h.chain_hash d q
    → (c ≡ d) × (p ≡ q)

-- A list put in reverse in front of another.
rev_onto {ℓ} : {A : Type ℓ} → List A → List A → List A
rev_onto [] acc = acc
rev_onto (x ∷ xs) acc = rev_onto xs (x ∷ acc)

rev_onto-twice {ℓ} :
    {A : Type ℓ} (xs acc more : List A)
    → rev_onto (rev_onto xs acc) more ≡ rev_onto acc (xs ++ more)
unfolding rev_onto
rev_onto-twice [] acc more = refl
rev_onto-twice (x ∷ xs) acc more = rev_onto-twice xs (x ∷ acc) more

rev_onto-injective {ℓ} : {A : Type ℓ} (xs ys : List A) → rev_onto xs [] ≡ rev_onto ys [] → xs ≡ ys
unfolding rev_onto
rev_onto-injective xs ys e =
    sym (append-nil xs)
    ∙ sym (rev_onto-twice xs [] [])
    ∙ ap (λ l. rev_onto l []) e
    ∙ rev_onto-twice ys [] []
    ∙ append-nil ys

module _ (h : Hashing) where
  -- The hash behind contents, the latest first.
  digest : List h.Content → Option h.Hash
  digest [] = none
  digest (c ∷ cs) = some (h.chain_hash c (digest cs))

  some-≡ : {a b : h.Hash} → some a ≡ some b → a ≡ b
  some-≡ e = cc

  digest-injective : IsInjective h → (xs ys : List h.Content) → digest xs ≡ digest ys → xs ≡ ys
  unfolding digest
  digest-injective inj [] [] e = refl
  digest-injective inj [] (y ∷ ys) e = cc
  digest-injective inj (x ∷ xs) [] e = cc
  digest-injective inj (x ∷ xs) (y ∷ ys) e =
      let (same, rest) = inj x y (digest xs) (digest ys) (some-≡ e) in
      let tail = digest-injective inj xs ys rest in cc

  abbrev contents : List (AuditRow h) → List h.Content
  contents rows = map (λ (r : AuditRow h). r.content) rows

  last_hash-digest :
      (rows : List (AuditRow h)) (before : List h.Content)
      → IsChained h (digest before) rows
      → last_hash h (digest before) rows ≡ digest (rev_onto (contents rows) before)
  unfolding digest rev_onto
  last_hash-digest [] before c = refl
  last_hash-digest (r ∷ rows) before (p, q, c) =
      let same : some r.hash ≡ digest (r.content ∷ before) =
        ap some (sym q ∙ ap (h.chain_hash r.content) p) in
      ap (λ x. last_hash h x rows) same ∙ last_hash-digest rows (r.content ∷ before) (rw (← same) c)

  last_hash-contents :
      (rows : List (AuditRow h))
      → IsChained h none rows
      → hash_of h (last_of rows) ≡ digest (rev_onto (contents rows) [])
  unfolding digest
  last_hash-contents rows c = sym (last_hash-none h rows) ∙ last_hash-digest rows [] c

  -- If the hash has no collisions, two logs that `verify` finds intact and that end in the same hash
  -- hold the same entries in the same order: who knows the last hash sees every entry that was edited,
  -- removed, added or moved.
  pub verify-same_contents :
      IsInjective h
      → (rows rows' : List (AuditRow h)) (n n' : ℕ) → IsOrdered h 0 rows
      → IsOrdered h 0 rows'
      → verify h rows ≡ some (found_intact n)
      → verify h rows' ≡ some (found_intact n')
      → hash_of h (last_of rows) ≡ hash_of h (last_of rows')
      → map (λ (r : AuditRow h). r.content) rows ≡ map (λ (r : AuditRow h). r.content) rows'
  verify-same_contents inj rows rows' n n' o o' e e' same =
      let c = (verify-IsChained h rows n o e).0 in
      let c' = (verify-IsChained h rows' n' o' e').0 in
      rev_onto-injective (contents rows) (contents rows') (
        digest-injective inj (rev_onto (contents rows) []) (rev_onto (contents rows') [])
          (sym (last_hash-contents rows c) ∙ same ∙ last_hash-contents rows' c'))

  IsOrdered-front :
      (a : ℕ) (xs ys : List (AuditRow h)) → IsOrdered h a (xs ++ ys) → IsOrdered h a xs
  IsOrdered-front a [] ys o = tt
  IsOrdered-front a (r ∷ xs) ys o = (o.0, IsOrdered-front r.seq xs ys o.1)

  IsChained-front :
      (prev : Option h.Hash) (xs ys : List (AuditRow h))
      → IsChained h prev (xs ++ ys)
      → IsChained h prev xs
  IsChained-front prev [] ys c = tt
  IsChained-front prev (r ∷ xs) ys (p, q, c) = (p, q, IsChained-front (some r.hash) xs ys c)

  -- What `verify` alone does not see: the newest rows taken away.
  verify_truncated :
      (xs ys : List (AuditRow h)) (n : ℕ)
      → IsOrdered h 0 (xs ++ ys)
      → verify h (xs ++ ys) ≡ some (found_intact n)
      → verify h xs ≡ some (found_intact (length xs))
  verify_truncated xs ys n o e =
      IsChained-verify h xs (IsOrdered-front 0 xs ys o)
        (IsChained-front none xs ys (verify-IsChained h (xs ++ ys) n o e).0)
