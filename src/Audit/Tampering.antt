-- ===== src/Audit/Tampering.antt =====
-- What an intact log shows.
use emis.Base.{
  ℕ, ◌+◌, ◌<◌, ◌≡◌, refl, sym, subst, ap, ◌∙◌, true, false, Option, none, some, List, [], ◌∷◌, ◌++◌,
  arith, length, length-append, Bool-cases, inl, inr,
}
use emis.Audit.{
  Hashing, AuditRow, same_hash, hash_of, last_of, append_entry, VerifyResponse, found_intact,
  is_broken, pass, verify,
}
use emis.Audit.Passes.{IsOrdered, answer, verify-pass}

module _ (h : Hashing) where
  same_hash-≡ : (a b : Option h.Hash) → same_hash h a b ≡ true → a ≡ b
  same_hash-≡ none none e = refl
  same_hash-≡ none (some b) e = cc
  same_hash-≡ (some a) none e = cc
  same_hash-≡ (some a) (some b) e = ap some ((h.hash_eq_iff a b).0 e)

  same_hash_self : (a : Option h.Hash) → same_hash h a a ≡ true
  same_hash_self none = refl
  same_hash_self (some a) = (h.hash_eq_iff a a).1 refl

  -- Each row is chained to the one before it, and its hash is that of its content.
  abbrev pub IsChained : Option h.Hash → List (AuditRow h) → Type 0
  IsChained prev [] = Unit
  IsChained prev (r ∷ rows) =
      (r.prev_hash ≡ prev)
      × (h.chain_hash r.content r.prev_hash ≡ r.hash)
      × IsChained (some r.hash) rows

  not_broken :
      (r : AuditRow h) (prev : Option h.Hash)
      → is_broken h r prev ≡ false
      → (r.prev_hash ≡ prev) × (h.chain_hash r.content r.prev_hash ≡ r.hash)
  not_broken r prev e =
      let found = h.chain_hash r.content r.prev_hash in
      elim (Bool-cases (same_hash h r.prev_hash prev)) [
        | inr f ↦ absurd (ground arith)
        | inl t ↦ elim (Bool-cases (h.hash_eq found r.hash)) [
          | inr f ↦ absurd (ground arith)
          | inl u ↦ (same_hash-≡ r.prev_hash prev t, (h.hash_eq_iff found r.hash).0 u)
        ]
      ]

  chained_not_broken :
      (r : AuditRow h) (prev : Option h.Hash)
      → r.prev_hash ≡ prev
      → h.chain_hash r.content r.prev_hash ≡ r.hash
      → is_broken h r prev ≡ false
  chained_not_broken r prev p q =
      let same : same_hash h r.prev_hash prev ≡ true =
        subst (λ x. same_hash h r.prev_hash x ≡ true) p (same_hash_self r.prev_hash) in
      let good = (h.hash_eq_iff (h.chain_hash r.content r.prev_hash) r.hash).1 q in
      rw same (rw good refl)

  intact-IsChained :
      (rows : List (AuditRow h)) (prev : Option h.Hash) (checked after : ℕ)
      → (answer h (pass h rows prev checked after)).intact ≡ true
      → IsChained prev rows
  unfolding pass
  intact-IsChained [] prev checked after e = tt
  intact-IsChained (r ∷ rows) prev checked after e = elim (Bool-cases (is_broken h r prev)) [
    | inl t ↦ absurd (ground arith)
    | inr t ↦
        let (p, q) = not_broken r prev t in
        let rest : (answer h (pass h rows (some r.hash) (checked + 1) r.seq)).intact ≡ true =
          ground arith in
        (p, q, intact-IsChained rows (some r.hash) (checked + 1) r.seq rest)
  ]

  IsChained-intact :
      (rows : List (AuditRow h)) (prev : Option h.Hash) (checked after : ℕ)
      → IsChained prev rows
      → answer h (pass h rows prev checked after) ≡ found_intact (checked + length rows)
  unfolding pass
  IsChained-intact [] prev checked after c = ap found_intact (omega arith)
  IsChained-intact (r ∷ rows) prev checked after (p, q, c) =
      rw (chained_not_broken r prev p q)
        (IsChained-intact rows (some r.hash) (checked + 1) r.seq c ∙ ap found_intact (omega arith))

  pub verify-IsChained :
      (rows : List (AuditRow h)) (n : ℕ)
      → IsOrdered h 0 rows
      → verify h rows ≡ some (found_intact n)
      → IsChained none rows × (n ≡ length rows)
  verify-IsChained rows n o e =
      let same : answer h (pass h rows none 0 0) ≡ found_intact n =
        let p = verify-pass h rows o in ground arith in
      let chained = intact-IsChained rows none 0 0 (ap (λ (a : VerifyResponse). a.intact) same) in
      let all = IsChained-intact rows none 0 0 chained in
      (chained, omega (arith, ap (λ (a : VerifyResponse). a.checked) (sym same ∙ all)))

  pub IsChained-verify :
      (rows : List (AuditRow h))
      → IsOrdered h 0 rows
      → IsChained none rows
      → verify h rows ≡ some (found_intact (length rows))
  IsChained-verify rows o c =
      verify-pass h rows o
      ∙ ap some (IsChained-intact rows none 0 0 c ∙ ap found_intact (omega arith))

  -- The hash that the next row is chained to.
  abbrev pub last_hash : Option h.Hash → List (AuditRow h) → Option h.Hash
  last_hash prev [] = prev
  last_hash prev (r ∷ rows) = last_hash (some r.hash) rows

  last_hash-last_of :
      (r : AuditRow h) (rows : List (AuditRow h)) (prev : Option h.Hash)
      → last_hash prev (r ∷ rows) ≡ hash_of h (last_of (r ∷ rows))
  last_hash-last_of r [] prev = refl
  last_hash-last_of r (q ∷ rows) prev = last_hash-last_of q rows (some r.hash)

  pub last_hash-none : (rows : List (AuditRow h)) → last_hash none rows ≡ hash_of h (last_of rows)
  last_hash-none [] = refl
  last_hash-none (r ∷ rows) = last_hash-last_of r rows none

  IsChained-snoc :
      (rows : List (AuditRow h)) (prev : Option h.Hash) (r : AuditRow h)
      → IsChained prev rows
      → r.prev_hash ≡ last_hash prev rows
      → h.chain_hash r.content r.prev_hash ≡ r.hash
      → IsChained prev (rows ++ r ∷ [])
  IsChained-snoc [] prev r c p q = (p, q, tt)
  IsChained-snoc (s ∷ rows) prev r (a, b, c) p q = (a, b, IsChained-snoc rows (some s.hash) r c p q)

  -- The number of the last row, or 0.
  abbrev pub top_seq : List (AuditRow h) → ℕ
  top_seq [] = 0
  top_seq (r ∷ []) = r.seq
  top_seq (r ∷ q ∷ rows) = top_seq (q ∷ rows)

  IsOrdered-snoc :
      (a : ℕ) (r : AuditRow h) (rows : List (AuditRow h)) (q : AuditRow h)
      → IsOrdered h a (r ∷ rows)
      → top_seq (r ∷ rows) < q.seq
      → IsOrdered h a ((r ∷ rows) ++ q ∷ [])
  IsOrdered-snoc a r [] q o l = (o.0, (l, tt))
  IsOrdered-snoc a r (s ∷ rows) q o l = (o.0, IsOrdered-snoc r.seq s rows q o.1 l)

  IsOrdered-append :
      (rows : List (AuditRow h)) (q : AuditRow h)
      → IsOrdered h 0 rows
      → top_seq rows < q.seq
      → IsOrdered h 0 (rows ++ q ∷ [])
  IsOrdered-append [] q o l = (l, tt)
  IsOrdered-append (r ∷ rows) q o l = IsOrdered-snoc 0 r rows q o l

  -- An intact log stays intact, with one row more, when an entry is recorded: `verify` comes to an end
  -- and answers so, over a log of any length whose sequence numbers go up.
  pub verify-append_entry :
      (seq : ℕ) (content : h.Content) (rows : List (AuditRow h)) (n : ℕ)
      → IsOrdered h 0 rows
      → top_seq rows < seq
      → verify h rows ≡ some (found_intact n)
      → verify h (append_entry h seq content rows) ≡ some (found_intact (n + 1))
  unfolding append_entry
  verify-append_entry seq content rows n o l e =
      let (chained, all) = verify-IsChained rows n o e in
      let prev = hash_of h (last_of rows) in
      let row : AuditRow h = record {
        seq = seq;
        content = content;
        prev_hash = prev;
        hash = h.chain_hash content prev;
      } in
      IsChained-verify (rows ++ row ∷ []) (IsOrdered-append rows row o l)
        (IsChained-snoc rows none row chained (sym (last_hash-none rows)) refl)
      ∙ ap (λ k. some (found_intact k)) (omega (arith, length-append rows (row ∷ []), all))
