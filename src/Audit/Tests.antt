-- ===== src/Audit/Tests.antt =====
-- A small log, with contents that are numbers and a hash that keeps all that it covers.
use emis.Base.{
  ℕ, ◌+◌, ◌≡◌, refl, ap, Bool, true, false, Option, none, some, List, [], ◌∷◌, map, arith, ◌==◌,
  ◌&&◌,
}
use emis.Audit.{Hashing, AuditRow, append_entry, found_intact, verify}
use emis.Audit.Tampering.{verify-append_entry}
use emis.Audit.Detecting.{verify-same_contents}

data Trail : Type 0 where
  alone : ℕ → Trail
  behind : ℕ → Trail → Trail

abbrev same_trail : Trail → Trail → Bool
same_trail (alone a) (alone b) = a == b
same_trail (alone a) (behind b t) = false
same_trail (behind a s) (alone b) = false
same_trail (behind a s) (behind b t) = (a == b) && same_trail s t

same_trail-≡ : (s t : Trail) → same_trail s t ≡ true → s ≡ t
same_trail-≡ (alone a) (alone b) e = ap alone (ground arith)
same_trail-≡ (alone a) (behind b t) e = cc
same_trail-≡ (behind a s) (alone b) e = cc
same_trail-≡ (behind a s) (behind b t) e = ground (arith, same_trail-≡ s t)

same_trail_self : (s : Trail) → same_trail s s ≡ true
same_trail_self (alone a) = ground arith
same_trail_self (behind a s) = ground (arith, same_trail_self s)

same_trail_iff : (s t : Trail) → (same_trail s t ≡ true → s ≡ t) × (s ≡ t → same_trail s t ≡ true)
same_trail_iff s t = (same_trail-≡ s t, (λ e. rw e (same_trail_self t)))

abbrev chain : ℕ → Option Trail → Trail
chain c none = alone c
chain c (some t) = behind c t

chain-injective : (c d : ℕ) (p q : Option Trail) → chain c p ≡ chain d q → (c ≡ d) × (p ≡ q)
chain-injective c d none none e = (cc, refl)
chain-injective c d none (some t) e = cc
chain-injective c d (some s) none e = cc
chain-injective c d (some s) (some t) e = (cc, cc)

abbrev trails : Hashing
trails = record {
  Content = ℕ;
  Hash = Trail;
  hash_eq = same_trail;
  hash_eq_iff = same_trail_iff;
  chain_hash = chain;
}

abbrev one : List (AuditRow trails)
one = record { seq = 1; content = 5; prev_hash = none; hash = alone 5 } ∷ []

abbrev two : List (AuditRow trails)
two =
    record { seq = 1; content = 5; prev_hash = none; hash = alone 5 }
    ∷ record { seq = 4; content = 6; prev_hash = some (alone 5); hash = behind 6 (alone 5) }
    ∷ []

appended : append_entry trails 4 6 one ≡ two
unfolding append_entry
appended = refl

one_intact : verify trails one ≡ some (found_intact 1)
unfolding verify
one_intact = refl

two_intact : verify trails two ≡ some (found_intact 2)
unfolding verify
two_intact = refl

-- The first entry edited, its hash with it: the second one no longer fits.
edited_seen :
    verify trails (
      record { seq = 1; content = 7; prev_hash = none; hash = alone 7 }
      ∷ record { seq = 4; content = 6; prev_hash = some (alone 5); hash = behind 6 (alone 5) }
      ∷ [])
    ≡ some (record { intact = false; checked = 1; broken_at_seq = some 4 })
unfolding verify
edited_seen = refl

verify-append_entry_example :
    verify trails (append_entry trails 4 6 one) ≡ some (found_intact (1 + 1))
verify-append_entry_example =
    verify-append_entry trails 4 6 one 1 (omega arith, tt) (omega arith) one_intact

-- The same log, its rows numbered otherwise.
abbrev renumbered : List (AuditRow trails)
renumbered =
    record { seq = 2; content = 5; prev_hash = none; hash = alone 5 }
    ∷ record { seq = 3; content = 6; prev_hash = some (alone 5); hash = behind 6 (alone 5) }
    ∷ []

renumbered_intact : verify trails renumbered ≡ some (found_intact 2)
unfolding verify
renumbered_intact = refl

verify-same_contents_example :
    map (λ (r : AuditRow trails). r.content) two
    ≡ map (λ (r : AuditRow trails). r.content) renumbered
verify-same_contents_example =
    verify-same_contents trails chain-injective two renumbered 2 2 (omega arith, (omega arith, tt))
      (omega arith, (omega arith, tt)) two_intact renumbered_intact refl
