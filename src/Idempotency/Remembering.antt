-- ===== src/Idempotency/Remembering.antt =====
-- What keeps the row of a key: any other request, and any clean-up before it expires.
use emis.Base.{
  ℕ, ◌<◌, ◌≡◌, ap, ◌∙◌, true, false, not, ◌&&◌, Option, some, List, [], ◌∷◌, Result, ok, err, arith,
  ltb, find_row, All, Bool-cases, Option-cases, inl, inr,
}
use emis.Settings.Numbering.{Text, text_eq}
use emis.Idempotency.{
  KeyRow, Site, Call, Reply, same_principal, has_key, upsert_key, new_row, do_work, same_request,
  with_key, present, accepts_key, as_usual, intercept, purge_keys,
}
use emis.Idempotency.Keys.{find_row-select, has_key-≡, find-upsert_key_other}

-- What can happen at a site: a request, or the clean-up of the keys, each at a time.
pub data Event (S B : Type 0) : Type 0 where
  request : ℕ → Call S B → Event S B
  purge : ℕ → Event S B

module _ {S B : Type 0} where
  abbrev pub time : Event S B → ℕ
  time (request now call) = now
  time (purge now) = now

  -- What fails changes nothing.
  abbrev kept : Site S B → Result (Reply B × Site S B) → Site S B
  kept s (ok (reply, s')) = s'
  kept s (err e) = s

  abbrev after : Event S B → Site S B → Site S B
  after (request now call) s = kept s (intercept now call s)
  after (purge now) s = purge_keys now s

  abbrev pub after_all : List (Event S B) → Site S B → Site S B
  after_all [] s = s
  after_all (e ∷ events) s = after_all events (after e s)

  abbrev pub Remembers : KeyRow B → Site S B → Type 0
  Remembers row s = find_row (has_key row.principal row.key) s.keys ≡ some row

  do_work-Remembers :
      (row : KeyRow B) (now : ℕ) (call : Call S B) (key : Text) (s : Site S B)
      → (same_principal call.principal row.principal && text_eq key row.key) ≡ false
      → Remembers row s
      → Remembers row (kept s (do_work now call key s))
  unfolding do_work
  do_work-Remembers row now call key s n m = go (call.work s.tables)
    where
      worked : Result (B × S) → Result (Reply B × Site S B)
      worked r = elim r [
        | err e ↦ err e
        | ok (body, tables) ↦ ok (
          record { status = call.status; body = body; replayed = false },
          record { tables = tables; keys = upsert_key (new_row now call key body) s.keys },
        )
      ]

      go : (r : Result (B × S)) → Remembers row (kept s (worked r))
      go (err e) = m
      go (ok (body, tables)) =
          find-upsert_key_other row.principal row.key (new_row now call key body) s.keys n ∙ m

  with_key-Remembers :
      (row : KeyRow B) (now : ℕ) (call : Call S B) (key : Text) (s : Site S B)
      → now < row.expires_at
      → Remembers row s
      → Remembers row (kept s (with_key now call key s))
  unfolding with_key
  with_key-Remembers row now call key s l m =
      elim (Bool-cases (same_principal call.principal row.principal && text_eq key row.key)) [
        | inl t ↦
            let (same_p, same_k) =
              has_key-≡ row.principal row.key (record row { principal = call.principal; key = key })
                t in
            let found : find_row (has_key call.principal key) s.keys ≡ some row =
              ap (λ (x : Option ℕ × Text). find_row (has_key x.0 x.1) s.keys) (cc) ∙ m in
            let live : ltb now row.expires_at ≡ true = ground arith in
            elim (Bool-cases (same_request call row)) [
              | inl u ↦ rw (found, with_key) (rw live (rw u m))
              | inr u ↦ rw (found, with_key) (rw live (rw u m))
            ]
        | inr t ↦ elim (Option-cases (find_row (has_key call.principal key) s.keys)) [
          | inl none_yet ↦ rw (none_yet, with_key) (do_work-Remembers row now call key s t m)
          | inr (stored, found) ↦ elim (Bool-cases (ltb now stored.expires_at)) [
            | inr old ↦ rw (found, with_key) (rw old (do_work-Remembers row now call key s t m))
            | inl live ↦ elim (Bool-cases (same_request call stored)) [
              | inl u ↦ rw (found, with_key) (rw live (rw u m))
              | inr u ↦ rw (found, with_key) (rw live (rw u m))
            ]
          ]
        ]
      ]

  as_usual-Remembers :
      (row : KeyRow B) (call : Call S B) (s : Site S B)
      → Remembers row s
      → Remembers row (kept s (as_usual call s))
  as_usual-Remembers row call s m = go (call.work s.tables)
    where
      worked : Result (B × S) → Result (Reply B × Site S B)
      worked r = elim r [
        | err e ↦ err e
        | ok (body, tables) ↦ ok (
          record { status = call.status; body = body; replayed = false },
          record s { tables = tables },
        )
      ]

      go : (r : Result (B × S)) → Remembers row (kept s (worked r))
      go (err e) = m
      go (ok (body, tables)) = m

  intercept-Remembers :
      (row : KeyRow B) (now : ℕ) (call : Call S B) (s : Site S B)
      → now < row.expires_at
      → Remembers row s
      → Remembers row (kept s (intercept now call s))
  unfolding intercept
  intercept-Remembers row now call s l m = elim (Option-cases call.options) [
    | inl plain ↦ rw (plain, intercept) (as_usual-Remembers row call s m)
    | inr (required, marked) ↦ elim (Option-cases (present call.key)) [
      | inl missing ↦ elim (Bool-cases required) [
        | inl t ↦ rw (marked, intercept) (rw missing (rw t m))
        | inr t ↦ rw (marked, intercept) (rw missing (rw t (as_usual-Remembers row call s m)))
      ]
      | inr (key, sent) ↦ elim (Bool-cases (accepts_key call.principal key)) [
        | inl t ↦
            rw (marked, intercept) (rw sent (rw t (with_key-Remembers row now call key s l m)))
        | inr t ↦ rw (marked, intercept) (rw sent (rw t m))
      ]
    ]
  ]

  pub after_all-Remembers :
      (row : KeyRow B) (events : List (Event S B)) (s : Site S B)
      → All (λ e. time e < row.expires_at) events
      → Remembers row s
      → Remembers row (after_all events s)
  after_all-Remembers row [] s l m = m
  after_all-Remembers row (request now call ∷ events) s l m =
      after_all-Remembers row events (kept s (intercept now call s)) l.1
        (intercept-Remembers row now call s l.0 m)
  after_all-Remembers row (purge now ∷ events) s l m =
      let early = l.0 in
      after_all-Remembers row events (purge_keys now s) l.1 (
        find_row-select (has_key row.principal row.key) (λ r. not (ltb r.expires_at now)) s.keys m
          (ground arith))
