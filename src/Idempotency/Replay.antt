-- ===== src/Idempotency/Replay.antt =====
-- A repeated request gets the first response, and its work is not done again.
use text.Mathlib.TextEquality.{eq_iff}
use emis.Base.{
  ℕ, ◌+◌, ◌<◌, ◌≡◌, refl, sym, subst, ap, ◌∙◌, Bool, true, false, Option, none, some, List, Result,
  ok, err, arith, ltb, if◌then◌else◌, find_row, All, Bool-cases, inl, inr, idempotency_key_reused,
  invalid_idempotency_key,
}
use emis.Settings.Numbering.{Text}
use emis.Idempotency.{
  ttl, KeyRow, Site, Call, Reply, has_key, upsert_key, new_row, do_work, same_request, with_key,
  present, accepts_key, intercept,
}
use emis.Idempotency.Keys.{text_eq_self, find-upsert_key_self}
use emis.Idempotency.Remembering.{Event, time, after_all, Remembers, after_all-Remembers}

module _ {S B : Type 0} where
  -- What a request that was not replayed left behind.
  record IsDone (now : ℕ) (call : Call S B) (key : Text) (reply : Reply B) (s' : Site S B)
      : Type 0 where
    body : B
    same_reply : reply ≡ record { status = call.status; body = body; replayed = false }
    remembered : Remembers (new_row now call key body) s'

  do_work-IsDone :
      (now : ℕ) (call : Call S B) (key : Text) (s s' : Site S B) (reply : Reply B)
      → do_work now call key s ≡ ok (reply, s')
      → IsDone now call key reply s'
  unfolding do_work
  do_work-IsDone now call key s s' reply h = go (call.work s.tables) h
    where
      go :
          (r : Result (B × S))
          → (elim r as (λ _. Result (Reply B × Site S B)) [
            | err e ↦ err e
            | ok (body, tables) ↦ ok (
              record { status = call.status; body = body; replayed = false },
              record { tables = tables; keys = upsert_key (new_row now call key body) s.keys },
            )
          ])
            ≡ ok (reply, s')
          → IsDone now call key reply s'
      go (err e) h' = cc
      go (ok (body, tables)) h' =
          let row = new_row now call key body in
          let s1 : Site S B = record { tables = tables; keys = upsert_key row s.keys } in
          let same : s1 ≡ s' = ground arith in
          record {
            body = body;
            same_reply = ground arith;
            remembered = subst (Remembers row) same (find-upsert_key_self row s.keys);
          }

  with_key-IsDone :
      (now : ℕ) (call : Call S B) (key : Text) (s s' : Site S B) (reply : Reply B)
      → with_key now call key s ≡ ok (reply, s')
      → reply.replayed ≡ false
      → IsDone now call key reply s'
  unfolding with_key
  with_key-IsDone now call key s s' reply h fresh =
      go (find_row (has_key call.principal key) s.keys) h
    where
      answer : Option (KeyRow B) → Result (Reply B × Site S B)
      answer o = elim o [
        | none ↦ do_work now call key s
        | some stored ↦
            if ltb now stored.expires_at
            then (if same_request call stored
                then ok (
                  record {
                    status = stored.response_status;
                    body = stored.response_body;
                    replayed = true;
                  },
                  s,
                )
                else err idempotency_key_reused)
            else do_work now call key s
      ]

      go : (o : Option (KeyRow B)) → answer o ≡ ok (reply, s') → IsDone now call key reply s'
      go none h' = do_work-IsDone now call key s s' reply h'
      go (some stored) h' = elim (Bool-cases (ltb now stored.expires_at)) [
        | inr old ↦ do_work-IsDone now call key s s' reply (ground arith)
        | inl live ↦ elim (Bool-cases (same_request call stored)) [
          | inl u ↦ absurd (ground arith)
          | inr u ↦ absurd (ground arith)
        ]
      ]

  same_request_self :
      (now : ℕ) (call : Call S B) (key : Text) (body : B)
      → same_request call (new_row now call key body) ≡ true
  same_request_self now call key body =
      let m = (eq_iff call.method call.method).1 refl in
      let p = (eq_iff call.path call.path).1 refl in
      let q = text_eq_self call.request_hash in rw m (rw p q)

  intercept-with_key :
      (now : ℕ) (call : Call S B) (required : Bool) (key : Text) (s : Site S B)
      → call.options ≡ some required
      → present call.key ≡ some key
      → accepts_key call.principal key ≡ true
      → intercept now call s ≡ with_key now call key s
  unfolding intercept
  intercept-with_key now call required key s marked sent good =
      rw (marked, intercept) (rw sent (rw good refl))

  intercept-accepts :
      (now : ℕ) (call : Call S B) (required : Bool) (key : Text) (s s' : Site S B) (reply : Reply B)
      → call.options ≡ some required
      → present call.key ≡ some key
      → intercept now call s ≡ ok (reply, s')
      → accepts_key call.principal key ≡ true
  unfolding intercept
  intercept-accepts now call required key s s' reply marked sent h =
      elim (Bool-cases (accepts_key call.principal key)) [
        | inl t ↦ t
        | inr t ↦
            let refused : intercept now call s ≡ err invalid_idempotency_key =
              rw (marked, intercept) (rw sent (rw t refl)) in
            cc
      ]

  -- Once a request with a key did its work, then whatever other requests come and whenever the keys are
  -- cleaned up, the same request sent again within the time to live gets the same status and body, marked
  -- as replayed, and leaves every table as it is.
  pub intercept-replay :
      (now later : ℕ) (call : Call S B) (required : Bool) (key : Text) (s s' : Site S B)
      (reply : Reply B) (events : List (Event S B))
      → call.options ≡ some required
      → present call.key ≡ some key
      → intercept now call s ≡ ok (reply, s')
      → reply.replayed ≡ false
      → All (λ e. time e < now + ttl) events
      → later < now + ttl
      → intercept later call (after_all events s')
        ≡ ok (record reply { replayed = true }, after_all events s')
  unfolding with_key
  intercept-replay now later call required key s s' reply events marked sent h fresh early soon =
      let good = intercept-accepts now call required key s s' reply marked sent h in
      let first : with_key now call key s ≡ ok (reply, s') =
        sym (intercept-with_key now call required key s marked sent good) ∙ h in
      let done = with_key-IsDone now call key s s' reply first fresh in
      let row = new_row now call key done.body in
      let found : find_row (has_key call.principal key) (after_all events s').keys ≡ some row =
        after_all-Remembers row events s' early done.remembered in
      let live : ltb later (now + ttl) ≡ true = ground arith in
      let again : with_key later call key (after_all events s')
          ≡ ok (
            record { status = call.status; body = done.body; replayed = true },
            after_all events s',
          ) =
        rw (found, with_key) (rw live (rw (same_request_self now call key done.body) refl)) in
      let same : record { status = call.status; body = done.body; replayed = true }
          ≡ record reply { replayed = true } =
        ap (λ (r : Reply B). record r { replayed = true }) (sym done.same_reply) in
      intercept-with_key later call required key (after_all events s') marked sent good
      ∙ again
      ∙ ap (λ (r : Reply B). ok (r, after_all events s')) same
