-- ===== src/Messaging/Delivery.antt =====
-- However often an event is delivered, each of its handlers does its work once.
use text.Mathlib.Text.{◌==◌ as str_eq}
use text.Mathlib.TextEquality.{eq_iff}
use emis.Base.{
  ℕ, ◌≡◌, ◌⊎◌, inl, inr, refl, sym, subst, ap, ◌∙◌, String, Bool, true, false, ◌&&◌, some, List, [],
  ◌∷◌, Result, ok, err, arith, ◌==◌, Failure, any-append, select, Bool-cases,
}
use emis.Messaging.{
  ProcessedRow, DomainEvent, Inbox, EventHandler, Dispatched, is_processed, marked, run_handler,
  count, dispatch_each, for_event, deliver,
}

module _ {S : Type 0} (event : DomainEvent) where
  -- From s to t, each handler in turn was skipped, since it had handled the event, or had not and did
  -- its work once, in some attempt.
  abbrev pub EachOnce : List (EventHandler S) → Inbox S → Inbox S → Type 0
  EachOnce [] s t = s ≡ t
  EachOnce (h ∷ handlers) s t =
      ((is_processed h.name event.id s.processed ≡ true) × EachOnce handlers s t)
      ⊎ ((attempt : ℕ) × (tables : S) × (is_processed h.name event.id s.processed ≡ false)
          × (h.handle attempt event s.tables ≡ ok tables)
          × EachOnce handlers (marked h.name event.id tables s) t)

  abbrev Knows : String → Inbox S → Type 0
  Knows name s = is_processed name event.id s.processed ≡ true

  marked-Knows :
      (name other : String) (tables : S) (s : Inbox S)
      → Knows other s
      → Knows other (marked name event.id tables s)
  marked-Knows name other tables s k = ground (
    arith,
    any-append (λ (r : ProcessedRow). str_eq r.consumer other && (r.event_id == event.id))
        s.processed (record { consumer = name; event_id = event.id } ∷ []),
  )

  marked-Knows_self :
      (name : String) (tables : S) (s : Inbox S) → Knows name (marked name event.id tables s)
  marked-Knows_self name tables s = ground (
    arith,
    any-append (λ (r : ProcessedRow). str_eq r.consumer name && (r.event_id == event.id))
        s.processed (record { consumer = name; event_id = event.id } ∷ []),
    eq_iff name name,
  )

  -- What a handler's transaction came to.
  data Outcome (attempt : ℕ) (h : EventHandler S) (s : Inbox S) : Type 0 where
    skipped :
        is_processed h.name event.id s.processed ≡ true
        → run_handler attempt event h s ≡ ok (false, s)
        → Outcome attempt h s
    failed :
        (e : Failure)
        → is_processed h.name event.id s.processed ≡ false
        → run_handler attempt event h s ≡ err e
        → Outcome attempt h s
    ran :
        (tables : S)
        → is_processed h.name event.id s.processed ≡ false
        → h.handle attempt event s.tables ≡ ok tables
        → run_handler attempt event h s ≡ ok (true, marked h.name event.id tables s)
        → Outcome attempt h s

  outcome : (attempt : ℕ) (h : EventHandler S) (s : Inbox S) → Outcome attempt h s
  unfolding run_handler
  outcome attempt h s = elim (Bool-cases (is_processed h.name event.id s.processed)) [
    | inl t ↦ skipped t (rw t refl)
    | inr t ↦ go t (h.handle attempt event s.tables) refl
  ]
    where
      go :
          is_processed h.name event.id s.processed ≡ false
          → (r : Result S) → h.handle attempt event s.tables ≡ r
          → Outcome attempt h s
      go t (ok tables) e = ran tables t e (rw t (rw (e, run_handler) refl))
      go t (err x) e = failed x t (rw t (rw (e, run_handler) refl))

  dispatch_each-nil :
      (attempt : ℕ) (d : Dispatched) (s : Inbox S) → dispatch_each attempt event [] d s ≡ (ok d, s)
  unfolding dispatch_each
  dispatch_each-nil attempt d s = refl

  dispatch_each-step :
      (attempt : ℕ) (h : EventHandler S) (handlers : List (EventHandler S)) (d : Dispatched)
      (s s' : Inbox S) (b : Bool)
      → run_handler attempt event h s ≡ ok (b, s')
      → dispatch_each attempt event (h ∷ handlers) d s
        ≡ dispatch_each attempt event handlers (count b d) s'
  unfolding dispatch_each
  dispatch_each-step attempt h handlers d s s' b e = rw (e, dispatch_each) refl

  dispatch_each-fail :
      (attempt : ℕ) (h : EventHandler S) (handlers : List (EventHandler S)) (d : Dispatched)
      (s : Inbox S) (e : Failure)
      → run_handler attempt event h s ≡ err e
      → dispatch_each attempt event (h ∷ handlers) d s ≡ (err e, s)
  unfolding dispatch_each
  dispatch_each-fail attempt h handlers d s e q = rw (q, dispatch_each) refl

  -- A row of processed_events stays through a dispatch, whatever its answer.
  dispatch_each-Knows :
      (attempt : ℕ) (handlers : List (EventHandler S)) (d : Dispatched) (s : Inbox S)
      (name : String)
      → Knows name s
      → Knows name (dispatch_each attempt event handlers d s).1
  dispatch_each-Knows attempt [] d s name k = unfold dispatch_each in k
  dispatch_each-Knows attempt (h ∷ handlers) d s name k = elim (outcome attempt h s) [
    | skipped p e ↦
        rw (dispatch_each-step attempt h handlers d s s false e)
          (dispatch_each-Knows attempt handlers (count false d) s name k)
    | failed x p e ↦ rw (dispatch_each-fail attempt h handlers d s x e) k
    | ran tables p w e ↦
        let s' = marked h.name event.id tables s in
        rw (dispatch_each-step attempt h handlers d s s' true e) (
          dispatch_each-Knows attempt handlers (count true d) s' name
            (marked-Knows h.name name tables s k))
  ]

  -- A dispatch that goes through ran each handler, or skipped it.
  dispatch_each-EachOnce :
      (attempt : ℕ) (handlers : List (EventHandler S)) (d d' : Dispatched) (s t : Inbox S)
      → dispatch_each attempt event handlers d s ≡ (ok d', t)
      → EachOnce handlers s t
  dispatch_each-EachOnce attempt [] d d' s t q = unfold dispatch_each in ground arith
  dispatch_each-EachOnce attempt (h ∷ handlers) d d' s t q = elim (outcome attempt h s) [
    | skipped p e ↦ inl (
      p,
      dispatch_each-EachOnce attempt handlers (count false d) d' s t
          (sym (dispatch_each-step attempt h handlers d s s false e) ∙ q),
    )
    | failed x p e ↦
        let stop = dispatch_each-fail attempt h handlers d s x e in absurd (ground arith)
    | ran tables p w e ↦
        let s' = marked h.name event.id tables s in
        inr (
          attempt,
          tables,
          p,
          w,
          dispatch_each-EachOnce attempt handlers (count true d) d' s' t
              (sym (dispatch_each-step attempt h handlers d s s' true e) ∙ q),
        )
  ]

  -- A handler that is known to have handled the event was skipped.
  EachOnce-skipped :
      (h : EventHandler S) (handlers : List (EventHandler S)) (s t : Inbox S)
      → Knows h.name s
      → EachOnce (h ∷ handlers) s t
      → EachOnce handlers s t
  EachOnce-skipped h handlers s t k (inl (p, rest)) = rest
  EachOnce-skipped h handlers s t k (inr (attempt, tables, p, w, rest)) = absurd (ground arith)

  -- What a failed dispatch did counts: what is done from there was done from the start.
  dispatch_each-retry :
      (attempt : ℕ) (handlers : List (EventHandler S)) (d : Dispatched) (s s1 t : Inbox S)
      (e : Failure)
      → dispatch_each attempt event handlers d s ≡ (err e, s1)
      → EachOnce handlers s1 t
      → EachOnce handlers s t
  dispatch_each-retry attempt [] d s s1 t e q r =
      let wrong : ok d ≡ err e =
        ap (λ (x : Result Dispatched × Inbox S). x.0) (sym (dispatch_each-nil attempt d s) ∙ q) in
      cc
  dispatch_each-retry attempt (h ∷ handlers) d s s1 t e q r = elim (outcome attempt h s) [
    | failed x p f ↦
        let same : s ≡ s1 =
          ap (λ (x : Result Dispatched × Inbox S). x.1)
            (sym (dispatch_each-fail attempt h handlers d s x f) ∙ q) in
        subst (λ u. EachOnce (h ∷ handlers) u t) (sym same) r
    | skipped p f ↦
        let rest = sym (dispatch_each-step attempt h handlers d s s false f) ∙ q in
        let known : Knows h.name s1 =
          subst (λ (x : Result Dispatched × Inbox S). Knows h.name x.1) rest
            (dispatch_each-Knows attempt handlers (count false d) s h.name p) in
        inl (
          p,
          dispatch_each-retry attempt handlers (count false d) s s1 t e rest
              (EachOnce-skipped h handlers s1 t known r),
        )
    | ran tables p w f ↦
        let s' = marked h.name event.id tables s in
        let rest = sym (dispatch_each-step attempt h handlers d s s' true f) ∙ q in
        let known : Knows h.name s1 =
          subst (λ (x : Result Dispatched × Inbox S). Knows h.name x.1) rest
            (dispatch_each-Knows attempt handlers (count true d) s' h.name
              (marked-Knows_self h.name tables s)) in
        inr (
          attempt,
          tables,
          p,
          w,
          dispatch_each-retry attempt handlers (count true d) s' s1 t e rest
              (EachOnce-skipped h handlers s1 t known r),
        )
  ]

  -- However many attempts a delivery takes, and wherever they fail on the way, once it goes through the
  -- tables are as if every handler of the event had been taken in turn, once: skipped, if it had handled
  -- the event before, or else its work done in one attempt, and its row of processed_events written.
  pub deliver-EachOnce :
      (attempts : List ℕ) (handlers : List (EventHandler S)) (s t : Inbox S)
      → deliver attempts event handlers s ≡ some t
      → EachOnce (select (for_event event) handlers) s t
  unfolding deliver
  deliver-EachOnce [] handlers s t q = cc
  deliver-EachOnce (attempt ∷ attempts) handlers s t q =
      go (λ s1 q'. deliver-EachOnce attempts handlers s1 t q')
        (dispatch_each attempt event mine none_yet s) refl q
    where
      mine : List (EventHandler S)
      mine = select (for_event event) handlers

      none_yet : Dispatched
      none_yet = record { handled = 0; skipped = 0 }

      go :
          ((s1 : Inbox S) → deliver attempts event handlers s1 ≡ some t → EachOnce mine s1 t)
          → (r : Result Dispatched × Inbox S) → dispatch_each attempt event mine none_yet s ≡ r
          → (elim r.0 [ ok d ↦ some r.1 | err e ↦ deliver attempts event handlers r.1 ]) ≡ some t
          → EachOnce mine s t
      go ih (ok d, s1) e q' =
          let same : s1 ≡ t = ground arith in
          subst (EachOnce mine s) same (dispatch_each-EachOnce attempt mine none_yet d s s1 e)
      go ih (err x, s1) e q' = dispatch_each-retry attempt mine none_yet s s1 t x e (ih s1 q')
