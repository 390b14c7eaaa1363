-- ===== src/Messaging/Settled.antt =====
-- An event whose batch committed and whose job is gone is not queued again.
use emis.Base.{
  ℕ, ◌≡◌, refl, Bool, true, false, not, ◌&&◌, some, List, [], ◌∷◌, map, arith, ◌==◌, is_some,
  select, All, All-append, All-update_where, Bool-cases, inl, inr,
}
use emis.Messaging.{
  OutboxRow, Job, Outbox, publish, is_pending, claimed, job_of, has_job, add_bulk, is_among,
  relay_batch,
}
use emis.Messaging.Relaying.{
  claimed-All, has_job-add_bulk, Move, publishes, relays, removes, move, moves,
}

-- The event is marked as published, and the queue has no job of it.
pub record IsSettled (k : ℕ) (o : Outbox) : Type 0 where
  pub sent : All (λ (r : OutboxRow). r.id ≡ k → is_some r.published_at ≡ true) o.events
  pub gone : has_job k o.queue ≡ false

abbrev pub is_publishing : ℕ → Move → Bool
is_publishing k (publishes id type_name at) = id == k
is_publishing k (relays now locked commits) = false
is_publishing k (removes id) = false

module _ (k : ℕ) where
  unclaimed :
      (now : ℕ) (locked : ℕ → Bool) (events : List OutboxRow)
      → All (λ (r : OutboxRow). r.id ≡ k → is_some r.published_at ≡ true) events
      → All
          (λ (r : OutboxRow). (r.id == k) ≡ false)
          (select (λ (r : OutboxRow). is_pending now r && not (locked r.id)) events)
  unclaimed now locked [] h = tt
  unclaimed now locked (r ∷ events) h = elim (Bool-cases (is_pending now r && not (locked r.id))) [
    | inr t ↦ rw t (unclaimed now locked events h.1)
    | inl t ↦ rw t (elim (Bool-cases (r.id == k)) [
      | inl u ↦ let sent = h.0 (ground arith) in absurd (ground arith)
      | inr u ↦ (u, unclaimed now locked events h.1)
    ])
  ]

  unqueued :
      (rows : List OutboxRow)
      → All (λ (r : OutboxRow). (r.id == k) ≡ false) rows
      → has_job k (map job_of rows) ≡ false
  unqueued [] h = refl
  unqueued (r ∷ rows) h = ground (arith, unqueued rows h.1)

  relay_batch-IsSettled :
      (now : ℕ) (locked : ℕ → Bool) (commits : Bool) (o : Outbox)
      → IsSettled k o
      → IsSettled k (relay_batch now locked commits o).1
  unfolding relay_batch
  relay_batch-IsSettled now locked commits o w = both commits
    where
      rows : List OutboxRow
      rows = claimed now locked o.events

      mark : OutboxRow → OutboxRow
      mark r = record r { published_at = some now }

      gone : has_job k (add_bulk (map job_of rows) o.queue) ≡ false
      gone =
          let others =
            claimed-All (λ r. (r.id == k) ≡ false) now locked o.events
              (unclaimed now locked o.events w.sent) in
          let new = unqueued rows others in
          let old = w.gone in ground (arith, has_job-add_bulk k (map job_of rows) o.queue)

      both : (b : Bool) → IsSettled k (relay_batch now locked b o).1
      both false = record { sent = w.sent; gone = gone }
      both true = record {
        sent = All-update_where (is_among rows) mark (λ r h e. refl) o.events w.sent;
        gone = gone;
      }

  remaining :
      (id : ℕ) (queue : List Job)
      → has_job k queue ≡ false
      → has_job k (select (λ (j : Job). not (j.id == id)) queue) ≡ false
  remaining id [] h = refl
  remaining id (j ∷ queue) h = elim (Bool-cases (j.id == id)) [
    | inl t ↦ rw t (remaining id queue (ground arith))
    | inr t ↦ rw t (let rest = remaining id queue (ground arith) in ground arith)
  ]

  move-IsSettled :
      (m : Move) (o : Outbox) → is_publishing k m ≡ false → IsSettled k o → IsSettled k (move m o)
  unfolding publish
  move-IsSettled (publishes id type_name at) o other w = record {
    sent = All-append _ o.events (_ ∷ []) w.sent ((λ e. absurd (ground arith)), tt);
    gone = w.gone;
  }
  move-IsSettled (relays now locked commits) o other w =
      relay_batch-IsSettled now locked commits o w
  move-IsSettled (removes id) o other w = record {
    sent = w.sent;
    gone = remaining id o.queue w.gone;
  }

-- Once the batch of an event has committed and its job is gone from the queue, the event stays marked as
-- published and is never queued again, whatever other events are published, and whatever batches are
-- relayed or die.
pub moves-IsSettled :
    (k : ℕ) (more : List Move) (o : Outbox)
    → All (λ (m : Move). is_publishing k m ≡ false) more
    → IsSettled k o
    → IsSettled k (moves more o)
moves-IsSettled k [] o others w = w
moves-IsSettled k (m ∷ more) o others w =
    moves-IsSettled k more (move m o) others.1 (move-IsSettled k m o others.0 w)
