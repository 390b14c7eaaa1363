-- ===== src/Messaging.antt =====
-- Events: `OutboxService.publish`, `OutboxRelay.relayBatch` and `EventDispatcher.dispatch`
-- (apps/api/src/messaging). A handler's work is a parameter, a transaction on the other tables; the job
-- queue is a library, of which the relay uses that a job with an id that it holds is not added again.
pub mod Delivery
pub mod Relaying
pub mod Settled
mod Tests
use text.Mathlib.Text.{◌==◌ as str_eq}
use emis.Base.{
  ℕ, ◌+◌, ◌*◌, String, Bool, true, false, not, ◌&&◌, Option, none, some, List, [], ◌∷◌, ◌++◌, map,
  Result, ok, err, leb, ◌==◌, if◌then◌else◌, any, is_some, length, select, update_where, sort_by,
  take, Failure,
}

-- processed_events: which consumer has handled which event
pub record ProcessedRow : Type 0 where
  pub consumer : String
  pub event_id : ℕ

-- What a handler is given of an event: its id and its type (the payload is what the handler reads).
pub record DomainEvent : Type 0 where
  pub id : ℕ
  pub type_name : String

-- The tables that handlers work on, and processed_events.
pub record Inbox (S : Type 0) : Type 0 where
  pub tables : S
  pub processed : List ProcessedRow

-- A handler. What it does may depend on the attempt, since it can fail for reasons outside.
pub record EventHandler (S : Type 0) : Type 0 where
  pub name : String
  pub event_type : String
  pub handle : ℕ → DomainEvent → S → Result S

pub record Dispatched : Type 0 where
  pub handled : ℕ
  pub skipped : ℕ

abbrev pub is_processed : String → ℕ → List ProcessedRow → Bool
is_processed consumer event_id =
    any (λ (r : ProcessedRow). str_eq r.consumer consumer && (r.event_id == event_id))

abbrev pub count : Bool → Dispatched → Dispatched
count ran d =
    if ran then record d { handled = d.handled + 1 } else record d { skipped = d.skipped + 1 }

module _ {S : Type 0} where
  -- The inbox with a handler's row, and its work.
  abbrev pub marked : String → ℕ → S → Inbox S → Inbox S
  marked name event_id tables s = record {
    tables = tables;
    processed = s.processed ++ record { consumer = name; event_id = event_id } ∷ [];
  }

  -- One handler's transaction: the inbox row is inserted, unless it is there, and the handler runs.
  -- True is `ran`.
  unfoldable pub run_handler : ℕ → DomainEvent → EventHandler S → Inbox S → Result (Bool × Inbox S)
  run_handler attempt event h s =
      if is_processed h.name event.id s.processed
      then ok (false, s)
      else elim (h.handle attempt event s.tables) [
        | err e ↦ err e
        | ok tables ↦ ok (true, marked h.name event.id tables s)
      ]

  -- The loop over the handlers. Each handler's transaction stands, also where a later one fails.
  unfoldable pub dispatch_each :
      ℕ → DomainEvent → List (EventHandler S) → Dispatched → Inbox S → Result Dispatched × Inbox S
  unfolding run_handler
  dispatch_each attempt event [] d s = (ok d, s)
  dispatch_each attempt event (h ∷ handlers) d s = elim (run_handler attempt event h s) [
    | err e ↦ (err e, s)
    | ok (ran, s') ↦ dispatch_each attempt event handlers (count ran d) s'
  ]

  abbrev pub for_event : DomainEvent → EventHandler S → Bool
  for_event event h = str_eq h.event_type event.type_name

  unfoldable pub dispatch :
      ℕ → DomainEvent → List (EventHandler S) → Inbox S → Result Dispatched × Inbox S
  unfolding dispatch_each
  dispatch attempt event handlers s =
      dispatch_each attempt event (select (for_event event) handlers)
        (record { handled = 0; skipped = 0 }) s

  -- `EventConsumer`, whose failed jobs are tried again: an event is dispatched until an attempt goes
  -- through; none where the attempts are used up. Each attempt is a number, which handlers may go by.
  unfoldable pub deliver : List ℕ → DomainEvent → List (EventHandler S) → Inbox S → Option (Inbox S)
  unfolding dispatch
  deliver [] event handlers s = none
  deliver (attempt ∷ attempts) event handlers s =
      let (answer, s') = dispatch attempt event handlers s in
      let again = deliver attempts event handlers s' in
      elim answer [ ok d ↦ some s' | err e ↦ again ]

pub record OutboxRow : Type 0 where
  pub id : ℕ
  pub type_name : String
  pub available_at : ℕ
  pub published_at : Option ℕ

-- A job as `relayBatch` adds it, with the options that bear on its life: how often it is tried, and for
-- how many seconds (and, of completed ones, for how many jobs) the queue keeps it once it is done.
pub record Job : Type 0 where
  pub id : ℕ
  pub name : String
  pub attempts : ℕ
  pub complete_age : ℕ
  pub complete_count : ℕ
  pub fail_age : ℕ

-- outbox_events, the jobs that the queue holds, and those that it held once and has removed.
pub record Outbox : Type 0 where
  pub events : List OutboxRow
  pub queue : List Job
  pub removed : List Job

-- `publish`, in the transaction of the change that the event tells of: a transaction that throws leaves
-- no event. The id is the one that the database generates.
unfoldable pub publish : ℕ → String → ℕ → Outbox → Outbox
publish id type_name available_at o = record o {
  events =
      o.events
      ++ record { id = id; type_name = type_name; available_at = available_at; published_at = none }
        ∷ [];
}

abbrev pub is_pending : ℕ → OutboxRow → Bool
is_pending now r = not (is_some r.published_at) && leb r.available_at now

abbrev pub by_id : OutboxRow → OutboxRow → Bool
by_id a b = leb a.id b.id

-- BATCH_SIZE
abbrev pub batch_size : ℕ
batch_size = 100

-- The rows that a batch claims: pending ones, but for those that another worker has locked.
unfoldable pub claimed : ℕ → (ℕ → Bool) → List OutboxRow → List OutboxRow
unfolding sort_by
claimed now locked events =
    take batch_size
      (sort_by by_id (select (λ (r : OutboxRow). is_pending now r && not (locked r.id)) events))

abbrev pub job_of : OutboxRow → Job
job_of r = record {
  id = r.id;
  name = r.type_name;
  attempts = 8;
  complete_age = 24 * 3600;
  complete_count = 10000;
  fail_age = 7 * 24 * 3600;
}

abbrev pub has_job : ℕ → List Job → Bool
has_job id jobs = any (λ (j : Job). j.id == id) jobs

-- `addBulk`: the event's id is the job's id. An id that the queue holds is not added again; one that it
-- held and has removed is.
unfoldable pub add_bulk : List Job → List Job → List Job
add_bulk [] queue = queue
add_bulk (job ∷ jobs) queue =
    add_bulk jobs (if has_job job.id queue then queue else queue ++ job ∷ [])

-- The queue removes a job that is done, by `removeOnComplete` and `removeOnFail`. When it is done and its
-- time is over, is the queue's to say: any job that it holds may go at any time.
abbrev pub remove_job : ℕ → Outbox → Outbox
remove_job id o = record o {
  queue = select (λ (j : Job). not (j.id == id)) o.queue;
  removed = o.removed ++ select (λ (j : Job). j.id == id) o.queue;
}

abbrev pub is_among : List OutboxRow → OutboxRow → Bool
is_among rows r = any (λ (c : OutboxRow). c.id == r.id) rows

-- `relayBatch`. The jobs are added before the transaction commits; where it does not (`commits` is
-- false), they stay in the queue and the rows stay pending. An empty batch adds and changes nothing.
unfoldable pub relay_batch : ℕ → (ℕ → Bool) → Bool → Outbox → ℕ × Outbox
unfolding claimed add_bulk
relay_batch now locked commits o =
    let rows = claimed now locked o.events in
    (
      if commits then length rows else 0,
      record o {
        events =
            if commits
            then update_where (is_among rows)
                (λ (r : OutboxRow). record r { published_at = some now }) o.events
            else o.events;
        queue = add_bulk (map job_of rows) o.queue;
      },
    )
