-- ===== src/Messaging/Relaying.antt =====
-- No event is lost on the way to the queue, none is queued without its row, and none that was relayed is
-- queued again once its job is gone.
use emis.Base.{
  ℕ, zero, suc, ◌≡◌, refl, subst, ap, ◌∙◌, String, Bool, true, false, not, ◌&&◌, ◌||◌, none, some,
  List, [], ◌∷◌, ◌++◌, arith, map, ◌==◌, ==-self, ==_iff, if◌then◌else◌, is_some, any, any-append,
  any-update_where, take, select, select-All, sort_by, sort_by-All, update_where, All, All-append,
  All-imp, All-update_met, All-map, Distinct, Lacks, Distinct-snoc, Distinct-select, Bool-cases,
  inl, inr,
}
use emis.Messaging.{
  OutboxRow, Job, Outbox, publish, is_pending, by_id, batch_size, claimed, job_of, has_job,
  add_bulk, remove_job, is_among, relay_batch,
}

abbrev has_event : ℕ → List OutboxRow → Bool
has_event id events = any (λ (r : OutboxRow). r.id == id) events

pub record IsRelayed (o : Outbox) : Type 0 where
  -- the queue holds no two jobs of one event
  pub once : Distinct (λ (j : Job). j.id) o.queue
  -- an event that is marked as published has its job in the queue, or had it there until it was done
  pub sent :
      All
        (λ (r : OutboxRow).
          is_some r.published_at ≡ true → (has_job r.id o.queue || has_job r.id o.removed) ≡ true)
        o.events
  -- a job, also one that is gone, is of an event that was published in a transaction that committed
  pub known : All (λ (j : Job). has_event j.id o.events ≡ true) o.queue
  pub known_removed : All (λ (j : Job). has_event j.id o.events ≡ true) o.removed

abbrev add_job : Job → List Job → List Job
add_job job queue = if has_job job.id queue then queue else queue ++ job ∷ []

has_job-Lacks :
    (id : ℕ) (queue : List Job) → has_job id queue ≡ false → Lacks (λ (j : Job). j.id) id queue
has_job-Lacks id [] h = tt
has_job-Lacks id (j ∷ queue) h = ((λ e. ground arith), has_job-Lacks id queue (ground arith))

add_job-Distinct :
    (job : Job) (queue : List Job)
    → Distinct (λ (j : Job). j.id) queue
    → Distinct (λ (j : Job). j.id) (add_job job queue)
add_job-Distinct job queue d = elim (Bool-cases (has_job job.id queue)) [
  | inl t ↦ rw t d
  | inr t ↦ rw t (Distinct-snoc (λ (j : Job). j.id) queue job d (has_job-Lacks job.id queue t))
]

-- A search of the queue after one more job finds what it found, and the job.
has_job-add_job :
    (k : ℕ) (job : Job) (queue : List Job)
    → has_job k (add_job job queue) ≡ (has_job k queue || (job.id == k))
has_job-add_job k job queue = elim (Bool-cases (has_job job.id queue)) [
  | inl t ↦ rw t (elim (Bool-cases (job.id == k)) [
    | inl u ↦
        let same = (==_iff job.id k).0 u in
        let held = subst (λ (i : ℕ). has_job i queue ≡ true) same t in rw held refl
    | inr u ↦ ground arith
  ])
  | inr t ↦ rw t (ground (arith, any-append (λ (j : Job). j.id == k) queue (job ∷ [])))
]

add_job-All {κ} :
    (P : Job → Type κ) (job : Job) (queue : List Job)
    → P job
    → All P queue
    → All P (add_job job queue)
add_job-All P job queue p h = elim (Bool-cases (has_job job.id queue)) [
  | inl t ↦ rw t h
  | inr t ↦ rw t (All-append P queue (job ∷ []) h (p, tt))
]

add_bulk-Distinct :
    (jobs queue : List Job)
    → Distinct (λ (j : Job). j.id) queue
    → Distinct (λ (j : Job). j.id) (add_bulk jobs queue)
unfolding add_bulk
add_bulk-Distinct [] queue d = d
add_bulk-Distinct (job ∷ jobs) queue d =
    add_bulk-Distinct jobs (add_job job queue) (add_job-Distinct job queue d)

pub has_job-add_bulk :
    (k : ℕ) (jobs queue : List Job)
    → has_job k (add_bulk jobs queue) ≡ (has_job k queue || has_job k jobs)
unfolding add_bulk
has_job-add_bulk k [] queue = ground arith
has_job-add_bulk k (job ∷ jobs) queue =
    ground (arith, has_job-add_bulk k jobs (add_job job queue), has_job-add_job k job queue)

add_bulk-All {κ} :
    (P : Job → Type κ) (jobs queue : List Job)
    → All P jobs
    → All P queue
    → All P (add_bulk jobs queue)
unfolding add_bulk
add_bulk-All P [] queue p h = h
add_bulk-All P (job ∷ jobs) queue p h =
    add_bulk-All P jobs (add_job job queue) p.1 (add_job-All P job queue p.0 h)

-- The jobs of a batch are those of its rows.
has_job-rows :
    (r : OutboxRow) (rows : List OutboxRow) → has_job r.id (map job_of rows) ≡ is_among rows r
has_job-rows r [] = refl
has_job-rows r (c ∷ rows) = ap (λ b. (c.id == r.id) || b) (has_job-rows r rows)

take-All {ℓ κ} : {A : Type ℓ} (P : A → Type κ) (n : ℕ) (xs : List A) → All P xs → All P (take n xs)
take-All P n [] h = tt
take-All P zero (x ∷ xs) h = tt
take-All P (suc n) (x ∷ xs) h = (h.0, take-All P n xs h.1)

-- Every row of a table is in it.
rows_known :
    (events : List OutboxRow) → All (λ (r : OutboxRow). has_event r.id events ≡ true) events
rows_known [] = tt
rows_known (r ∷ events) = (
  rw (==-self r.id) refl,
  All-imp (λ q h. elim (Bool-cases (r.id == q.id)) [ inl t ↦ rw t refl | inr t ↦ rw t h ]) events
      (rows_known events),
)

-- What holds of every pending row holds of the claimed ones.
pub claimed-All {κ} :
    (P : OutboxRow → Type κ) (now : ℕ) (locked : ℕ → Bool) (events : List OutboxRow)
    → All P (select (λ (r : OutboxRow). is_pending now r && not (locked r.id)) events)
    → All P (claimed now locked events)
unfolding claimed
claimed-All P now locked events h =
    let open_for = λ (r : OutboxRow). is_pending now r && not (locked r.id) in
    take-All P batch_size (sort_by by_id (select open_for events))
      (sort_by-All by_id P (select open_for events) h)

claimed-known :
    (now : ℕ) (locked : ℕ → Bool) (events : List OutboxRow)
    → All (λ (j : Job). has_event j.id events ≡ true) (map job_of (claimed now locked events))
claimed-known now locked events =
    All-map (λ (j : Job). has_event j.id events ≡ true) job_of (claimed now locked events)
      (claimed-All (λ (r : OutboxRow). has_event r.id events ≡ true) now locked events
        (select-All (λ (r : OutboxRow). has_event r.id events ≡ true) _ events (rows_known events)))

relay_batch-IsRelayed :
    (now : ℕ) (locked : ℕ → Bool) (commits : Bool) (o : Outbox)
    → IsRelayed o
    → IsRelayed (relay_batch now locked commits o).1
unfolding relay_batch
relay_batch-IsRelayed now locked commits o w = both commits
  where
    rows : List OutboxRow
    rows = claimed now locked o.events

    jobs : List Job
    jobs = map job_of rows

    mark : OutboxRow → OutboxRow
    mark r = record r { published_at = some now }

    kept :
        All
          (λ (r : OutboxRow).
            is_some r.published_at ≡ true
            → (has_job r.id (add_bulk jobs o.queue) || has_job r.id o.removed) ≡ true)
          o.events
    kept =
        All-imp (λ r h p. let was = h p in ground (arith, has_job-add_bulk r.id jobs o.queue))
          o.events w.sent

    still :
        (j : Job)
        → has_event j.id o.events ≡ true
        → has_event j.id (update_where (is_among rows) mark o.events) ≡ true
    still j h =
        any-update_where (λ (r : OutboxRow). r.id == j.id) (is_among rows) mark (λ x. refl) o.events
        ∙ h

    both : (b : Bool) → IsRelayed (relay_batch now locked b o).1
    both false = record {
      once = add_bulk-Distinct jobs o.queue w.once;
      sent = kept;
      known =
          add_bulk-All (λ (j : Job). has_event j.id o.events ≡ true) jobs o.queue
            (claimed-known now locked o.events) w.known;
      known_removed = w.known_removed;
    }
    both true = record {
      once = add_bulk-Distinct jobs o.queue w.once;
      sent =
          All-update_met (is_among rows) mark
            (λ r h among _. ground (arith, has_job-add_bulk r.id jobs o.queue, has_job-rows r rows))
            o.events kept;
      known = All-imp still (add_bulk jobs o.queue) (
          add_bulk-All (λ (j : Job). has_event j.id o.events ≡ true) jobs o.queue
            (claimed-known now locked o.events) w.known);
      known_removed = All-imp still o.removed w.known_removed;
    }

publish-IsRelayed :
    (id : ℕ) (type_name : String) (available_at : ℕ) (o : Outbox)
    → IsRelayed o
    → IsRelayed (publish id type_name available_at o)
unfolding publish
publish-IsRelayed id type_name available_at o w =
    let row : OutboxRow = record {
      id = id;
      type_name = type_name;
      available_at = available_at;
      published_at = none;
    } in
    record {
      once = w.once;
      sent = All-append _ o.events (row ∷ []) w.sent ((λ p. cc), tt);
      known =
          All-imp
            (λ j h.
              ground (arith, any-append (λ (r : OutboxRow). r.id == j.id) o.events (row ∷ [])))
            o.queue w.known;
      known_removed =
          All-imp
            (λ j h.
              ground (arith, any-append (λ (r : OutboxRow). r.id == j.id) o.events (row ∷ [])))
            o.removed w.known_removed;
    }

-- A job that is gone is not lost from sight.
has_job-removed :
    (k id : ℕ) (queue : List Job)
    → (has_job k (select (λ (j : Job). not (j.id == id)) queue)
        || has_job k (select (λ (j : Job). j.id == id) queue))
      ≡ has_job k queue
has_job-removed k id [] = refl
has_job-removed k id (j ∷ queue) = elim (Bool-cases (j.id == id)) [
  | inl t ↦ rw t (ground (arith, has_job-removed k id queue))
  | inr t ↦ rw t (ground (arith, has_job-removed k id queue))
]

remove_job-IsRelayed : (id : ℕ) (o : Outbox) → IsRelayed o → IsRelayed (remove_job id o)
remove_job-IsRelayed id o w =
    let gone = select (λ (j : Job). j.id == id) o.queue in
    record {
      once = Distinct-select (λ (j : Job). j.id) (λ (j : Job). not (j.id == id)) o.queue w.once;
      sent =
          All-imp
            (λ r h p.
              let was = h p in
              ground (
                arith,
                has_job-removed r.id id o.queue,
                any-append (λ (j : Job). j.id == r.id) o.removed gone,
              ))
            o.events w.sent;
      known = select-All _ (λ (j : Job). not (j.id == id)) o.queue w.known;
      known_removed =
          All-append _ o.removed gone w.known_removed
            (select-All _ (λ (j : Job). j.id == id) o.queue w.known);
    }

-- What happens to the outbox and the queue: a change that publishes an event commits; a worker takes a
-- batch, while others may hold rows, and commits or dies once the jobs are added; the queue removes a job.
pub data Move : Type 0 where
  publishes : ℕ → String → ℕ → Move
  relays : ℕ → (ℕ → Bool) → Bool → Move
  removes : ℕ → Move

abbrev pub move : Move → Outbox → Outbox
move (publishes id type_name available_at) o = publish id type_name available_at o
move (relays now locked commits) o = (relay_batch now locked commits o).1
move (removes id) o = remove_job id o

abbrev pub moves : List Move → Outbox → Outbox
moves [] o = o
moves (m ∷ more) o = moves more (move m o)

move-IsRelayed : (m : Move) (o : Outbox) → IsRelayed o → IsRelayed (move m o)
move-IsRelayed (publishes id type_name at) o w = publish-IsRelayed id type_name at o w
move-IsRelayed (relays now locked commits) o w = relay_batch-IsRelayed now locked commits o w
move-IsRelayed (removes id) o w = remove_job-IsRelayed id o w

-- Whatever is published, relayed and removed from the queue, and however many batches die before they
-- commit: the queue never holds two jobs of one event, the job of an event that is marked as published
-- is in the queue or was there until the queue removed it, and every job, also a removed one, is of an
-- event whose transaction committed.
pub moves-IsRelayed : (more : List Move) (o : Outbox) → IsRelayed o → IsRelayed (moves more o)
moves-IsRelayed [] o w = w
moves-IsRelayed (m ∷ more) o w = moves-IsRelayed more (move m o) (move-IsRelayed m o w)
