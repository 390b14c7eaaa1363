-- ===== src/Messaging/Tests.antt =====
-- Two handlers, of which one fails at its first attempt.
use emis.Base.{
  ℕ, ◌+◌, ◌≡◌, refl, true, false, some, List, [], ◌∷◌, ok, err, select, if◌then◌else◌, ◌==◌,
  version_conflict,
}
use emis.Messaging.{
  OutboxRow, job_of, Outbox, publish, relay_batch, DomainEvent, Inbox, EventHandler, for_event,
  dispatch, deliver,
}
use emis.Messaging.Relaying.{
  IsRelayed, publishes, relays, removes, Move, move, moves, moves-IsRelayed,
}
use emis.Messaging.Settled.{IsSettled, moves-IsSettled}
use emis.Messaging.Delivery.{EachOnce, deliver-EachOnce}

abbrev event : DomainEvent
event = record { id = 9; type_name = "student.created" }

abbrev adding : EventHandler ℕ
adding = record {
  name = "adding";
  event_type = "student.created";
  handle = λ attempt e n. ok (n + 1);
}

abbrev doubling : EventHandler ℕ
doubling = record {
  name = "doubling";
  event_type = "student.created";
  handle = λ attempt e n. if attempt == 1 then err version_conflict else ok (n + n);
}

abbrev other : EventHandler ℕ
other = record { name = "other"; event_type = "invoice.created"; handle = λ attempt e n. ok 0 }

abbrev handlers : List (EventHandler ℕ)
handlers = adding ∷ other ∷ doubling ∷ []

abbrev start : Inbox ℕ
start = record { tables = 5; processed = [] }

abbrev end : Inbox ℕ
end = record {
  tables = 12;
  processed =
      record { consumer = "adding"; event_id = 9 }
      ∷ record { consumer = "doubling"; event_id = 9 }
      ∷ [];
}

-- The first attempt adds and fails; the second one does not add again.
first_attempt : dispatch 1 event handlers start ≡ (
  err version_conflict,
  record { tables = 6; processed = record { consumer = "adding"; event_id = 9 } ∷ [] },
)
unfolding dispatch
first_attempt = refl

delivered : deliver (1 ∷ 2 ∷ []) event handlers start ≡ some end
unfolding deliver
delivered = refl

delivered_again : dispatch 3 event handlers end ≡ (ok (record { handled = 0; skipped = 2 }), end)
unfolding dispatch
delivered_again = refl

deliver-EachOnce_example : EachOnce event (select (for_event event) handlers) start end
deliver-EachOnce_example = deliver-EachOnce event (1 ∷ 2 ∷ []) handlers start end delivered

abbrev no_events : Outbox
no_events = record { events = []; queue = []; removed = [] }

-- A batch dies once its job is added, and the job is done and removed; the next batch adds it again.
abbrev story : List Move
story =
    publishes 4 "student.created" 10
    ∷ relays 11 (λ _. false) false
    ∷ removes 4
    ∷ publishes 2 "invoice.created" 10
    ∷ relays 12 (λ _. false) true
    ∷ []

abbrev first_row : OutboxRow
first_row = record {
  id = 4;
  type_name = "student.created";
  available_at = 10;
  published_at = some 12;
}

abbrev second_row : OutboxRow
second_row = record {
  id = 2;
  type_name = "invoice.created";
  available_at = 10;
  published_at = some 12;
}

-- Rows are claimed in the order of their ids.
abbrev told : Outbox
told = record {
  events = first_row ∷ second_row ∷ [];
  queue = job_of second_row ∷ job_of first_row ∷ [];
  removed = job_of first_row ∷ [];
}

told_so : moves story no_events ≡ told
unfolding relay_batch publish
told_so = refl

moves-IsRelayed_example : IsRelayed (moves story no_events)
moves-IsRelayed_example =
    moves-IsRelayed story no_events
      (record { once = tt; sent = tt; known = tt; known_removed = tt })

abbrev later : List Move
later =
    publishes 7 "student.created" 20
    ∷ relays 21 (λ _. false) false
    ∷ relays 22 (λ _. false) true
    ∷ []

moves-IsSettled_example : IsSettled 4 (moves later (move (removes 4) told))
moves-IsSettled_example =
    moves-IsSettled 4 later (move (removes 4) told) (refl, (refl, (refl, tt)))
      (record { sent = ((λ e. refl), ((λ e. refl), tt)); gone = refl })
