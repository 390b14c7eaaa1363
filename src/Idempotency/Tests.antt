-- ===== src/Idempotency/Tests.antt =====
-- Requests that count up, and the theorem on them.
use emis.Base.{
  ℕ, ◌+◌, ◌≡◌, refl, true, false, none, some, List, [], ◌∷◌, ok, err, arith, idempotency_key_reused,
  invalid_idempotency_key,
}
use emis.Settings.Numbering.{Text}
use emis.Idempotency.{Site, Call, Reply, is_key, is_uuid, new_row, intercept}
use emis.Idempotency.Replay.{intercept-replay}
use emis.Idempotency.Remembering.{Event, request, purge, after_all}

abbrev key : ℕ → Text
key c = c ∷ b'e' ∷ b'y' ∷ b'-' ∷ b'0' ∷ b'0' ∷ b'0' ∷ b'1' ∷ []

abbrev call : ℕ → Text → Call ℕ ℕ
call c hash = record {
  options = some true;
  principal = some 3;
  key = some (key c);
  method = "POST";
  path = "/payments";
  request_hash = hash;
  status = 201;
  work = λ n. ok (n, n + 1);
}

abbrev start : Site ℕ ℕ
start = record { tables = 7; keys = [] }

abbrev done : Site ℕ ℕ
done = record { tables = 8; keys = new_row 100 (call b'k' []) (key b'k') 7 ∷ [] }

abbrev answer : Reply ℕ
answer = record { status = 201; body = 7; replayed = false }

first_time : intercept 100 (call b'k' []) start ≡ ok (answer, done)
unfolding intercept is_key is_uuid
first_time = refl

other_request : intercept 101 (call b'k' (1 ∷ [])) done ≡ err idempotency_key_reused
unfolding intercept is_key is_uuid
other_request = refl

anonymous :
    intercept 101 (record (call b'k' []) { principal = none }) done ≡ err invalid_idempotency_key
unfolding intercept is_key is_uuid
anonymous = refl

-- Another request is served, and the keys are cleaned up, before the first one is sent again.
abbrev between : List (Event ℕ ℕ)
between = request 200 (call b'j' []) ∷ purge 300 ∷ []

intercept-replay_example :
    intercept 400 (call b'k' []) (after_all between done)
    ≡ ok (record answer { replayed = true }, after_all between done)
intercept-replay_example =
    intercept-replay 100 400 (call b'k' []) true (key b'k') start done answer between refl refl
      first_time refl (omega arith, (omega arith, tt)) (omega arith)
