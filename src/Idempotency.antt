-- ===== src/Idempotency.antt =====
-- `IdempotencyInterceptor` (apps/api/src/common/idempotency/idempotency.interceptor.ts), and the clean-up
-- of its table by `MaintenanceService` (apps/api/src/messaging/maintenance.service.ts). A request's work
-- is a parameter, a transaction on the other tables that gives the response's body; so is the hash of
-- what the request sends. The advisory lock makes the transactions with one key follow each other.
pub mod Keys
pub mod Remembering
pub mod Replay
mod Tests
use text.Mathlib.Text.{◌==◌ as str_eq}
use emis.Base.{
  ℕ, zero, suc, ◌+◌, ◌*◌, String, Bool, true, false, not, ◌&&◌, ◌||◌, Option, none, some, List, [],
  ◌∷◌, ◌++◌, Result, ok, err, Tx, leb, ltb, ◌==◌, if◌then◌else◌, all, select, find_row, length,
  Failure, idempotency_key_required, invalid_idempotency_key, idempotency_key_reused,
}
use emis.Settings.Numbering.{Text, text_eq}

abbrev in_range : ℕ → ℕ → ℕ → Bool
in_range lo hi c = leb lo c && leb c hi

abbrev is_letter_or_digit : ℕ → Bool
is_letter_or_digit c = in_range b'A' b'Z' c || in_range b'a' b'z' c || in_range b'0' b'9' c

-- KEY_PATTERN
unfoldable pub is_key : Text → Bool
is_key key =
    leb 8 (length key)
    && leb (length key) 255
    && all
        (λ (c : ℕ).
          is_letter_or_digit c || (c == b'_') || (c == b'.') || (c == b':') || (c == b'-'))
        key

abbrev is_hex : ℕ → Bool
is_hex c = in_range b'0' b'9' c || in_range b'a' b'f' c || in_range b'A' b'F' c

-- A run of hexadecimal digits, a dash where another run follows, and so on.
abbrev fits : List Bool → Text → Bool
fits [] [] = true
fits [] (c ∷ text) = false
fits (digit ∷ shape) [] = false
fits (digit ∷ shape) (c ∷ text) = (if digit then is_hex c else c == b'-') && fits shape text

abbrev run : ℕ → List Bool → List Bool
run zero shape = shape
run (suc n) shape = true ∷ run n shape

-- UUID_PATTERN
unfoldable pub is_uuid : Text → Bool
is_uuid key = fits (run 8 (false ∷ run 4 (false ∷ run 4 (false ∷ run 4 (false ∷ run 12 []))))) key

-- TTL_MS
abbrev pub ttl : ℕ
ttl = 24 * 3600000

pub record KeyRow (B : Type 0) : Type 0 where
  -- a user's id, or none for 'anonymous'
  pub principal : Option ℕ
  pub key : Text
  pub method : String
  pub path : String
  pub request_hash : Text
  pub response_status : ℕ
  pub response_body : B
  pub expires_at : ℕ

-- The tables that requests work on, and idempotency_keys.
pub record Site (S B : Type 0) : Type 0 where
  pub tables : S
  pub keys : List (KeyRow B)

-- A request to a handler that is marked `@Idempotent`, or is not (`options` is none). `request_hash` is
-- the hash of its body and query, and `status` what the handler answers with.
pub record Call (S B : Type 0) : Type 0 where
  pub options : Option Bool
  pub principal : Option ℕ
  pub key : Option Text
  pub method : String
  pub path : String
  pub request_hash : Text
  pub status : ℕ
  pub work : Tx S B

pub record Reply (B : Type 0) : Type 0 where
  pub status : ℕ
  pub body : B
  pub replayed : Bool

abbrev pub same_principal : Option ℕ → Option ℕ → Bool
same_principal none none = true
same_principal none (some b) = false
same_principal (some a) none = false
same_principal (some a) (some b) = a == b

module _ {B : Type 0} where
  abbrev pub has_key : Option ℕ → Text → KeyRow B → Bool
  has_key principal key r = same_principal r.principal principal && text_eq r.key key

  -- `INSERT … ON CONFLICT (principal, key) DO UPDATE`
  abbrev pub upsert_key : KeyRow B → List (KeyRow B) → List (KeyRow B)
  upsert_key row [] = row ∷ []
  upsert_key row (r ∷ rows) =
      if has_key row.principal row.key r then row ∷ rows else r ∷ upsert_key row rows

abbrev pub is_anonymous : Option ℕ → Bool
is_anonymous none = true
is_anonymous (some id) = false

abbrev pub accepts_key : Option ℕ → Text → Bool
accepts_key principal key = is_key key && (not (is_anonymous principal) || is_uuid key)

-- `!key`
abbrev pub present : Option Text → Option Text
present none = none
present (some []) = none
present (some (c ∷ key)) = some (c ∷ key)

module _ {S B : Type 0} where
  abbrev pub as_usual : Call S B → Site S B → Result (Reply B × Site S B)
  as_usual call s = elim (call.work s.tables) [
    | err e ↦ err e
    | ok (body, tables) ↦ ok (
      record { status = call.status; body = body; replayed = false },
      record s { tables = tables },
    )
  ]

  abbrev pub new_row : ℕ → Call S B → Text → B → KeyRow B
  new_row now call key body = record {
    principal = call.principal;
    key = key;
    method = call.method;
    path = call.path;
    request_hash = call.request_hash;
    response_status = call.status;
    response_body = body;
    expires_at = now + ttl;
  }

  -- The work, with its response stored in the same transaction.
  unfoldable pub do_work : ℕ → Call S B → Text → Site S B → Result (Reply B × Site S B)
  do_work now call key s = elim (call.work s.tables) [
    | err e ↦ err e
    | ok (body, tables) ↦ ok (
      record { status = call.status; body = body; replayed = false },
      record { tables = tables; keys = upsert_key (new_row now call key body) s.keys },
    )
  ]

  abbrev pub same_request : Call S B → KeyRow B → Bool
  same_request call r =
      str_eq r.method call.method
      && str_eq r.path call.path
      && text_eq r.request_hash call.request_hash

  -- The transaction on a key that is in order.
  unfoldable pub with_key : ℕ → Call S B → Text → Site S B → Result (Reply B × Site S B)
  unfolding do_work
  with_key now call key s = elim (find_row (has_key call.principal key) s.keys) [
    | none ↦ do_work now call key s
    | some stored ↦
        if ltb now stored.expires_at
        then (if same_request call stored
            then ok (
              record {
                status = stored.response_status;
                body = stored.response_body;
                replayed = true;
              },
              s,
            )
            else err idempotency_key_reused)
        else do_work now call key s
  ]

  -- `intercept`; an empty header counts as none.
  unfoldable pub intercept : ℕ → Call S B → Site S B → Result (Reply B × Site S B)
  unfolding with_key
  intercept now call s = elim call.options [
    | none ↦ as_usual call s
    | some required ↦ elim (present call.key) [
      | none ↦ if required then err idempotency_key_required else as_usual call s
      | some key ↦
          if accepts_key call.principal key
          then with_key now call key s
          else err invalid_idempotency_key
    ]
  ]

  -- 'purge-idempotency-keys'
  abbrev pub purge_keys : ℕ → Site S B → Site S B
  purge_keys now s = record s {
    keys = select (λ (r : KeyRow B). not (ltb r.expires_at now)) s.keys;
  }
