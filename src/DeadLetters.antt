-- ===== src/DeadLetters.antt =====
-- packages/storage/repositories/dead_letter.py: the table of events that a consumer gave up on.
-- The rows stand in the order of their ids, which the database's sequence gives.
pub mod Replay
use k8s_clue.Prelude.{
  ℕ, suc, ◌+◌, String, Bool, true, false, ◌&&◌, Option, none, some, List, [], ◌∷◌, ◌++◌, str_eq,
  ◌==◌, count, if◌then◌else◌,
}
use k8s_clue.Prelude.Json.{Fields, no_fields, field, str}
use k8s_clue.Prelude.Rows.{select_first, update_where}
use k8s_clue.Events.{EventEnvelope}
use k8s_clue.Processing.{compact_error}

pub data Status : Type 0 where
  open_status replayed archived : Status

abbrev pub is_open : Status → Bool
is_open open_status = true
is_open _ = false

pub record DeadLetter : Type 0 where
  pub id : ℕ
  pub original_event_id : String
  pub original_subject : String
  pub consumer : String
  pub correlation_id : String
  pub attempts : ℕ
  pub error : String
  pub payload : Fields
  pub status : Status
  pub replayed_at : Option ℕ
  pub replay_event_id : Option String

pub record DeadLetters : Type 0 where
  pub next_id : ℕ
  pub rows : List DeadLetter

abbrev pub raw_dead_letter_subject : String
raw_dead_letter_subject = "__decode_failed__"

-- The row that `record_dead_letter` inserts.
unfoldable pub dead_letter : ℕ → EventEnvelope → String → String → ℕ → DeadLetter
dead_letter id evt consumer error attempts = record {
  id = id;
  original_event_id = evt.event_id;
  original_subject = evt.subject;
  consumer = consumer;
  correlation_id = evt.correlation_id;
  attempts = attempts;
  error = compact_error error;
  payload = evt.payload;
  status = open_status;
  replayed_at = none;
  replay_event_id = none;
}

-- The row that `record_raw_dead_letter` inserts. `original_event_id` is "decode-failure:" and a
-- fresh uuid, and `raw` is the message's bytes as text.
unfoldable pub raw_dead_letter : ℕ → String → String → String → String → DeadLetter
raw_dead_letter id original_event_id raw consumer error = record {
  id = id;
  original_event_id = original_event_id;
  original_subject = raw_dead_letter_subject;
  consumer = consumer;
  correlation_id = original_event_id;
  attempts = 1;
  error = compact_error error;
  payload = field "raw" (str raw) no_fields;
  status = open_status;
  replayed_at = none;
  replay_event_id = none;
}

abbrev pub insert : DeadLetter → DeadLetters → DeadLetters
insert row table = record { next_id = suc table.next_id; rows = table.rows ++ row ∷ [] }

unfoldable pub record_dead_letter :
    EventEnvelope → String → String → ℕ → DeadLetters → DeadLetters × DeadLetter
record_dead_letter evt consumer error attempts table =
    let row = dead_letter table.next_id evt consumer error attempts in (insert row table, row)

unfoldable pub record_raw_dead_letter :
    String → String → String → String → DeadLetters → DeadLetters × DeadLetter
record_raw_dead_letter original_event_id raw consumer error table =
    let row = raw_dead_letter table.next_id original_event_id raw consumer error in
    (insert row table, row)

unfoldable pub get_dead_letter : ℕ → DeadLetters → Option DeadLetter
get_dead_letter dead_letter_id table = select_first (λ row. row.id == dead_letter_id) table.rows

abbrev pub is_open_row : ℕ → DeadLetter → Bool
is_open_row dead_letter_id row = row.id == dead_letter_id && is_open row.status

abbrev pub is_some {ℓ} : {A : Type ℓ} → Option A → Bool
is_some none = false
is_some (some a) = true

unfoldable pub replay_row : ℕ → String → DeadLetter → DeadLetter
replay_row now replay_event_id row = record row {
  status = replayed;
  replayed_at = some now;
  replay_event_id = some replay_event_id;
}

-- One UPDATE tests the status and writes it; whether it returned a row is the answer.
unfoldable pub mark_dead_letter_replayed : ℕ → ℕ → String → DeadLetters → DeadLetters × Bool
unfolding replay_row
mark_dead_letter_replayed now dead_letter_id replay_event_id table = (
  record table {
    rows = update_where (is_open_row dead_letter_id) (replay_row now replay_event_id) table.rows;
  },
  is_some (select_first (is_open_row dead_letter_id) table.rows),
)

unfoldable pub open_dead_letter_count : DeadLetters → ℕ
open_dead_letter_count table = count (λ row. is_open row.status) table.rows
