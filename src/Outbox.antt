-- ===== src/Outbox.antt =====
-- packages/storage/repositories/outbox.py: the events that wait to be published.
-- The rows stand in the order of their ids, so that `ORDER BY id LIMIT n` takes the first n.
pub mod Ids
pub mod Lease
pub mod Staging
use k8s_clue.Prelude.{
  ℕ, suc, ◌+◌, String, Bool, true, false, ◌&&◌, ◌||◌, Option, none, some, List, [], ◌∷◌, ◌++◌, map,
  str_eq, ltb, take, keep, any, count, if◌then◌else◌,
}
use k8s_clue.Prelude.Json.{Fields}
use k8s_clue.Prelude.Rows.{update_where}
use k8s_clue.Events.{EventEnvelope}
use k8s_clue.Processing.{seconds}
use k8s_clue.DeadLetters.{DeadLetters, record_dead_letter}

-- A row of `outbox`.
pub record OutboxModel : Type 0 where
  pub id : ℕ
  pub event : EventEnvelope
  pub lease_id : Option String
  pub leased_until : Option ℕ
  pub sent_at : Option ℕ

pub record Outbox : Type 0 where
  pub next_id : ℕ
  pub rows : List OutboxModel

abbrev pub default_outbox_lease_seconds : ℕ
default_outbox_lease_seconds = 60

abbrev pub holds : String → OutboxModel → Bool
holds event_id row = str_eq row.event.event_id event_id

abbrev pub is_unsent : OutboxModel → Bool
is_unsent row = elim row.sent_at [ none ↦ true | some t ↦ false ]

-- The insert skips an event id that is there. The sequence moves on all the same.
unfoldable pub stage_event : Outbox → EventEnvelope → Outbox
stage_event table evt = record {
  next_id = suc table.next_id;
  rows =
      if any (holds evt.event_id) table.rows
      then table.rows
      else table.rows
        ++ record {
          id = table.next_id;
          event = evt;
          lease_id = none;
          leased_until = none;
          sent_at = none;
        }
          ∷ [];
}

unfoldable pub stage_events : List EventEnvelope → Outbox → Outbox
unfolding stage_event
stage_events [] table = table
stage_events (evt ∷ events) table = stage_events events (stage_event table evt)

-- lease_id IS NULL OR leased_until < now(); a comparison with NULL is not true
unfoldable pub is_available : ℕ → OutboxModel → Bool
is_available now row = elim row.lease_id [
  | none ↦ true
  | some lease ↦ elim row.leased_until [ none ↦ false | some until ↦ ltb until now ]
]

abbrev pub from_source : Option String → OutboxModel → Bool
from_source none row = true
from_source (some source) row = str_eq row.event.source source

unfoldable pub is_claimable : ℕ → Option String → OutboxModel → Bool
unfolding is_available
is_claimable now source row = is_unsent row && is_available now row && from_source source row

abbrev pub leased : String → ℕ → OutboxModel → OutboxModel
leased lease_id leased_until row = record row {
  lease_id = some lease_id;
  leased_until = some leased_until;
}

-- The first `limit` claimable rows get the lease; the rows left of the limit are counted down.
unfoldable pub lease_rows :
    ℕ → Option String → String → ℕ → ℕ → List OutboxModel → List OutboxModel × List OutboxModel
unfolding is_claimable
lease_rows now source lease_id leased_until limit [] = ([], [])
lease_rows now source lease_id leased_until ℕ.zero (row ∷ rows) = (row ∷ rows, [])
lease_rows now source lease_id leased_until (suc limit) (row ∷ rows) =
    let hit = is_claimable now source row in
    let (rows', got) =
      lease_rows now source lease_id leased_until (if hit then limit else suc limit) rows in
    let row' = leased lease_id leased_until row in
    if hit then (row' ∷ rows', row' ∷ got) else (row ∷ rows', got)

abbrev insert_at : ℕ → OutboxModel → List OutboxModel → List OutboxModel
insert_at ℕ.zero row rows = row ∷ rows
insert_at (suc place) row [] = row ∷ []
insert_at (suc place) row (first ∷ rows) = first ∷ insert_at place row rows

-- PostgreSQL promises no order of the rows that RETURNING gives. `order` tells of each row where it goes
-- among those behind it, so it can stand for any order, and no row is lost or doubled.
abbrev pub arranged : List ℕ → List OutboxModel → List OutboxModel
arranged (place ∷ order) (row ∷ rows) = insert_at place row (arranged order rows)
arranged _ rows = rows

-- `clock` is the service's own time and `now` the database's; `lease_id` is a fresh uuid.
unfoldable pub unsent_events :
    List ℕ → ℕ → ℕ → String → ℕ → Option String → Outbox → Outbox × List EventEnvelope
unfolding lease_rows
unsent_events order now clock lease_id limit source table =
    let (rows, got) =
      lease_rows now source lease_id (clock + seconds default_outbox_lease_seconds) limit
        table.rows in
    (record table { rows = rows }, map (λ row. row.event) (arranged order got))

abbrev pub sent : ℕ → OutboxModel → OutboxModel
sent now row = record row { sent_at = some now; lease_id = none; leased_until = none }

-- event_id IN (...)
abbrev pub is_in : List String → String → Bool
is_in ids event_id = any (λ id. str_eq id event_id) ids

unfoldable pub mark_events_sent : ℕ → List String → Outbox → Outbox
mark_events_sent now event_ids table = record table {
  rows = update_where (λ row. is_in event_ids row.event.event_id) (sent now) table.rows;
}

unfoldable pub insert_dead_letters :
    List EventEnvelope → String → String → DeadLetters → DeadLetters
insert_dead_letters [] consumer error letters = letters
insert_dead_letters (evt ∷ events) consumer error letters =
    insert_dead_letters events consumer error (record_dead_letter evt consumer error 1 letters).0

-- The dead letters and the closing of the rows are one transaction.
unfoldable pub mark_events_dead_lettered :
    ℕ → List EventEnvelope → String → String → Outbox → DeadLetters → Outbox × DeadLetters
unfolding mark_events_sent insert_dead_letters
mark_events_dead_lettered now [] consumer error table letters = (table, letters)
mark_events_dead_lettered now events consumer error table letters = (
  mark_events_sent now (map (λ evt. evt.event_id) events) table,
  insert_dead_letters events consumer error letters,
)

unfoldable pub outbox_pending_count : Outbox → ℕ
outbox_pending_count table = count is_unsent table.rows
