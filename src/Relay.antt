-- ===== src/Relay.antt =====
-- packages/runtime/relay.py: one round of the outbox relay.
-- What the round does not decide is an `Round`: the clock readings, the lease's uuid, what the
-- broker does with each event, and which of the database calls raise.
pub mod Tables
pub mod Accounts
pub mod Marks
use Prim.Native.String
use k8s_clue.Prelude.{
  ℕ, String, Bool, true, false, Option, none, some, List, [], ◌∷◌, ◌++◌, map, str_eq, any, length,
  if◌then◌else◌,
}
use k8s_clue.Events.{EventEnvelope}
use k8s_clue.DeadLetters.{DeadLetters}
use k8s_clue.Outbox.{Outbox, unsent_events, mark_events_sent, mark_events_dead_lettered}

-- NON_RETRYABLE_PUBLISH_ERRORS
abbrev pub non_retryable_publish_errors : List String
non_retryable_publish_errors = "MaxPayloadError" ∷ []

unfoldable pub is_non_retryable_publish_error : String → Bool
is_non_retryable_publish_error error_type =
    any (λ name. str_eq name error_type) non_retryable_publish_errors

-- source or 'all'
abbrev pub or_all : Option String → String
or_all none = "all"
or_all (some source) = if str_eq source "" then "all" else source

abbrev pub consumer_name : Option String → String
consumer_name source = String.◌++◌ "outbox-relay:" (or_all source)

-- `publish_envelope` returned, or raised an error of a class with a text. An error does not say
-- whether the broker has taken the event: a time-out may come after that.
pub data Published : Type 0 where
  accepted : Published
  refused : (arrived : Bool) (error_type text : String) → Published

pub record Round : Type 0 where
  pub now : ℕ
  pub clock : ℕ
  pub marked_at : ℕ
  pub lease_id : String
  pub order : List ℕ
  pub batch : ℕ
  pub source : Option String
  pub publish : EventEnvelope → Published
  pub letter_fails : EventEnvelope → Bool
  pub mark_fails : Bool

-- The tables, the broker's stream, and the round's list `published`.
pub record RelayState : Type 0 where
  pub outbox : Outbox
  pub letters : DeadLetters
  pub stream : List EventEnvelope
  pub published : List String

-- How the loop, or the round, ended.
pub data Ending : Type 0 where
  ran raised : Ending

abbrev pub arrive : Bool → EventEnvelope → RelayState → RelayState
arrive true evt st = record st { stream = st.stream ++ evt ∷ [] }
arrive false evt st = st

module _ (round : Round) where
  -- `mark_events_dead_lettered([evt], ...)`
  unfoldable pub drop_event : EventEnvelope → String → RelayState → RelayState
  drop_event evt text st =
      let (outbox, letters) =
        mark_events_dead_lettered round.marked_at (evt ∷ []) (consumer_name round.source) text
          st.outbox st.letters in
      record st { outbox = outbox; letters = letters }

  -- The loop's body, by what the broker did; `next` is the rest of the loop.
  unfoldable pub relay_event :
      Published
      → EventEnvelope
      → (RelayState → RelayState × Ending)
      → RelayState
      → RelayState × Ending
  relay_event accepted evt next st =
      next (record st {
        stream = st.stream ++ evt ∷ [];
        published = st.published ++ evt.event_id ∷ [];
      })
  relay_event (refused arrived error_type text) evt next st =
      let st' = arrive arrived evt st in
      if is_non_retryable_publish_error error_type
      then if round.letter_fails evt then (st', raised) else next (drop_event evt text st')
      else (st', raised)

  unfoldable pub relay_events : List EventEnvelope → RelayState → RelayState × Ending
  relay_events [] st = (st, ran)
  relay_events (evt ∷ events) st = relay_event (round.publish evt) evt (relay_events events) st

  -- `if published:` and the call that marks, which may raise
  abbrev pub mark_published : Bool → List String → RelayState → Ending → RelayState × Ending
  mark_published fails [] st ending = (st, ending)
  mark_published true (id ∷ ids) st ending = (st, raised)
  mark_published false (id ∷ ids) st ending =
      (record st { outbox = mark_events_sent round.marked_at (id ∷ ids) st.outbox }, ending)

  -- The `finally` block: what was published is marked, however the loop ended.
  unfoldable pub finish_round : RelayState × Ending → RelayState × Ending
  finish_round (st, ending) = mark_published round.mark_fails st.published st ending

  -- `run_once`, which returns `len(published)` when the round ran.
  unfoldable pub run_once : Outbox → DeadLetters → List EventEnvelope → RelayState × Ending
  run_once outbox letters stream =
      let (outbox', events) =
        unsent_events round.order round.now round.clock round.lease_id round.batch round.source
          outbox in
      finish_round (
        relay_events events
          (record { outbox = outbox'; letters = letters; stream = stream; published = [] }))
