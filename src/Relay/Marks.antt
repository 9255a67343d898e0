-- ===== src/Relay/Marks.antt =====
-- packages/runtime/relay.py: a round in which the broker takes every event.
use k8s_clue.Prelude.{
  ℕ, String, ◌≡◌, refl, ◌∙◌, Bool, true, false, ◌&&◌, List, [], ◌∷◌, ◌++◌, arith, map, append_assoc,
  append-nil, All,
}
use k8s_clue.Prelude.Rows.{update_where}
use k8s_clue.Events.{EventEnvelope}
use k8s_clue.DeadLetters.{DeadLetters}
use k8s_clue.Outbox.{OutboxModel, Outbox, is_unsent, is_in, sent, unsent_events, mark_events_sent}
use k8s_clue.Relay.{
  Round, RelayState, ran, accepted, relay_event, relay_events, mark_published, finish_round,
  run_once,
}

-- None of these events has a row that still waits.
abbrev pub NoneWaits : List String → List OutboxModel → Type 0
NoneWaits ids rows = All (λ row. (is_in ids row.event.event_id && is_unsent row) ≡ false) rows

update-NoneWaits :
    (now : ℕ) (ids : List String) (rows : List OutboxModel)
    → NoneWaits ids (update_where (λ row. is_in ids row.event.event_id) (sent now) rows)
unfolding update_where
update-NoneWaits now ids [] = tt
update-NoneWaits now ids (row ∷ rows) = (ground arith, update-NoneWaits now ids rows)

NoneWaits-nil : (rows : List OutboxModel) → NoneWaits [] rows
NoneWaits-nil [] = tt
NoneWaits-nil (row ∷ rows) = (refl, NoneWaits-nil rows)

abbrev pub event_ids : List EventEnvelope → List String
event_ids events = map (λ evt. evt.event_id) events

module _ (round : Round) (accepts : (evt : EventEnvelope) → round.publish evt ≡ accepted) where
  relay_events-accepted :
      (events : List EventEnvelope) (st : RelayState)
      → relay_events round events st ≡ (
        record st { stream = st.stream ++ events; published = st.published ++ event_ids events },
        ran,
      )
  unfolding relay_events relay_event
  relay_events-accepted [] st = rw append-nil (rw append-nil)
  relay_events-accepted (evt ∷ events) st = rw accepts (
      relay_events-accepted events (record st {
        stream = st.stream ++ evt ∷ [];
        published = st.published ++ evt.event_id ∷ [];
      })
      ∙ rw append_assoc (rw append_assoc))

  mark_published-NoneWaits :
      (fails : Bool) (ids : List String) (st : RelayState)
      → fails ≡ false
      → NoneWaits ids (mark_published round fails ids st ran).0.outbox.rows
  unfolding mark_events_sent
  mark_published-NoneWaits fails [] st works = NoneWaits-nil st.outbox.rows
  mark_published-NoneWaits true (id ∷ ids) st works = absurd (cc)
  mark_published-NoneWaits false (id ∷ ids) st works =
      update-NoneWaits round.marked_at (id ∷ ids) st.outbox.rows

  mark_published-ran :
      (fails : Bool) (ids : List String) (st : RelayState)
      → fails ≡ false
      → let (t, ending) = mark_published round fails ids st ran in
        (ending ≡ ran) × (t.stream ≡ st.stream) × (t.published ≡ st.published)
  mark_published-ran fails [] st works = (refl, refl, refl)
  mark_published-ran true (id ∷ ids) st works = absurd (cc)
  mark_published-ran false (id ∷ ids) st works = (refl, refl, refl)

  -- If the broker takes every event and the marking works, the round ends without an error, the
  -- broker has each leased event once, in the order of the batch, behind what it had, the round
  -- reports exactly these events, and none of them has a row that still waits.
  pub run_once-publishes :
      (outbox : Outbox) (letters : DeadLetters) (stream : List EventEnvelope)
      → round.mark_fails ≡ false
      → let events =
          (unsent_events round.order round.now round.clock round.lease_id round.batch round.source
            outbox).1 in
        let (t, ending) = run_once round outbox letters stream in
        (ending ≡ ran)
        × (t.stream ≡ stream ++ events)
        × (t.published ≡ event_ids events)
        × NoneWaits (event_ids events) t.outbox.rows
  unfolding run_once finish_round
  run_once-publishes outbox letters stream works =
      let (outbox', events) =
        unsent_events round.order round.now round.clock round.lease_id round.batch round.source
          outbox in
      let after : RelayState = record {
        outbox = outbox';
        letters = letters;
        stream = stream ++ events;
        published = event_ids events;
      } in
      let (e, s, p) = mark_published-ran round.mark_fails (event_ids events) after works in
      rw
        (relay_events-accepted events
          (record { outbox = outbox'; letters = letters; stream = stream; published = [] }))
        (e, s, p, mark_published-NoneWaits round.mark_fails (event_ids events) after works)
