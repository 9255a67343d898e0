-- ===== src/Relay/Accounts.antt =====
-- packages/runtime/relay.py: where the events of the outbox are during a round.
use k8s_clue.Prelude.{
  ◌+◌, String, ◌≡◌, Bool, true, false, ◌||◌, List, [], ◌∷◌, ◌++◌, arith, str_eq, eq_refl,
  any-append, All, All-append, append-nil, if◌then◌else◌,
}
use k8s_clue.Events.{EventEnvelope}
use k8s_clue.Processing.{seconds}
use k8s_clue.DeadLetters.{DeadLetters, insert, dead_letter, record_dead_letter}
use k8s_clue.Outbox.{
  Outbox, unsent_events, mark_events_sent, default_outbox_lease_seconds, insert_dead_letters,
  mark_events_dead_lettered,
}
use k8s_clue.Relay.{
  Round, RelayState, Ending, raised, Published, accepted, refused, arrive, drop_event, relay_event,
  relay_events, mark_published, finish_round, run_once, is_non_retryable_publish_error,
  consumer_name,
}
use k8s_clue.Relay.Tables.{
  in_stream, in_letters, IsAccounted, lease_rows-IsAccounted, IsAccounted-grows, mark-IsAccounted,
  IsSound, marks-grow, arrive-IsSound, in_letters-insert,
}

module _ (round : Round) where
  drop_event-IsSound :
      (evt : EventEnvelope) (text : String) (st : RelayState)
      → IsSound st
      → IsSound (drop_event round evt text st)
  unfolding drop_event mark_events_dead_lettered mark_events_sent insert_dead_letters
      record_dead_letter dead_letter
  drop_event-IsSound evt text st h =
      let row = dead_letter st.letters.next_id evt (consumer_name round.source) text 1 in
      let kept : (id : String)
          → in_letters id st.letters ≡ true
          → in_letters id (insert row st.letters) ≡ true =
        λ id k. ground (arith, in_letters-insert id row st.letters) in
      record {
        accounts =
            mark-IsAccounted st.stream (insert row st.letters) round.marked_at (evt.event_id ∷ [])
              st.outbox.rows
              (
                ground (arith, in_letters-insert evt.event_id row st.letters, eq_refl evt.event_id),
                tt,
              )
              (rw append-nil at (
                IsAccounted-grows st.stream [] st.letters (insert row st.letters) st.outbox.rows
                  kept h.accounts));
        marks =
            rw append-nil at (
              marks-grow st.stream [] st.letters (insert row st.letters) st.published kept h.marks);
      }

  publish-IsSound :
      (evt : EventEnvelope) (st : RelayState)
      → IsSound st
      → IsSound (record st {
        stream = st.stream ++ evt ∷ [];
        published = st.published ++ evt.event_id ∷ [];
      })
  publish-IsSound evt st h =
      let s = arrive-IsSound true evt st h in
      record {
        accounts = s.accounts;
        marks =
            All-append
              (λ id. (in_stream id (st.stream ++ evt ∷ []) || in_letters id st.letters) ≡ true)
              st.published (evt.event_id ∷ []) s.marks
              (
                ground (
                  arith,
                  any-append (λ (e : EventEnvelope). str_eq e.event_id evt.event_id) st.stream
                      (evt ∷ []),
                  eq_refl evt.event_id,
                ),
                tt,
              );
      }

  relay_event-IsSound :
      (outcome : Published) (evt : EventEnvelope) (next : RelayState → RelayState × Ending)
      (st : RelayState)
      → ((st : RelayState) → IsSound st → IsSound (next st).0)
      → IsSound st
      → IsSound (relay_event round outcome evt next st).0
  unfolding relay_event
  relay_event-IsSound accepted evt next st rest h = rest _ (publish-IsSound evt st h)
  relay_event-IsSound (refused arrived error_type text) evt next st rest h =
      by_tests (is_non_retryable_publish_error error_type) (round.letter_fails evt)
    where
      st' : RelayState
      st' = arrive arrived evt st

      by_tests :
          (final fails : Bool)
          → IsSound
              (if final
                then if fails then (st', raised) else next (drop_event round evt text st')
                else (st', raised)).0
      by_tests true true = arrive-IsSound arrived evt st h
      by_tests true false =
          rest _ (drop_event-IsSound evt text st' (arrive-IsSound arrived evt st h))
      by_tests false _ = arrive-IsSound arrived evt st h

  relay_events-IsSound :
      (events : List EventEnvelope) (st : RelayState)
      → IsSound st
      → IsSound (relay_events round events st).0
  unfolding relay_events
  relay_events-IsSound [] st h = h
  relay_events-IsSound (evt ∷ events) st h =
      relay_event-IsSound (round.publish evt) evt (relay_events round events) st
        (relay_events-IsSound events) h

  mark_published-IsAccounted :
      (fails : Bool) (ids : List String) (st : RelayState) (ending : Ending)
      → All (λ id. (in_stream id st.stream || in_letters id st.letters) ≡ true) ids
      → IsAccounted st.stream st.letters st.outbox.rows
      → let t = (mark_published round fails ids st ending).0 in
        IsAccounted t.stream t.letters t.outbox.rows
  unfolding mark_events_sent
  mark_published-IsAccounted fails [] st ending known h = h
  mark_published-IsAccounted true (id ∷ ids) st ending known h = h
  mark_published-IsAccounted false (id ∷ ids) st ending known h =
      mark-IsAccounted st.stream st.letters round.marked_at (id ∷ ids) st.outbox.rows known h

  finish_round-IsAccounted :
      (r : RelayState × Ending)
      → IsSound r.0
      → let t = (finish_round round r).0 in IsAccounted t.stream t.letters t.outbox.rows
  unfolding finish_round
  finish_round-IsAccounted (st, ending) h =
      mark_published-IsAccounted round.mark_fails st.published st ending h.marks h.accounts

  leased-IsAccounted :
      (outbox : Outbox) (letters : DeadLetters) (stream : List EventEnvelope)
      → IsAccounted stream letters outbox.rows
      → IsAccounted stream letters
          (unsent_events round.order round.now round.clock round.lease_id round.batch round.source
            outbox).0.rows
  unfolding unsent_events
  leased-IsAccounted outbox letters stream h =
      lease_rows-IsAccounted stream letters round.now round.source round.lease_id
        (round.clock + seconds default_outbox_lease_seconds) round.batch outbox.rows h

  -- One round of the relay, whatever the broker does and wherever the round breaks off, keeps the
  -- accounts: every outbox row that is marked as sent has its event in the broker's stream or in
  -- a dead letter. No event is marked and lost.
  pub run_once-IsAccounted :
      (outbox : Outbox) (letters : DeadLetters) (stream : List EventEnvelope)
      → IsAccounted stream letters outbox.rows
      → let t = (run_once round outbox letters stream).0 in
        IsAccounted t.stream t.letters t.outbox.rows
  unfolding run_once
  run_once-IsAccounted outbox letters stream h =
      let (outbox', events) =
        unsent_events round.order round.now round.clock round.lease_id round.batch round.source
          outbox in
      let start : RelayState = record {
        outbox = outbox';
        letters = letters;
        stream = stream;
        published = [];
      } in
      finish_round-IsAccounted (relay_events round events start) (
        relay_events-IsSound events start
          (record { accounts = leased-IsAccounted outbox letters stream h; marks = tt }))
