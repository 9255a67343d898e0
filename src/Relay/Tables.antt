-- ===== src/Relay/Tables.antt =====
-- packages/runtime/relay.py: where an event of the outbox can be found, and the statements of a round.
use k8s_clue.Prelude.{
  ℕ, zero, suc, String, ◌≡◌, Bool, true, false, ◌||◌, Option, List, [], ◌∷◌, ◌++◌, arith, str_eq,
  eq_iff, any, any-append, All, Bool-cases, subst, inl, inr,
}
use k8s_clue.Prelude.Rows.{update_where}
use k8s_clue.Events.{EventEnvelope}
use k8s_clue.DeadLetters.{DeadLetter, DeadLetters, insert}
use k8s_clue.Outbox.{OutboxModel, is_unsent, is_claimable, lease_rows, sent, is_in}
use k8s_clue.Relay.{RelayState, arrive}

abbrev pub in_stream : String → List EventEnvelope → Bool
in_stream id stream = any (λ e. str_eq e.event_id id) stream

abbrev pub in_letters : String → DeadLetters → Bool
in_letters id letters = any (λ l. str_eq l.original_event_id id) letters.rows

-- The row still waits, or the broker or a dead letter has its event.
abbrev pub accounted : List EventEnvelope → DeadLetters → OutboxModel → Bool
accounted stream letters row =
    is_unsent row || in_stream row.event.event_id stream || in_letters row.event.event_id letters

abbrev pub IsAccounted : List EventEnvelope → DeadLetters → List OutboxModel → Type 0
IsAccounted stream letters rows = All (λ row. accounted stream letters row ≡ true) rows

-- Leasing does not touch what accounts look at.
pub lease_rows-IsAccounted :
    (stream : List EventEnvelope) (letters : DeadLetters) (now : ℕ) (source : Option String)
    (lease_id : String) (until limit : ℕ) (rows : List OutboxModel)
    → IsAccounted stream letters rows
    → IsAccounted stream letters (lease_rows now source lease_id until limit rows).0
unfolding lease_rows
lease_rows-IsAccounted stream letters now source lease_id until limit [] h = tt
lease_rows-IsAccounted stream letters now source lease_id until zero (row ∷ rows) h = h
lease_rows-IsAccounted stream letters now source lease_id until (suc limit) (row ∷ rows) h =
    elim (Bool-cases (is_claimable now source row)) [
      | inl c ↦
          rw c (h.0, lease_rows-IsAccounted stream letters now source lease_id until limit rows h.1)
      | inr c ↦ rw c (
        h.0,
        lease_rows-IsAccounted stream letters now source lease_id until (suc limit) rows h.1,
      )
    ]

pub IsAccounted-grows :
    (stream more : List EventEnvelope) (letters letters' : DeadLetters) (rows : List OutboxModel)
    → ((id : String) → in_letters id letters ≡ true → in_letters id letters' ≡ true)
    → IsAccounted stream letters rows
    → IsAccounted (stream ++ more) letters' rows
IsAccounted-grows stream more letters letters' [] kept h = tt
IsAccounted-grows stream more letters letters' (row ∷ rows) kept h = (
  ground (
    arith,
    any-append (λ (e : EventEnvelope). str_eq e.event_id row.event.event_id) stream more,
    kept row.event.event_id,
    h.0,
  ),
  IsAccounted-grows stream more letters letters' rows kept h.1,
)

-- A test that holds of all items holds of an item found by its id.
any→All :
    (P : String → Bool) (ids : List String) (id : String)
    → All (λ x. P x ≡ true) ids
    → any (λ x. str_eq x id) ids ≡ true
    → P id ≡ true
any→All P [] id h hit = cc
any→All P (x ∷ ids) id h hit = elim (Bool-cases (str_eq x id)) [
  | inl e ↦ subst (λ y. P y ≡ true) ((eq_iff x id).0 e) h.0
  | inr e ↦ any→All P ids id h.1 (rw e at hit)
]

pub mark-IsAccounted :
    (stream : List EventEnvelope) (letters : DeadLetters) (now : ℕ) (ids : List String)
    (rows : List OutboxModel)
    → All (λ id. (in_stream id stream || in_letters id letters) ≡ true) ids
    → IsAccounted stream letters rows
    → IsAccounted stream letters
        (update_where (λ row. is_in ids row.event.event_id) (sent now) rows)
unfolding update_where
mark-IsAccounted stream letters now ids [] known h = tt
mark-IsAccounted stream letters now ids (row ∷ rows) known h = (
  ground (
    arith,
    h.0,
    any→All (λ id. in_stream id stream || in_letters id letters) ids row.event.event_id known,
  ),
  mark-IsAccounted stream letters now ids rows known h.1,
)

-- What the loop keeps: the accounts, and that the broker has what it calls published.
pub record IsSound (st : RelayState) : Type 0 where
  pub accounts : IsAccounted st.stream st.letters st.outbox.rows
  pub marks : All (λ id. (in_stream id st.stream || in_letters id st.letters) ≡ true) st.published

pub marks-grow :
    (stream more : List EventEnvelope) (letters letters' : DeadLetters) (ids : List String)
    → ((id : String) → in_letters id letters ≡ true → in_letters id letters' ≡ true)
    → All (λ id. (in_stream id stream || in_letters id letters) ≡ true) ids
    → All (λ id. (in_stream id (stream ++ more) || in_letters id letters') ≡ true) ids
marks-grow stream more letters letters' [] kept h = tt
marks-grow stream more letters letters' (id ∷ ids) kept h = (
  ground
      (arith, any-append (λ (e : EventEnvelope). str_eq e.event_id id) stream more, kept id, h.0),
  marks-grow stream more letters letters' ids kept h.1,
)

pub arrive-IsSound :
    (arrived : Bool) (evt : EventEnvelope) (st : RelayState)
    → IsSound st
    → IsSound (arrive arrived evt st)
arrive-IsSound true evt st h = record {
  accounts =
      IsAccounted-grows st.stream (evt ∷ []) st.letters st.letters st.outbox.rows (λ id k. k)
        h.accounts;
  marks = marks-grow st.stream (evt ∷ []) st.letters st.letters st.published (λ id k. k) h.marks;
}
arrive-IsSound false evt st h = h

pub in_letters-insert :
    (id : String) (row : DeadLetter) (letters : DeadLetters)
    → in_letters id (insert row letters)
      ≡ (in_letters id letters || str_eq row.original_event_id id)
in_letters-insert id row letters =
    ground (
      arith,
      any-append (λ (l : DeadLetter). str_eq l.original_event_id id) letters.rows (row ∷ []),
    )
