-- ===== src/Processing/Claim.antt =====
-- packages/storage/repositories/event.py: what a claim answers and leaves, and what the closing updates leave.
use mathlib.Core.Option
use k8s_clue.Prelude.{
  ℕ, ◌+◌, String, ◌≡◌, refl, Bool, true, false, ◌&&◌, Option, none, some, inl, inr, List, arith,
  str_eq, eq_iff, eq_refl, subst, sym, Bool-cases, if◌then◌else◌,
}
use k8s_clue.Prelude.Rows.{
  upsert, select_first-update, select_first-update_miss, select_first-upsert,
  select_first-upsert_miss, upsert-returns, returned,
}
use k8s_clue.Events.{EventEnvelope}
use k8s_clue.Processing.{
  EventProcessingStatus, processing, EventProcessing, EventProcessingRecord, stored, is_row,
  claimable, reclaim, first_claim, refused, answer, claim_event_processing, get_event_processing,
  begin_event_processing, finished, finish_event_processing, failed, fail_event_processing,
}

-- Two keys of the table, compared as the WHERE clause does.
abbrev pub same_key : String → String → String → String → Bool
same_key e c e' c' = str_eq e e' && str_eq c c'

is_row-apart :
    (e c e' c' : String) (row : EventProcessing)
    → same_key e c e' c' ≡ false
    → is_row e' c' row ≡ true
    → is_row e c row ≡ false
is_row-apart e c e' c' row apart hit = ground (
  arith,
  eq_iff e e',
  eq_iff c c',
  eq_iff row.event_id e,
  eq_iff row.consumer c,
  eq_iff row.event_id e',
  eq_iff row.consumer c',
)

same_key→eq : (e c e' c' : String) → same_key e c e' c' ≡ true → (e ≡ e') × (c ≡ c')
same_key→eq e c e' c' h = ground (arith, eq_iff e e', eq_iff c c')

-- What holds at one key and at every other key holds at each key.
pub key-cases {ℓ} :
    (P : String → String → Type ℓ) (e c e' c' : String)
    → P e' c'
    → (same_key e c e' c' ≡ false → P e c)
    → P e c
key-cases P e c e' c' here elsewhere = elim (Bool-cases (same_key e c e' c')) [
  | inl same ↦
      let (p, q) = same_key→eq e c e' c' same in
      subst (λ x. P x c) (sym p) (subst (λ y. P e' y) (sym q) here)
  | inr other ↦ elsewhere other
]

-- The row that a claim leaves under its key.
abbrev pub claimed_row : ℕ → ℕ → EventEnvelope → String → Option EventProcessing → EventProcessing
claimed_row stale now evt consumer none = first_claim now evt consumer
claimed_row stale now evt consumer (some row) =
    if claimable stale now row then reclaim now row else row

-- What `begin_event_processing` reports, by the row that it found.
abbrev pub begun : ℕ → ℕ → Option EventProcessing → EventProcessingRecord
begun stale now none = record { status = stored processing; attempts = 1 }
begun stale now (some row) =
    if claimable stale now row
    then record { status = stored processing; attempts = row.attempts + 1 }
    else refused (some row)

module _ (stale now : ℕ) (evt : EventEnvelope) (consumer : String) where
  is_row-first_claim : is_row evt.event_id consumer (first_claim now evt consumer) ≡ true
  unfolding first_claim
  is_row-first_claim = simp eq_refl

  is_row-reclaim :
      (e c : String) (row : EventProcessing) → is_row e c (reclaim now row) ≡ is_row e c row
  unfolding reclaim
  is_row-reclaim e c row = refl

  -- The row under the claimed key, after the claim.
  pub get-claim :
      (rows : List EventProcessing)
      → get_event_processing evt.event_id consumer
          (claim_event_processing stale now evt consumer rows).0
        ≡ some
            (claimed_row stale now evt consumer (get_event_processing evt.event_id consumer rows))
  unfolding claim_event_processing get_event_processing
  get-claim rows =
      select_first-upsert (is_row evt.event_id consumer) (claimable stale now) (reclaim now)
        (first_claim now evt consumer) (is_row-reclaim evt.event_id consumer) rows
        is_row-first_claim

  -- A refused claim leaves its row as it is.
  pub get-claim_refused :
      (rows : List EventProcessing) (row : EventProcessing)
      → get_event_processing evt.event_id consumer rows ≡ some row
      → claimable stale now row ≡ false
      → get_event_processing evt.event_id consumer
          (claim_event_processing stale now evt consumer rows).0
        ≡ some row
  get-claim_refused rows row found closed = rw get-claim (rw (found, closed))

  -- Every other key keeps its row.
  pub get-claim_other :
      (e c : String) (rows : List EventProcessing)
      → same_key e c evt.event_id consumer ≡ false
      → get_event_processing e c (claim_event_processing stale now evt consumer rows).0
        ≡ get_event_processing e c rows
  unfolding claim_event_processing get_event_processing
  get-claim_other e c rows apart =
      select_first-upsert_miss (is_row evt.event_id consumer) (claimable stale now) (reclaim now)
        (first_claim now evt consumer) (is_row-reclaim evt.event_id consumer) (is_row e c) rows
        (λ r. is_row-apart e c evt.event_id consumer r apart) (is_row-reclaim e c)
        is_row-first_claim

  claim-returns :
      (rows : List EventProcessing)
      → (claim_event_processing stale now evt consumer rows).1
        ≡ returned
            (claimable stale now)
            (reclaim now)
            (first_claim now evt consumer)
            (get_event_processing evt.event_id consumer rows)
  unfolding claim_event_processing get_event_processing
  claim-returns rows =
      upsert-returns (is_row evt.event_id consumer) (claimable stale now) (reclaim now)
        (first_claim now evt consumer) (is_row-reclaim evt.event_id consumer) rows

  answer-returned :
      (o : Option EventProcessing)
      → answer
          (returned (claimable stale now) (reclaim now) (first_claim now evt consumer) o)
          (some (claimed_row stale now evt consumer o))
        ≡ begun stale now o
  unfolding first_claim reclaim
  answer-returned none = refl
  answer-returned (some row) = ground arith

  -- What a worker is told, by the row that its claim met.
  pub begin_lem :
      (rows : List EventProcessing)
      → (begin_event_processing stale now evt consumer rows).1
        ≡ begun stale now (get_event_processing evt.event_id consumer rows)
  unfolding begin_event_processing
  begin_lem rows =
      rw get-claim
        (rw claim-returns (answer-returned (get_event_processing evt.event_id consumer rows)))

  pub get-begin :
      (rows : List EventProcessing)
      → get_event_processing evt.event_id consumer
          (begin_event_processing stale now evt consumer rows).0
        ≡ some
            (claimed_row stale now evt consumer (get_event_processing evt.event_id consumer rows))
  unfolding begin_event_processing
  get-begin rows = get-claim rows

  -- A refused claim writes nothing at all.
  pub begin-refused :
      (rows : List EventProcessing) (row : EventProcessing)
      → get_event_processing evt.event_id consumer rows ≡ some row
      → claimable stale now row ≡ false
      → begin_event_processing stale now evt consumer rows ≡ (rows, refused (some row))
  unfolding begin_event_processing claim_event_processing get_event_processing upsert
  begin-refused rows row found closed = rw (found, closed) (rw found)

  -- A claim that was won is a PROCESSING row of that moment.
  pub won-row :
      (o : Option EventProcessing)
      → (begun stale now o).status ≡ stored processing
      → let row = claimed_row stale now evt consumer o in
        (row.status ≡ processing) × (row.updated_at ≡ now)
  unfolding first_claim reclaim
  won-row none won = (refl, refl)
  won-row (some row) won = ground arith

module _ (now : ℕ) (evt : EventEnvelope) (consumer : String) (duration_ms : Option ℕ) where
  -- Finishing closes the row of its key and no other.
  pub get-finish :
      (rows : List EventProcessing)
      → get_event_processing evt.event_id consumer
          (finish_event_processing now evt consumer duration_ms rows)
        ≡ Option.map (finished now duration_ms) (get_event_processing evt.event_id consumer rows)
  unfolding get_event_processing finish_event_processing finished
  get-finish rows =
      select_first-update (is_row evt.event_id consumer) (finished now duration_ms) (λ r. refl) rows

  pub get-finish_other :
      (e c : String) (rows : List EventProcessing)
      → same_key e c evt.event_id consumer ≡ false
      → get_event_processing e c (finish_event_processing now evt consumer duration_ms rows)
        ≡ get_event_processing e c rows
  unfolding get_event_processing finish_event_processing finished
  get-finish_other e c rows apart =
      select_first-update_miss (is_row e c) (is_row evt.event_id consumer)
        (finished now duration_ms) (λ r. is_row-apart e c evt.event_id consumer r apart) (λ r. refl)
        rows

  -- Failing writes its status and its error to the row of its key and to no other.
  pub get-fail :
      (error : String) (status : EventProcessingStatus) (rows : List EventProcessing)
      → get_event_processing evt.event_id consumer
          (fail_event_processing now evt consumer error status duration_ms rows)
        ≡ Option.map
            (failed now error status duration_ms)
            (get_event_processing evt.event_id consumer rows)
  unfolding get_event_processing fail_event_processing failed
  get-fail error status rows =
      select_first-update (is_row evt.event_id consumer) (failed now error status duration_ms)
        (λ r. refl) rows

  pub get-fail_other :
      (error : String) (status : EventProcessingStatus) (e c : String) (rows : List EventProcessing)
      → same_key e c evt.event_id consumer ≡ false
      → get_event_processing e c
          (fail_event_processing now evt consumer error status duration_ms rows)
        ≡ get_event_processing e c rows
  unfolding get_event_processing fail_event_processing failed
  get-fail_other error status e c rows apart =
      select_first-update_miss (is_row e c) (is_row evt.event_id consumer)
        (failed now error status duration_ms) (λ r. is_row-apart e c evt.event_id consumer r apart)
        (λ r. refl) rows
