-- ===== src/Worker/Retry.antt =====
-- packages/runtime/worker.py: the deliveries of an event whose handler keeps failing.
use k8s_clue.Prelude.{
  ℕ, suc, ◌+◌, ◌≤◌, ◌<◌, String, ◌≡◌, true, false, Option, none, some, List, ◌∷◌, [], arith, All,
  length, ap, ◌++◌,
}
use k8s_clue.Events.{EventEnvelope}
use k8s_clue.Processing.{
  EventProcessing, stored, processing, retrying, dead_lettered, claimable, reclaim, first_claim,
  failed,
}
use k8s_clue.Processing.Claim.{claimed_row, begun, get-fail}
use k8s_clue.Worker.{
  EventHandlerSpec, Attempt, Store, raises, emitted, decoded, consumer_for, capture, emit_notice,
  fail, run_handler, after_claim, begin, process, consume,
}
use k8s_clue.Worker.Ack.{row_of, rows-capture, begin-row, begin-begun}

-- One delivery in which only the handler fails.
pub record Failing {B : Type 0} (evt : EventEnvelope) (env : Attempt B) : Type 0 where
  pub error : String
  pub raising : (b : B) → env.handler evt b ≡ raises error
  pub begins : env.begin_fails ≡ false
  pub captures : env.letter_fails ≡ false
  pub notifies : env.emit ≡ emitted
  pub closes : env.close_fails ≡ false
  pub acks : env.ack_fails ≡ false

-- The failed tries behind an event that is not handled and not given up.
abbrev pub tries : Option EventProcessing → Option ℕ
tries none = some 0
tries (some row) = elim row.status [ retrying ↦ some row.attempts | _ ↦ none ]

-- The tries behind an event that was given up.
abbrev pub gave_up : Option EventProcessing → Option ℕ
gave_up none = none
gave_up (some row) = elim row.status [ dead_lettered ↦ some row.attempts | _ ↦ none ]

-- Deliveries of one event, one after another.
abbrev pub deliver :
    {B : Type 0} → EventHandlerSpec → EventEnvelope → List (Attempt B) → Store B → Store B
deliver spec evt [] s = s
deliver spec evt (env ∷ envs) s = deliver spec evt envs (consume spec env (decoded evt) s).0

-- A claim on an untried event, or on one waiting for its next try, is won.
begun-tries :
    (stale now n : ℕ) (o : Option EventProcessing)
    → tries o ≡ some n
    → begun stale now o ≡ record { status = stored processing; attempts = suc n }
unfolding claimable
begun-tries stale now n none h = ground arith
begun-tries stale now n (some row) h = ground arith

claimed-tries :
    (stale now n : ℕ) (evt : EventEnvelope) (consumer : String) (o : Option EventProcessing)
    → tries o ≡ some n
    → (claimed_row stale now evt consumer o).attempts ≡ suc n
unfolding claimable first_claim reclaim
claimed-tries stale now n evt consumer none h = ground arith
claimed-tries stale now n evt consumer (some row) h = ground arith

module _ {B : Type 0} (spec : EventHandlerSpec) (evt : EventEnvelope) where
  module _ (env : Attempt B) (f : Failing evt env) (s : Store B) (n : ℕ)
      (tried : tries (row_of spec evt s) ≡ some n) where
    process-failing :
        process spec env (decoded evt) s
        ≡ fail spec env evt f.error (suc n) (begin spec env evt s).0
    unfolding process after_claim run_handler
    process-failing = ground (
      arith,
      f.begins,
      f.raising (begin spec env evt s).0.business,
      begin-begun spec env evt s,
      begun-tries spec.processing_stale_seconds env.claimed_at n (row_of spec evt s) tried,
    )

    -- The row after the claim, with the try counted.
    abbrev claimed : EventProcessing
    claimed =
        claimed_row spec.processing_stale_seconds env.claimed_at evt (consumer_for spec evt.subject)
          (row_of spec evt s)

    step-tries :
        suc n < spec.retry_policy.max_attempts
        → tries (row_of spec evt (consume spec env (decoded evt) s).0) ≡ some (suc n)
    unfolding consume fail failed
    step-tries below = rw process-failing (
        ground (
          arith,
          f.closes,
          begin-row spec env evt s,
          claimed-tries spec.processing_stale_seconds env.claimed_at n evt
              (consumer_for spec evt.subject) (row_of spec evt s) tried,
          get-fail env.closed_at evt (consumer_for spec evt.subject) (some env.elapsed_ms) f.error
              retrying (begin spec env evt s).0.ledger.rows,
        ))

    capture-returns :
        (consumer error : String) (attempts : ℕ) (t : Store B)
        → (capture env evt consumer error attempts t).1 ≡ true
    unfolding capture emit_notice
    capture-returns consumer error attempts t = ground (arith, f.captures, f.notifies)

    step-gave_up :
        spec.retry_policy.max_attempts ≤ suc n
        → gave_up (row_of spec evt (consume spec env (decoded evt) s).0) ≡ some (suc n)
    unfolding consume fail failed
    step-gave_up above = rw process-failing (
        ground (
          arith,
          f.closes,
          begin-row spec env evt s,
          claimed-tries spec.processing_stale_seconds env.claimed_at n evt
              (consumer_for spec evt.subject) (row_of spec evt s) tried,
          capture-returns (consumer_for spec evt.subject) f.error (suc n) (begin spec env evt s).0,
          rows-capture spec env evt (consumer_for spec evt.subject) f.error (suc n)
              (begin spec env evt s).0,
          get-fail env.closed_at evt (consumer_for spec evt.subject) (some env.elapsed_ms) f.error
              dead_lettered (begin spec env evt s).0.ledger.rows,
        ))

  deliver-tries :
      (envs : List (Attempt B)) (n : ℕ) (s : Store B)
      → All (Failing evt) envs
      → tries (row_of spec evt s) ≡ some n
      → n + length envs < spec.retry_policy.max_attempts
      → tries (row_of spec evt (deliver spec evt envs s)) ≡ some (n + length envs)
  deliver-tries [] n s fs tried below = ground arith
  deliver-tries (env ∷ envs) n s fs tried below = ground (
    arith,
    deliver-tries envs (suc n) (consume spec env (decoded evt) s).0 fs.1
        (step-tries env fs.0 s n tried (omega arith)) (omega arith),
  )

  deliver-gave_up :
      (envs : List (Attempt B)) (env : Attempt B) (n : ℕ) (s : Store B)
      → All (Failing evt) envs
      → Failing evt env
      → tries (row_of spec evt s) ≡ some n
      → suc (n + length envs) ≡ spec.retry_policy.max_attempts
      → gave_up (row_of spec evt (deliver spec evt (envs ++ env ∷ []) s))
        ≡ some spec.retry_policy.max_attempts
  deliver-gave_up [] env n s fs f tried last = ground (arith, step-gave_up env f s n tried)
  deliver-gave_up (e ∷ envs) env n s fs f tried last =
      deliver-gave_up envs env (suc n) (consume spec e (decoded evt) s).0 fs.1 f
        (step-tries e fs.0 s n tried (omega arith)) (omega arith)

  -- Before the limit: after fewer than `max_attempts` deliveries in which only the handler failed,
  -- an event that had no row before still waits for its next try, and the ledger has counted each of
  -- the deliveries once.
  pub deliver-counts :
      (envs : List (Attempt B)) (s : Store B)
      → row_of spec evt s ≡ none
      → All (Failing evt) envs
      → length envs < spec.retry_policy.max_attempts
      → tries (row_of spec evt (deliver spec evt envs s)) ≡ some (length envs)
  deliver-counts envs s fresh fs below =
      ground (arith, deliver-tries envs 0 s fs (ap tries fresh) (omega arith))

  -- At the limit: the delivery number `max_attempts` in which only the handler fails gives the event
  -- up, if the event had no row before: the ledger then calls it DEAD_LETTERED, with
  -- `max_attempts` tries.
  pub deliver-gives_up :
      (envs : List (Attempt B)) (env : Attempt B) (s : Store B)
      → row_of spec evt s ≡ none
      → All (Failing evt) envs
      → Failing evt env
      → suc (length envs) ≡ spec.retry_policy.max_attempts
      → gave_up (row_of spec evt (deliver spec evt (envs ++ env ∷ []) s))
        ≡ some spec.retry_policy.max_attempts
  deliver-gives_up envs env s fresh fs f last =
      deliver-gave_up envs env 0 s fs f (ap tries fresh) (omega arith)
