-- ===== src/Recovery.antt =====
-- The verification of a recovery: `evaluate_recovery_evidence` of domains/rca/recovery_verification.py and
-- what `on_recovery_verification_evidence` of services/ai/rca-feedback-worker/app.py does with a plan.
-- Times are microseconds; the texts in which a plan keeps them are read back by Python as they were written.
pub mod Streak
pub mod Verified
pub mod Steady
use Prim.Native.Nat.{ℕ, zero, suc, ◌+◌, ◌-◌, ◌*◌, ◌/◌, max, min}
use k8s_clue.Prelude.{
  String, Bool, true, false, not, ◌&&◌, ◌||◌, Option, none, some, List, [], ◌∷◌, any, str_eq, ltb,
  leb, ◌==◌, if◌then◌else◌,
}

pub data VerificationStatus : Type 0 where
  pending : VerificationStatus
  failed : VerificationStatus
  completed : VerificationStatus

-- What the plan's lifecycle holds, as the parsers read it; the key is "" where there is none.
pub record Verification : Type 0 where
  pub started_at : Option ℕ
  pub deadline_at : Option ℕ
  pub minimum_seconds : Option ℕ
  pub evidence_cadence_seconds : Option ℕ
  pub healthy_since : Option ℕ
  pub last_healthy_observed_at : Option ℕ
  pub distinct_evidence_count : ℕ
  pub last_evidence_key : String

-- A window of evidence: its key, its trusted start and the checks that it gives, none where one is missing.
pub record Evidence : Type 0 where
  pub evidence_key : String
  pub window_start : Option ℕ
  pub checks : List (String × Option Bool)

-- The sentence for readers and the copy of the observation are left out.
pub record VerificationDecision : Type 0 where
  pub status : VerificationStatus
  pub reason_code : String
  pub healthy_since : Option ℕ
  pub last_healthy_observed_at : Option ℕ
  pub distinct_evidence_count : ℕ
  pub last_evidence_key : String

abbrev pub second : ℕ
second = 1000000

unfoldable pub bounded_seconds : Option ℕ → ℕ → ℕ → ℕ → ℕ
bounded_seconds none default minimum maximum = default
bounded_seconds (some parsed) default minimum maximum = max minimum (min parsed maximum)

abbrev pub minimum_of : Verification → ℕ
minimum_of v = bounded_seconds v.minimum_seconds 300 300 600

-- evidence_key or previous_key
abbrev pub next_key : String → String → String
next_key key previous = if str_eq key "" then previous else key

abbrev is_failed : String × Option Bool → Bool
is_failed (name, some false) = true
is_failed (name, _) = false

abbrev is_missing : String × Option Bool → Bool
is_missing (name, none) = true
is_missing (name, _) = false

-- failed_checks or missing_checks
abbrev pub is_unhealthy : Evidence → Bool
is_unhealthy evidence = any is_failed evidence.checks || any is_missing evidence.checks

abbrev pub is_duplicate : Verification → Evidence → Bool
is_duplicate v evidence =
    not (str_eq evidence.evidence_key "") && str_eq evidence.evidence_key v.last_evidence_key

-- The trusted start of a window that lies between the start of the verification and now.
abbrev pub fresh_window : Option ℕ → Option ℕ → ℕ → Option ℕ
fresh_window (some started) (some window) now =
    if ltb window started || ltb now window then none else some window
fresh_window _ _ now = none

abbrev pub is_expired : Option ℕ → ℕ → Bool
is_expired none now = false
is_expired (some deadline) now = leb deadline now

-- The decision that leaves the streak as it is.
abbrev unchanged : Verification → String → VerificationDecision
unchanged v reason_code = record {
  status = pending;
  reason_code = reason_code;
  healthy_since = v.healthy_since;
  last_healthy_observed_at = v.last_healthy_observed_at;
  distinct_evidence_count = v.distinct_evidence_count;
  last_evidence_key = v.last_evidence_key;
}

-- A decision that ends the streak.
abbrev reset : VerificationStatus → String → String → VerificationDecision
reset status reason_code key = record {
  status = status;
  reason_code = reason_code;
  healthy_since = none;
  last_healthy_observed_at = none;
  distinct_evidence_count = 0;
  last_evidence_key = key;
}

unfoldable pub regressed : Verification → Evidence → ℕ → VerificationDecision
regressed v evidence now =
    let key = next_key evidence.evidence_key v.last_evidence_key in
    if is_expired v.deadline_at now
    then reset failed "verification_window_expired" key
    else reset pending
        (if any is_failed evidence.checks
          then "verification_regressed"
          else "verification_evidence_missing")
        key

-- gap_seconds <= 0 or gap_seconds > cadence_seconds * 1.5
abbrev pub is_broken : ℕ → ℕ → Option ℕ → Bool
is_broken cadence window none = false
is_broken cadence window (some previous) =
    leb window previous || ltb (3 * cadence * second) (2 * (window - previous))

-- The start of the streak that the window continues, and how many windows came before it.
abbrev pub kept_since : Bool → Option ℕ → Option ℕ
kept_since true since = none
kept_since false since = since

abbrev pub kept_count : Bool → ℕ → ℕ
kept_count true count = 0
kept_count false count = count

abbrev pub or_window : Option ℕ → ℕ → ℕ
or_window none window = window
or_window (some since) window = since

-- max(2, math.ceil(minimum_seconds / cadence_seconds) + 1)
unfoldable pub minimum_distinct : ℕ → ℕ → ℕ
minimum_distinct minimum zero = 2
minimum_distinct minimum (suc c) = max 2 ((minimum + c) / suc c + 1)

unfoldable pub is_stable : ℕ → ℕ → ℕ → ℕ → ℕ → Bool
is_stable minimum cadence stable_from window count =
    leb (minimum * second) (window - stable_from) && leb (minimum_distinct minimum cadence) count

abbrev streak : VerificationStatus → String → ℕ → ℕ → ℕ → String → VerificationDecision
streak status reason_code stable_from window count key = record {
  status = status;
  reason_code = reason_code;
  healthy_since = some stable_from;
  last_healthy_observed_at = some window;
  distinct_evidence_count = count;
  last_evidence_key = key;
}

-- The decision for a healthy window that continues or starts a streak.
unfoldable pub decide_streak : Verification → ℕ → ℕ → ℕ → ℕ → ℕ → String → VerificationDecision
decide_streak v cadence stable_from window count now key =
    if is_stable (minimum_of v) cadence stable_from window count
    then streak completed "recovery_verified" stable_from window count key
    else if is_expired v.deadline_at now
    then streak failed "verification_window_expired" stable_from window count key
    else streak pending "stabilization_window_in_progress" stable_from window count key

abbrev pub with_cadence : Verification → Option ℕ → ℕ → ℕ → String → VerificationDecision
with_cadence v none window now key = reset pending "verification_evidence_missing" key
with_cadence v (some zero) window now key = reset pending "verification_evidence_missing" key
with_cadence v (some (suc c)) window now key =
    let broken = is_broken (suc c) window v.last_healthy_observed_at in
    decide_streak v (suc c) (or_window (kept_since broken v.healthy_since) window) window
      (kept_count broken v.distinct_evidence_count + 1) now key

abbrev pub judge_window : Verification → Evidence → ℕ → Option ℕ → VerificationDecision
judge_window v evidence now none = unchanged v "stale_evidence_window"
judge_window v evidence now (some window) =
    if is_unhealthy evidence
    then regressed v evidence now
    else with_cadence v v.evidence_cadence_seconds window now
        (next_key evidence.evidence_key v.last_evidence_key)

unfoldable pub evaluate_recovery_evidence : Verification → Evidence → ℕ → VerificationDecision
evaluate_recovery_evidence v evidence now =
    if is_duplicate v evidence
    then unchanged v "duplicate_evidence_window"
    else judge_window v evidence now (fresh_window v.started_at evidence.window_start now)

-- The plan's row: its status and what its lifecycle holds of the verification.
pub record RecoveryPlan : Type 0 where
  pub status : VerificationStatus
  pub verification : Verification

abbrev pub is_pending : VerificationStatus → Bool
is_pending pending = true
is_pending _ = false

abbrev pub updated : Verification → VerificationDecision → Verification
updated v decision = record v {
  healthy_since = decision.healthy_since;
  last_healthy_observed_at = decision.last_healthy_observed_at;
  distinct_evidence_count = decision.distinct_evidence_count;
  last_evidence_key = decision.last_evidence_key;
}

-- Only a plan whose verification is pending is evaluated, and saved while it still is.
unfoldable pub on_evidence : RecoveryPlan → Evidence → ℕ → RecoveryPlan
on_evidence plan evidence now =
    let decision = evaluate_recovery_evidence plan.verification evidence now in
    if is_pending plan.status
    then record { status = decision.status; verification = updated plan.verification decision }
    else plan

-- The windows that arrive, each with the time at which it does.
unfoldable pub observe_all : RecoveryPlan → List (Evidence × ℕ) → RecoveryPlan
observe_all plan [] = plan
observe_all plan ((evidence, now) ∷ rest) = observe_all (on_evidence plan evidence now) rest
