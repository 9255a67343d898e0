-- ===== src/Recovery/Streak.antt =====
-- domains/rca/recovery_verification.py: the streak of healthy windows that the stored values stand for.
use Prim.Native.Nat.{ℕ, zero, suc, ◌+◌, ◌-◌, ◌*◌}
use k8s_clue.Prelude.{
  String, ◌≡◌, refl, Bool, true, false, ◌&&◌, Option, none, some, List, [], ◌∷◌, length, ltb, leb,
  arith, if◌then◌else◌, Bool-cases, inl, inr, ap,
}
use k8s_clue.Recovery.{
  VerificationStatus, pending, failed, completed, Verification, VerificationDecision, Evidence,
  RecoveryPlan, second, minimum_of, next_key, is_unhealthy, is_duplicate, fresh_window, is_expired,
  minimum_distinct, is_pending, on_evidence, observe_all, evaluate_recovery_evidence, regressed,
  decide_streak, is_stable, is_broken, judge_window, with_cadence, updated,
}

-- A plan with the healthy windows of its streak, the latest first.
pub record StreakPlan : Type 0 where
  pub status : VerificationStatus
  pub windows : List ℕ
  pub last_evidence_key : String

abbrev pub streak_plan : VerificationStatus → List ℕ → String → StreakPlan
streak_plan status windows key = record {
  status = status;
  windows = windows;
  last_evidence_key = key;
}

abbrev pub oldest : ℕ → List ℕ → ℕ
oldest w [] = w
oldest w (x ∷ xs) = oldest x xs

-- A window continues a streak if it comes after its latest one, within one and a half cadences.
abbrev pub continues : ℕ → ℕ → List ℕ → Bool
continues cadence w [] = true
continues cadence w (latest ∷ _) = ltb latest w && leb (2 * (w - latest)) (3 * cadence * second)

abbrev pub is_long : ℕ → ℕ → ℕ → List ℕ → Bool
is_long minimum cadence w ws =
    leb (minimum * second) (w - oldest w ws)
    && leb (minimum_distinct minimum cadence) (length ws + 1)

abbrev pub expired_or_pending : Option ℕ → ℕ → VerificationStatus
expired_or_pending deadline now = if is_expired deadline now then failed else pending

unbroken :
    (c w latest : ℕ) (ws : List ℕ)
    → continues c w (latest ∷ ws) ≡ true
    → is_broken c w (some latest) ≡ false
unbroken c w latest ws h = ground arith

broken :
    (c w latest : ℕ) (ws : List ℕ)
    → continues c w (latest ∷ ws) ≡ false
    → is_broken c w (some latest) ≡ true
broken c w latest ws h = ground arith

-- The constants of the verification are those of `v`.
module _ (v : Verification) where
  abbrev pub kept : ℕ → ℕ → List ℕ → List ℕ
  kept cadence w ws = if continues cadence w ws then ws else []

  abbrev pub extend : ℕ → ℕ → List ℕ → ℕ → String → StreakPlan
  extend cadence w ws now key = record {
    status =
        if is_long (minimum_of v) cadence w ws
        then completed
        else expired_or_pending v.deadline_at now;
    windows = w ∷ ws;
    last_evidence_key = key;
  }

  abbrev pub healthy_step : Option ℕ → ℕ → List ℕ → ℕ → String → StreakPlan
  healthy_step none w ws now key = record {
    status = pending;
    windows = [];
    last_evidence_key = key;
  }
  healthy_step (some zero) w ws now key = record {
    status = pending;
    windows = [];
    last_evidence_key = key;
  }
  healthy_step (some (suc c)) w ws now key = extend (suc c) w (kept (suc c) w ws) now key

  abbrev pub fresh_step : StreakPlan → Evidence → ℕ → Option ℕ → StreakPlan
  fresh_step plan evidence now none = plan
  fresh_step plan evidence now (some w) =
      let key = next_key evidence.evidence_key plan.last_evidence_key in
      if is_unhealthy evidence
      then record {
        status = expired_or_pending v.deadline_at now;
        windows = [];
        last_evidence_key = key;
      }
      else healthy_step v.evidence_cadence_seconds w plan.windows now key

  -- The verification that stands for a streak.
  abbrev pub stored : StreakPlan → Verification
  stored plan = record v {
    healthy_since = elim plan.windows [ [] ↦ none | w ∷ ws ↦ some (oldest w ws) ];
    last_healthy_observed_at = elim plan.windows [ [] ↦ none | w ∷ _ ↦ some w ];
    distinct_evidence_count = length plan.windows;
    last_evidence_key = plan.last_evidence_key;
  }

  -- A duplicate, or a window outside the verification, changes nothing.
  abbrev pub streak_step : StreakPlan → Evidence → ℕ → StreakPlan
  streak_step plan evidence now =
      if is_pending plan.status
      then (if is_duplicate (stored plan) evidence
          then plan
          else fresh_step plan evidence now (fresh_window v.started_at evidence.window_start now))
      else plan

  unfoldable pub streak_all : StreakPlan → List (Evidence × ℕ) → StreakPlan
  streak_all plan [] = plan
  streak_all plan ((evidence, now) ∷ rest) = streak_all (streak_step plan evidence now) rest

  abbrev pub plan_of : StreakPlan → RecoveryPlan
  plan_of plan = record { status = plan.status; verification = stored plan }

  -- A count that is one more than a length is the length with one more item.
  counted :
      (status : VerificationStatus) (w : ℕ) (ws : List ℕ) (key : String)
      → record {
        status = status;
        verification = record v {
          healthy_since = some (oldest w ws);
          last_healthy_observed_at = some w;
          distinct_evidence_count = length ws + 1;
          last_evidence_key = key;
        };
      }
        ≡ plan_of (record { status = status; windows = w ∷ ws; last_evidence_key = key })
  counted status w ws key =
      ap
        (λ n. record {
          status = status;
          verification = record v {
            healthy_since = some (oldest w ws);
            last_healthy_observed_at = some w;
            distinct_evidence_count = n;
            last_evidence_key = key;
          };
        })
        (omega arith)

  module _ (plan : StreakPlan) (now : ℕ) (key : String) where
    abbrev decided : VerificationDecision → RecoveryPlan
    decided decision = record {
      status = decision.status;
      verification = updated (stored plan) decision;
    }

    decided-extend :
        (c w : ℕ) (ws : List ℕ)
        → decided (decide_streak (stored plan) (suc c) (oldest w ws) w (length ws + 1) now key)
          ≡ plan_of (extend (suc c) w ws now key)
    unfolding decide_streak is_stable
    decided-extend c w ws = elim (Bool-cases (is_long (minimum_of v) (suc c) w ws)) [
      | inl long ↦ rw (long) (counted completed w ws key)
      | inr short ↦ elim (Bool-cases (is_expired v.deadline_at now)) [
        | inl over ↦ rw (short, over) (counted failed w ws key)
        | inr early ↦ rw (short, early) (counted pending w ws key)
      ]
    ]

    decided-healthy :
        (cadence : Option ℕ) (w : ℕ) (ws : List ℕ)
        → plan.windows ≡ ws
        → decided (with_cadence (stored plan) cadence w now key)
          ≡ plan_of (healthy_step cadence w ws now key)
    unfolding decide_streak
    decided-healthy none w ws same = refl
    decided-healthy (some zero) w ws same = refl
    decided-healthy (some (suc c)) w [] same = rw same (decided-extend c w [])
    decided-healthy (some (suc c)) w (latest ∷ ws) same =
        elim (Bool-cases (continues (suc c) w (latest ∷ ws))) [
          | inl goes_on ↦
              rw (same, goes_on, unbroken (suc c) w latest ws goes_on)
                (decided-extend c w (latest ∷ ws))
          | inr ends ↦ rw (same, ends, broken (suc c) w latest ws ends) (decided-extend c w [])
        ]

    decided-regressed :
        (evidence : Evidence)
        → decided (regressed (stored plan) evidence now)
          ≡ plan_of (record {
            status = expired_or_pending v.deadline_at now;
            windows = [];
            last_evidence_key = next_key evidence.evidence_key plan.last_evidence_key;
          })
    unfolding regressed
    decided-regressed evidence = elim (Bool-cases (is_expired v.deadline_at now)) [
      | inl over ↦ rw over refl
      | inr early ↦ rw early refl
    ]

  decided-fresh :
      (windows : List ℕ) (key : String) (evidence : Evidence) (now : ℕ) (window : Option ℕ)
      → let plan = streak_plan pending windows key in
        decided plan now key (judge_window (stored plan) evidence now window)
        ≡ plan_of (fresh_step plan evidence now window)
  decided-fresh windows key evidence now none = refl
  decided-fresh windows key evidence now (some w) = elim (Bool-cases (is_unhealthy evidence)) [
    | inl unhealthy ↦
        rw unhealthy (decided-regressed (streak_plan pending windows key) now key evidence)
    | inr healthy ↦ rw healthy (
        decided-healthy (streak_plan pending windows key) now (next_key evidence.evidence_key key)
          v.evidence_cadence_seconds w windows refl)
  ]

  pending_step :
      (windows : List ℕ) (key : String) (evidence : Evidence) (now : ℕ)
      → let plan = streak_plan pending windows key in
        on_evidence (plan_of plan) evidence now ≡ plan_of (streak_step plan evidence now)
  unfolding on_evidence evaluate_recovery_evidence
  pending_step windows key evidence now =
      let plan = streak_plan pending windows key in
      elim (Bool-cases (is_duplicate (stored plan) evidence)) [
        | inl again ↦ rw again refl
        | inr first ↦ rw first (
            decided-fresh windows key evidence now
              (fresh_window v.started_at evidence.window_start now))
      ]

  on_evidence-streak_step :
      (status : VerificationStatus) (windows : List ℕ) (key : String) (evidence : Evidence)
      (now : ℕ)
      → let plan = streak_plan status windows key in
        on_evidence (plan_of plan) evidence now ≡ plan_of (streak_step plan evidence now)
  unfolding on_evidence
  on_evidence-streak_step pending windows key evidence now = pending_step windows key evidence now
  on_evidence-streak_step failed windows key evidence now = refl
  on_evidence-streak_step completed windows key evidence now = refl

  -- Whatever windows arrive, in whatever order, the stored start, latest window and count are those of a
  -- streak of healthy windows that the plan keeps, and the plan's status is the streak's.
  pub observe_all-streak_all :
      (plan : StreakPlan) (arrivals : List (Evidence × ℕ))
      → observe_all (plan_of plan) arrivals ≡ plan_of (streak_all plan arrivals)
  unfolding observe_all streak_all
  observe_all-streak_all plan [] = refl
  observe_all-streak_all plan ((evidence, now) ∷ rest) =
      rw (on_evidence-streak_step plan.status plan.windows plan.last_evidence_key evidence now)
        (observe_all-streak_all (streak_step plan evidence now) rest)
