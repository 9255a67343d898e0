-- ===== src/Recovery/Steady.antt =====
-- domains/rca/recovery_verification.py: a verification under steady healthy evidence.
use Prim.Native.Nat.{ℕ, suc, ◌+◌, ◌-◌, ◌*◌, ◌≤◌}
use k8s_clue.Prelude.{
  String, ◌≡◌, refl, true, false, some, List, [], ◌∷◌, map, length, arith, Bool-cases, inl, inr, ap,
  ◌∙◌,
}
use k8s_clue.Recovery.{
  pending, completed, Verification, Evidence, RecoveryPlan, second, minimum_of, next_key,
  is_unhealthy, is_duplicate, fresh_window, is_expired, minimum_distinct, observe_all,
}
use k8s_clue.Recovery.Streak.{
  StreakPlan, streak_plan, oldest, continues, is_long, extend, stored, streak_step, streak_all,
  plan_of, observe_all-streak_all,
}

-- A window of evidence with its trusted start and the time at which it arrives.
pub record Arrival : Type 0 where
  pub evidence : Evidence
  pub now : ℕ
  pub window : ℕ

abbrev pub arrived : Arrival → Evidence × ℕ
arrived a = (a.evidence, a.now)

abbrev pub last_window : Arrival → List Arrival → ℕ
last_window a [] = a.window
last_window a (b ∷ rest) = last_window b rest

module _ (v : Verification) (c : ℕ) where
  -- The windows arrive inside the verification and before its deadline, each healthy, each with another key
  -- than the one before, and each continues the streak.
  abbrev pub IsSteady : List ℕ → String → List Arrival → Type 0
  IsSteady ws key [] = Unit
  IsSteady ws key (a ∷ rest) =
      (is_duplicate (stored v (streak_plan pending ws key)) a.evidence ≡ false)
      × (fresh_window v.started_at a.evidence.window_start a.now ≡ some a.window)
      × (is_unhealthy a.evidence ≡ false)
      × (continues (suc c) a.window ws ≡ true)
      × (is_expired v.deadline_at a.now ≡ false)
      × IsSteady (a.window ∷ ws) (next_key a.evidence.evidence_key key) rest

  streak_all-ended :
      (plan : StreakPlan) (arrivals : List (Evidence × ℕ))
      → plan.status ≡ completed
      → (streak_all v plan arrivals).status ≡ completed
  unfolding streak_all
  streak_all-ended plan [] h = h
  streak_all-ended plan ((evidence, now) ∷ rest) h =
      streak_all-ended (streak_step v plan evidence now) rest (rw h refl)

  same_status :
      (plan plan' : StreakPlan) (arrivals : List (Evidence × ℕ))
      → plan ≡ plan'
      → (streak_all v plan' arrivals).status ≡ completed
      → (streak_all v plan arrivals).status ≡ completed
  same_status plan plan' arrivals same h = rw same h

  long_enough :
      (minimum w : ℕ) (ws : List ℕ)
      → minimum * second ≤ w - oldest w ws
      → minimum_distinct minimum (suc c) ≤ length ws + 1
      → is_long minimum (suc c) w ws ≡ true
  long_enough minimum w ws lasts enough = ground arith

  -- A streak that is not long enough yet, before the deadline.
  extend-pending :
      (w : ℕ) (ws : List ℕ) (now : ℕ) (key : String)
      → is_long (minimum_of v) (suc c) w ws ≡ false
      → is_expired v.deadline_at now ≡ false
      → extend v (suc c) w ws now key ≡ streak_plan pending (w ∷ ws) key
  extend-pending w ws now key short early = rw (short, early) refl

  module _ (cadence : v.evidence_cadence_seconds ≡ some (suc c)) where
    streak_step-extend :
        (a : Arrival) (ws : List ℕ) (key : String)
        → is_duplicate (stored v (streak_plan pending ws key)) a.evidence ≡ false
        → fresh_window v.started_at a.evidence.window_start a.now ≡ some a.window
        → is_unhealthy a.evidence ≡ false
        → continues (suc c) a.window ws ≡ true
        → streak_step v (streak_plan pending ws key) a.evidence a.now
          ≡ extend v (suc c) a.window ws a.now (next_key a.evidence.evidence_key key)
    streak_step-extend a ws key first fresh healthy goes_on =
        rw (first, fresh, healthy, cadence, goes_on) refl

    streak_all-completes :
        (a : Arrival) (rest : List Arrival) (ws : List ℕ) (key : String)
        → IsSteady ws key (a ∷ rest)
        → minimum_of v * second ≤ last_window a rest - oldest a.window ws
        → minimum_distinct (minimum_of v) (suc c) ≤ length ws + length (a ∷ rest)
        → (streak_all v (streak_plan pending ws key) (map arrived (a ∷ rest))).status ≡ completed
    unfolding streak_all
    streak_all-completes a [] ws key (first, fresh, healthy, goes_on, early, steady) lasts enough =
        ap (λ (p : StreakPlan). p.status) (streak_step-extend a ws key first fresh healthy goes_on)
        ∙ rw (long_enough (minimum_of v) a.window ws lasts (omega (arith, enough))) refl
    streak_all-completes a (b ∷ rest) ws key (first, fresh, healthy, goes_on, early, steady) lasts
          enough =
        let key' = next_key a.evidence.evidence_key key in
        same_status _ (extend v (suc c) a.window ws a.now key') (map arrived (b ∷ rest))
          (streak_step-extend a ws key first fresh healthy goes_on)
          (elim (Bool-cases (is_long (minimum_of v) (suc c) a.window ws)) [
            | inl long ↦
                streak_all-ended (extend v (suc c) a.window ws a.now key') (map arrived (b ∷ rest))
                  (rw long refl)
            | inr short ↦
                same_status _ (streak_plan pending (a.window ∷ ws) key') (map arrived (b ∷ rest))
                  (extend-pending a.window ws a.now key' short early)
                  (streak_all-completes b rest (a.window ∷ ws) key' steady lasts
                    (omega (arith, enough)))
          ])

-- Where steady healthy windows arrive before the deadline at a plan with no streak yet, and they are as many
-- as the cadence asks for and span the minimum time, the verification completes.
pub observe_all-completes :
    (v : Verification) (c : ℕ) (key : String) (a : Arrival) (rest : List Arrival)
    → v.evidence_cadence_seconds ≡ some (suc c)
    → IsSteady v c [] key (a ∷ rest)
    → minimum_of v * second ≤ last_window a rest - a.window
    → minimum_distinct (minimum_of v) (suc c) ≤ length (a ∷ rest)
    → (observe_all (plan_of v (streak_plan pending [] key)) (map arrived (a ∷ rest))).status
      ≡ completed
observe_all-completes v c key a rest cadence steady lasts enough =
    ap (λ (p : RecoveryPlan). p.status)
      (observe_all-streak_all v (streak_plan pending [] key) (map arrived (a ∷ rest)))
    ∙ streak_all-completes v c cadence a rest [] key steady lasts (omega (arith, enough))
