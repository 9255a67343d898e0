-- ===== src/Recovery/Verified.antt =====
-- What has been seen when the verification of domains/rca/recovery_verification.py completes.
use Prim.Native.Nat.{ℕ, zero, suc, ◌+◌, ◌-◌, ◌*◌, ◌≤◌}
use k8s_clue.Prelude.{
  String, ◌≡◌, refl, Bool, true, false, not, ◌&&◌, ◌||◌, Option, none, some, List, [], ◌∷◌, any,
  All, length, ◌==◌, arith, Bool-cases, inl, inr, ap, sym, ◌∙◌, subst,
}
use k8s_clue.Recovery.{
  VerificationStatus, pending, completed, Verification, Evidence, RecoveryPlan, second, minimum_of,
  bounded_seconds, next_key, is_unhealthy, is_duplicate, fresh_window, is_expired, minimum_distinct,
  is_pending, observe_all,
}
use k8s_clue.Recovery.Streak.{
  StreakPlan, streak_plan, oldest, continues, is_long, expired_or_pending, kept, extend,
  healthy_step, fresh_step, stored, streak_step, streak_all, plan_of, observe_all-streak_all,
}

abbrev is_window : ℕ → Option ℕ → Bool
is_window w none = false
is_window w (some x) = x == w

or_left : (a b : Bool) → a ≡ true → (a || b) ≡ true
or_left a b h = ground arith

or_right : (a b : Bool) → b ≡ true → (a || b) ≡ true
or_right a b h = ground arith

module _ (v : Verification) where
  -- A window that arrived inside the verification, with every check passed.
  abbrev pub shows : ℕ → Evidence × ℕ → Bool
  shows w (evidence, now) =
      not (is_unhealthy evidence)
      && is_window w (fresh_window v.started_at evidence.window_start now)

  abbrev continues_at : Option ℕ → ℕ → List ℕ → Bool
  continues_at none w ws = false
  continues_at (some cadence) w ws = continues cadence w ws

  -- Each window continues the ones before it.
  abbrev pub IsLinked : List ℕ → Type 0
  IsLinked [] = Unit
  IsLinked (w ∷ ws) = (continues_at v.evidence_cadence_seconds w ws ≡ true) × IsLinked ws

  abbrev is_long_at : Option ℕ → ℕ → List ℕ → Bool
  is_long_at none w ws = false
  is_long_at (some cadence) w ws = is_long (minimum_of v) cadence w ws

  abbrev IsDone : VerificationStatus → List ℕ → Type 0
  IsDone completed [] = ⊥
  IsDone completed (w ∷ ws) = is_long_at v.evidence_cadence_seconds w ws ≡ true
  IsDone _ _ = Unit

  module _ (Seen : ℕ → Type 0) where
    record IsKept (plan : StreakPlan) : Type 0 where
      linked : IsLinked plan.windows
      seen : All Seen plan.windows
      done : IsDone plan.status plan.windows

    expired_or_pending-IsDone :
        (now : ℕ) (ws : List ℕ) → IsDone (expired_or_pending v.deadline_at now) ws
    expired_or_pending-IsDone now ws = elim (Bool-cases (is_expired v.deadline_at now)) [
      | inl over ↦ rw over tt
      | inr early ↦ rw early tt
    ]

    extend-IsKept :
        (c w : ℕ) (ws : List ℕ) (now : ℕ) (key : String)
        → v.evidence_cadence_seconds ≡ some c
        → Seen w
        → IsLinked (w ∷ ws)
        → All Seen ws
        → IsKept (extend v c w ws now key)
    extend-IsKept c w ws now key cadence is_seen linked all_seen = record {
      linked = linked;
      seen = (is_seen, all_seen);
      done = elim (Bool-cases (is_long (minimum_of v) c w ws)) [
        | inl long ↦ rw (long, cadence) long
        | inr short ↦ rw short (expired_or_pending-IsDone now (w ∷ ws))
      ];
    }

    healthy_step-IsKept :
        (cadence : Option ℕ) (w : ℕ) (ws : List ℕ) (now : ℕ) (key : String)
        → v.evidence_cadence_seconds ≡ cadence
        → Seen w
        → IsLinked ws
        → All Seen ws
        → IsKept (healthy_step v cadence w ws now key)
    healthy_step-IsKept none w ws now key same is_seen linked all_seen = record {
      linked = tt;
      seen = tt;
      done = tt;
    }
    healthy_step-IsKept (some zero) w ws now key same is_seen linked all_seen = record {
      linked = tt;
      seen = tt;
      done = tt;
    }
    healthy_step-IsKept (some (suc c)) w ws now key same is_seen linked all_seen =
        elim (Bool-cases (continues (suc c) w ws)) [
          | inl goes_on ↦
              rw goes_on
                (extend-IsKept (suc c) w ws now key same is_seen (rw same goes_on, linked) all_seen)
          | inr ends ↦
              rw ends (extend-IsKept (suc c) w [] now key same is_seen (rw same refl, tt) tt)
        ]

    fresh_step-IsKept :
        (plan : StreakPlan) (evidence : Evidence) (now : ℕ) (window : Option ℕ)
        → ((w : ℕ) → (not (is_unhealthy evidence) && is_window w window) ≡ true → Seen w)
        → IsKept plan
        → IsKept (fresh_step v plan evidence now window)
    fresh_step-IsKept plan evidence now none shown kept = kept
    fresh_step-IsKept plan evidence now (some w) shown kept =
        elim (Bool-cases (is_unhealthy evidence)) [
          | inl unhealthy ↦
              rw unhealthy
                (record { linked = tt; seen = tt; done = expired_or_pending-IsDone now [] })
          | inr healthy ↦ rw healthy (
              healthy_step-IsKept v.evidence_cadence_seconds w plan.windows now
                (next_key evidence.evidence_key plan.last_evidence_key) refl
                (shown w (rw healthy (ground arith))) kept.linked kept.seen)
        ]

    streak_step-IsKept :
        (plan : StreakPlan) (evidence : Evidence) (now : ℕ)
        → ((w : ℕ) → shows w (evidence, now) ≡ true → Seen w)
        → IsKept plan
        → IsKept (streak_step v plan evidence now)
    streak_step-IsKept plan evidence now shown kept = elim (Bool-cases (is_pending plan.status)) [
      | inr ended ↦ rw ended kept
      | inl going ↦ elim (Bool-cases (is_duplicate (stored v plan) evidence)) [
        | inl again ↦ rw (going, again) kept
        | inr first ↦
            rw (going, first)
              (fresh_step-IsKept plan evidence now
                (fresh_window v.started_at evidence.window_start now) shown kept)
      ]
    ]

    streak_all-IsKept :
        (plan : StreakPlan) (arrivals : List (Evidence × ℕ))
        → ((w : ℕ) → any (shows w) arrivals ≡ true → Seen w)
        → IsKept plan
        → IsKept (streak_all v plan arrivals)
    unfolding streak_all
    streak_all-IsKept plan [] shown kept = kept
    streak_all-IsKept plan ((evidence, now) ∷ rest) shown kept =
        streak_all-IsKept (streak_step v plan evidence now) rest
          (λ w h. shown w (or_right (shows w (evidence, now)) (any (shows w) rest) h))
          (streak_step-IsKept plan evidence now
            (λ w h. shown w (or_left (shows w (evidence, now)) (any (shows w) rest) h)) kept)

-- The healthy windows that a completed verification stands on.
pub record IsVerified (v : Verification) (arrivals : List (Evidence × ℕ)) : Type 0 where
  pub latest : ℕ
  pub earlier : List ℕ
  pub cadence : ℕ
  pub has_cadence : v.evidence_cadence_seconds ≡ some cadence
  pub seen : All (λ w. any (shows v w) arrivals ≡ true) (latest ∷ earlier)
  pub linked : IsLinked v (latest ∷ earlier)
  pub lasts : minimum_of v * second ≤ latest - oldest latest earlier
  pub at_least : 300 ≤ minimum_of v
  pub enough : minimum_distinct (minimum_of v) cadence ≤ length earlier + 1

bounded_seconds-le : (parsed : Option ℕ) → 300 ≤ bounded_seconds parsed 300 300 600
unfolding bounded_seconds
bounded_seconds-le none = omega arith
bounded_seconds-le (some parsed) = omega arith

is_long-le :
    (minimum cadence w : ℕ) (ws : List ℕ)
    → is_long minimum cadence w ws ≡ true
    → (minimum * second ≤ w - oldest w ws) × (minimum_distinct minimum cadence ≤ length ws + 1)
is_long-le minimum cadence w ws h = ground arith

is_long_at-some :
    (v : Verification) (c w : ℕ) (ws : List ℕ)
    → v.evidence_cadence_seconds ≡ some c
    → is_long_at v v.evidence_cadence_seconds w ws ≡ true
    → is_long (minimum_of v) c w ws ≡ true
is_long_at-some v c w ws same h = subst (λ o. is_long_at v o w ws ≡ true) same h

done-IsVerified :
    (v : Verification) (arrivals : List (Evidence × ℕ)) (windows : List ℕ) (cadence : Option ℕ)
    → v.evidence_cadence_seconds ≡ cadence
    → IsLinked v windows
    → All (λ w. any (shows v w) arrivals ≡ true) windows
    → IsDone v completed windows
    → IsVerified v arrivals
done-IsVerified v arrivals [] cadence same linked seen done = elim done [ ]
done-IsVerified v arrivals (w ∷ ws) none same linked seen done =
    let done' = subst (λ o. is_long_at v o w ws ≡ true) same done in ground arith
done-IsVerified v arrivals (w ∷ ws) (some c) same linked seen done =
    let long = is_long_at-some v c w ws same done in
    record {
      latest = w;
      earlier = ws;
      cadence = c;
      has_cadence = same;
      seen = seen;
      linked = linked;
      lasts = (is_long-le (minimum_of v) c w ws long).0;
      at_least = bounded_seconds-le v.minimum_seconds;
      enough = (is_long-le (minimum_of v) c w ws long).1;
    }

-- Where a plan with no streak yet ends a run of arrivals as completed, it has seen a streak of windows: each
-- arrived inside the verification with every check passed, each continues the ones before it within one
-- and a half cadences, and together they are as many as the cadence asks for and span the minimum time,
-- which is at least 300 seconds.
pub observe_all-IsVerified :
    (v : Verification) (key : String) (arrivals : List (Evidence × ℕ))
    → (observe_all (plan_of v (streak_plan pending [] key)) arrivals).status ≡ completed
    → IsVerified v arrivals
observe_all-IsVerified v key arrivals h =
    let plan = streak_all v (streak_plan pending [] key) arrivals in
    let kept =
      streak_all-IsKept v (λ w. any (shows v w) arrivals ≡ true) (streak_plan pending [] key)
        arrivals (λ w shown. shown) (record { linked = tt; seen = tt; done = tt }) in
    let status =
      ap (λ (p : RecoveryPlan). p.status)
        (sym (observe_all-streak_all v (streak_plan pending [] key) arrivals))
      ∙ h in
    done-IsVerified v arrivals plan.windows v.evidence_cadence_seconds refl kept.linked kept.seen
      (subst (λ s. IsDone v s plan.windows) status kept.done)
