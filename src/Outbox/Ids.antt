-- ===== src/Outbox/Ids.antt =====
-- packages/storage/repositories/outbox.py: the ids of the outbox's rows and of their events.
use k8s_clue.Prelude.{
  ℕ, zero, suc, ◌+◌, ◌≤◌, ◌<◌, String, ◌≡◌, refl, Bool, false, Option, List, [], ◌∷◌, ◌++◌, arith,
  any-append, All, All-append, eq_iff, Bool-cases, inl, inr,
}
use k8s_clue.Prelude.Rows.{update_where}
use k8s_clue.Events.{EventEnvelope}
use k8s_clue.Processing.{seconds}
use k8s_clue.Outbox.{
  OutboxModel, Outbox, holds, stage_event, stage_events, is_claimable, lease_rows, unsent_events,
  default_outbox_lease_seconds, sent, is_in, mark_events_sent,
}
use k8s_clue.Outbox.Lease.{IsOrdered, lease_rows-IsOrdered}
use k8s_clue.Outbox.Staging.{holds_in, new_row, stage_event-present, stage_event-new}

-- Every row has another event than the rows behind it.
abbrev pub IsUnique : List OutboxModel → Type 0
IsUnique [] = Unit
IsUnique (row ∷ rows) = (holds_in row.event.event_id rows ≡ false) × IsUnique rows

pub record IsWellFormed (t : Outbox) : Type 0 where
  pub ordered : IsOrdered zero t.rows
  pub below : All (λ r. r.id < t.next_id) t.rows
  pub unique : IsUnique t.rows

-- Appending a row with the next id.
IsOrdered-snoc :
    (low : ℕ) (rows : List OutboxModel) (row : OutboxModel)
    → IsOrdered low rows
    → All (λ r. r.id < row.id) rows
    → low ≤ row.id
    → IsOrdered low (rows ++ row ∷ [])
IsOrdered-snoc low [] row o b le = (le, tt)
IsOrdered-snoc low (r ∷ rows) row o b le = (o.0, IsOrdered-snoc (suc r.id) rows row o.1 b.1 b.0)

All-below-suc :
    (n : ℕ) (rows : List OutboxModel) → All (λ r. r.id < n) rows → All (λ r. r.id < suc n) rows
All-below-suc n [] h = tt
All-below-suc n (r ∷ rows) h = (omega (arith, h.0), All-below-suc n rows h.1)

IsUnique-snoc :
    (rows : List OutboxModel) (row : OutboxModel)
    → IsUnique rows
    → holds_in row.event.event_id rows ≡ false
    → IsUnique (rows ++ row ∷ [])
IsUnique-snoc [] row u new = (refl, tt)
IsUnique-snoc (r ∷ rows) row u new = (
  ground (
    arith,
    u.0,
    any-append (holds r.event.event_id) rows (row ∷ []),
    eq_iff r.event.event_id row.event.event_id,
    eq_iff row.event.event_id r.event.event_id,
  ),
  IsUnique-snoc rows row u.1 (ground arith),
)

stage_event-IsWellFormed :
    (t : Outbox) (evt : EventEnvelope) → IsWellFormed t → IsWellFormed (stage_event t evt)
stage_event-IsWellFormed t evt w = elim (Bool-cases (holds_in evt.event_id t.rows)) [
  | inl h ↦ record {
    ordered = rw (stage_event-present t evt h) w.ordered;
    below = rw (stage_event-present t evt h) (next_below w.below);
    unique = rw (stage_event-present t evt h) w.unique;
  }
  | inr h ↦ record {
    ordered =
        rw (stage_event-new t evt h)
          (IsOrdered-snoc zero t.rows (new_row t.next_id evt) w.ordered w.below (omega arith));
    below = rw (stage_event-new t evt h) (
        All-append (λ (r : OutboxModel). r.id < (stage_event t evt).next_id) t.rows
          (new_row t.next_id evt ∷ []) (next_below w.below) (last_below, tt));
    unique = rw (stage_event-new t evt h) (IsUnique-snoc t.rows (new_row t.next_id evt) w.unique h);
  }
]
  where
    next_below :
        All (λ r. r.id < t.next_id) t.rows → All (λ r. r.id < (stage_event t evt).next_id) t.rows
    next_below b = unfold stage_event in All-below-suc t.next_id t.rows b

    last_below : t.next_id < (stage_event t evt).next_id
    last_below = unfold stage_event in omega arith

pub stage_events-IsWellFormed :
    (events : List EventEnvelope) (t : Outbox)
    → IsWellFormed t
    → IsWellFormed (stage_events events t)
unfolding stage_events
stage_events-IsWellFormed [] t w = w
stage_events-IsWellFormed (evt ∷ events) t w =
    stage_events-IsWellFormed events (stage_event t evt) (stage_event-IsWellFormed t evt w)

-- Leasing and marking rewrite rows in their places.
module _ (now : ℕ) (source : Option String) (lease_id : String) (until : ℕ) where
  lease_rows-holds :
      (id : String) (limit : ℕ) (rows : List OutboxModel)
      → holds_in id (lease_rows now source lease_id until limit rows).0 ≡ holds_in id rows
  unfolding lease_rows
  lease_rows-holds id limit [] = refl
  lease_rows-holds id zero (row ∷ rows) = refl
  lease_rows-holds id (suc limit) (row ∷ rows) = elim (Bool-cases (is_claimable now source row)) [
    | inl c ↦ rw c (rw (lease_rows-holds id limit rows))
    | inr c ↦ rw c (rw (lease_rows-holds id (suc limit) rows))
  ]

  lease_rows-IsUnique :
      (limit : ℕ) (rows : List OutboxModel)
      → IsUnique rows
      → IsUnique (lease_rows now source lease_id until limit rows).0
  unfolding lease_rows
  lease_rows-IsUnique limit [] u = tt
  lease_rows-IsUnique zero (row ∷ rows) u = u
  lease_rows-IsUnique (suc limit) (row ∷ rows) u = elim (Bool-cases (is_claimable now source row)) [
    | inl c ↦ rw c (rw lease_rows-holds u.0, lease_rows-IsUnique limit rows u.1)
    | inr c ↦ rw c (rw lease_rows-holds u.0, lease_rows-IsUnique (suc limit) rows u.1)
  ]

  lease_rows-below :
      (n limit : ℕ) (rows : List OutboxModel)
      → All (λ r. r.id < n) rows
      → All (λ r. r.id < n) (lease_rows now source lease_id until limit rows).0
  unfolding lease_rows
  lease_rows-below n limit [] b = tt
  lease_rows-below n zero (row ∷ rows) b = b
  lease_rows-below n (suc limit) (row ∷ rows) b = elim (Bool-cases (is_claimable now source row)) [
    | inl c ↦ rw c (b.0, lease_rows-below n limit rows b.1)
    | inr c ↦ rw c (b.0, lease_rows-below n (suc limit) rows b.1)
  ]

pub unsent_events-IsWellFormed :
    (order : List ℕ) (now clock : ℕ) (lease_id : String) (limit : ℕ) (source : Option String)
    (t : Outbox)
    → IsWellFormed t
    → IsWellFormed (unsent_events order now clock lease_id limit source t).0
unfolding unsent_events
unsent_events-IsWellFormed order now clock lease_id limit source t w =
    let until = clock + seconds default_outbox_lease_seconds in
    record {
      ordered = lease_rows-IsOrdered now source lease_id until limit zero t.rows w.ordered;
      below = lease_rows-below now source lease_id until t.next_id limit t.rows w.below;
      unique = lease_rows-IsUnique now source lease_id until limit t.rows w.unique;
    }

module _ (now : ℕ) (hit : OutboxModel → Bool) where
  sent-holds :
      (id : String) (rows : List OutboxModel)
      → holds_in id (update_where hit (sent now) rows) ≡ holds_in id rows
  unfolding update_where
  sent-holds id [] = refl
  sent-holds id (row ∷ rows) = ground (arith, sent-holds id rows)

  sent-IsOrdered :
      (low : ℕ) (rows : List OutboxModel)
      → IsOrdered low rows
      → IsOrdered low (update_where hit (sent now) rows)
  unfolding update_where
  sent-IsOrdered low [] o = tt
  sent-IsOrdered low (row ∷ rows) o = elim (Bool-cases (hit row)) [
    | inl h ↦ rw h (o.0, sent-IsOrdered (suc row.id) rows o.1)
    | inr h ↦ rw h (o.0, sent-IsOrdered (suc row.id) rows o.1)
  ]

  sent-below :
      (n : ℕ) (rows : List OutboxModel)
      → All (λ r. r.id < n) rows
      → All (λ r. r.id < n) (update_where hit (sent now) rows)
  unfolding update_where
  sent-below n [] b = tt
  sent-below n (row ∷ rows) b = elim (Bool-cases (hit row)) [
    | inl h ↦ rw h (b.0, sent-below n rows b.1)
    | inr h ↦ rw h (b.0, sent-below n rows b.1)
  ]

  sent-IsUnique :
      (rows : List OutboxModel) → IsUnique rows → IsUnique (update_where hit (sent now) rows)
  unfolding update_where
  sent-IsUnique [] u = tt
  sent-IsUnique (row ∷ rows) u = elim (Bool-cases (hit row)) [
    | inl h ↦ rw h (rw sent-holds u.0, sent-IsUnique rows u.1)
    | inr h ↦ rw h (rw sent-holds u.0, sent-IsUnique rows u.1)
  ]

pub mark_events_sent-IsWellFormed :
    (now : ℕ) (ids : List String) (t : Outbox)
    → IsWellFormed t
    → IsWellFormed (mark_events_sent now ids t)
unfolding mark_events_sent
mark_events_sent-IsWellFormed now ids t w =
    let hit : OutboxModel → Bool = λ row. is_in ids row.event.event_id in
    record {
      ordered = sent-IsOrdered now hit zero t.rows w.ordered;
      below = sent-below now hit t.next_id t.rows w.below;
      unique = sent-IsUnique now hit t.rows w.unique;
    }

-- What workers and relays do to the table, in any order.
pub data Op : Type 0 where
  stage : List EventEnvelope → Op
  lease :
      (order : List ℕ) (now clock : ℕ) (lease_id : String) (limit : ℕ) (source : Option String) → Op
  mark : ℕ → List String → Op

abbrev pub apply : Op → Outbox → Outbox
apply (stage events) t = stage_events events t
apply (lease order now clock lease_id limit source) t =
    (unsent_events order now clock lease_id limit source t).0
apply (mark now ids) t = mark_events_sent now ids t

abbrev pub apply_all : List Op → Outbox → Outbox
apply_all [] t = t
apply_all (op ∷ ops) t = apply_all ops (apply op t)

abbrev pub new_outbox : Outbox
new_outbox = record { next_id = 1; rows = [] }

apply-IsWellFormed : (op : Op) (t : Outbox) → IsWellFormed t → IsWellFormed (apply op t)
apply-IsWellFormed (stage events) t w = stage_events-IsWellFormed events t w
apply-IsWellFormed (lease order now clock lease_id limit source) t w =
    unsent_events-IsWellFormed order now clock lease_id limit source t w
apply-IsWellFormed (mark now ids) t w = mark_events_sent-IsWellFormed now ids t w

apply_all-keeps : (ops : List Op) (t : Outbox) → IsWellFormed t → IsWellFormed (apply_all ops t)
apply_all-keeps [] t w = w
apply_all-keeps (op ∷ ops) t w = apply_all-keeps ops (apply op t) (apply-IsWellFormed op t w)

-- After any sequence of stagings, leases and marks on a new outbox, the rows stand in the order of
-- strictly increasing ids, all below the sequence's next, and no event has two rows.
pub apply_all-IsWellFormed : (ops : List Op) → IsWellFormed (apply_all ops new_outbox)
apply_all-IsWellFormed ops =
    apply_all-keeps ops new_outbox (record { ordered = tt; below = tt; unique = tt })
