-- ===== src/Outbox/Lease.antt =====
-- packages/storage/repositories/outbox.py: which rows `unsent_events` leases.
use k8s_clue.Prelude.{
  ℕ, zero, suc, ◌≤◌, ◌<◌, String, ◌≡◌, refl, Bool, true, false, Option, List, [], ◌∷◌, arith, any,
  All, length, ◌==◌, Bool-cases, inl, inr,
}
use k8s_clue.Outbox.{OutboxModel, is_available, is_claimable, leased, lease_rows}

module _ (now : ℕ) (source : Option String) (lease_id : String) (until limit : ℕ)
    (row : OutboxModel) (rows : List OutboxModel) where
  pub lease-hit :
      is_claimable now source row ≡ true
      → lease_rows now source lease_id until (suc limit) (row ∷ rows) ≡ (
        leased lease_id until row ∷ (lease_rows now source lease_id until limit rows).0,
        leased lease_id until row ∷ (lease_rows now source lease_id until limit rows).1,
      )
  unfolding lease_rows
  lease-hit h = rw h

  pub lease-miss :
      is_claimable now source row ≡ false
      → lease_rows now source lease_id until (suc limit) (row ∷ rows) ≡ (
        row ∷ (lease_rows now source lease_id until (suc limit) rows).0,
        (lease_rows now source lease_id until (suc limit) rows).1,
      )
  unfolding lease_rows
  lease-miss h = rw h

module _ (now : ℕ) (source : Option String) (lease_id : String) (until : ℕ) where
  lease_rows-limit :
      (limit : ℕ) (rows : List OutboxModel)
      → length (lease_rows now source lease_id until limit rows).1 ≤ limit
  unfolding lease_rows
  lease_rows-limit limit [] = omega arith
  lease_rows-limit zero (row ∷ rows) = omega arith
  lease_rows-limit (suc limit) (row ∷ rows) = elim (Bool-cases (is_claimable now source row)) [
    | inl h ↦ rw h (omega (arith, lease_rows-limit limit rows))
    | inr h ↦ rw h (lease_rows-limit (suc limit) rows)
  ]

-- Rows in the order of strictly increasing ids, all at least `low`.
abbrev pub IsOrdered : ℕ → List OutboxModel → Type 0
IsOrdered low [] = Unit
IsOrdered low (row ∷ rows) = (low ≤ row.id) × IsOrdered (suc row.id) rows

abbrev pub has_id : List OutboxModel → ℕ → Bool
has_id rows id = any (λ row. row.id == id) rows

-- The rows got by two relays have no id in common.
abbrev pub IsDisjoint : List OutboxModel → List OutboxModel → Type 0
IsDisjoint got got' = All (λ row. has_id got row.id ≡ false) got'

IsOrdered-weaken :
    (low low' : ℕ) (rows : List OutboxModel) → low' ≤ low → IsOrdered low rows → IsOrdered low' rows
IsOrdered-weaken low low' [] le h = tt
IsOrdered-weaken low low' (row ∷ rows) le h = (omega arith, h.1)

-- What a lease returns has ids from the table.
got-IsOrdered :
    (now : ℕ) (source : Option String) (lease_id : String) (until limit low : ℕ)
    (rows : List OutboxModel)
    → IsOrdered low rows
    → IsOrdered low (lease_rows now source lease_id until limit rows).1
unfolding lease_rows
got-IsOrdered now source lease_id until limit low [] h = tt
got-IsOrdered now source lease_id until zero low (row ∷ rows) h = tt
got-IsOrdered now source lease_id until (suc limit) low (row ∷ rows) h =
    elim (Bool-cases (is_claimable now source row)) [
      | inl c ↦ rw c (h.0, got-IsOrdered now source lease_id until limit (suc row.id) rows h.1)
      | inr c ↦ rw c (
          got-IsOrdered now source lease_id until (suc limit) low rows
            (IsOrdered-weaken (suc row.id) low rows (omega arith) h.1))
    ]

pub lease_rows-IsOrdered :
    (now : ℕ) (source : Option String) (lease_id : String) (until limit low : ℕ)
    (rows : List OutboxModel)
    → IsOrdered low rows
    → IsOrdered low (lease_rows now source lease_id until limit rows).0
unfolding lease_rows
lease_rows-IsOrdered now source lease_id until limit low [] h = tt
lease_rows-IsOrdered now source lease_id until zero low (row ∷ rows) h = h
lease_rows-IsOrdered now source lease_id until (suc limit) low (row ∷ rows) h =
    elim (Bool-cases (is_claimable now source row)) [
      | inl c ↦
          rw c (h.0, lease_rows-IsOrdered now source lease_id until limit (suc row.id) rows h.1)
      | inr c ↦
          rw c
            (h.0, lease_rows-IsOrdered now source lease_id until (suc limit) (suc row.id) rows h.1)
    ]

-- Ids below the first are not among ordered rows.
has_id-below :
    (id low : ℕ) (rows : List OutboxModel) → id < low → IsOrdered low rows → has_id rows id ≡ false
has_id-below id low [] lt h = refl
has_id-below id low (row ∷ rows) lt h =
    ground (arith, h.0, has_id-below id (suc row.id) rows (omega arith) h.1)

IsDisjoint-nil : (got : List OutboxModel) → IsDisjoint [] got
IsDisjoint-nil [] = tt
IsDisjoint-nil (row ∷ got) = (refl, IsDisjoint-nil got)

IsDisjoint-cons :
    (row : OutboxModel) (got : List OutboxModel) (low : ℕ) (got' : List OutboxModel)
    → row.id < low
    → IsOrdered low got'
    → IsDisjoint got got'
    → IsDisjoint (row ∷ got) got'
IsDisjoint-cons row got low [] lt o d = tt
IsDisjoint-cons row got low (r ∷ got') lt o d =
    (ground (arith, o.0, d.0), IsDisjoint-cons row got (suc r.id) got' (omega (arith, o.0)) o.1 d.1)

leased-unavailable :
    (now' : ℕ) (source' : Option String) (lease_id : String) (until : ℕ) (row : OutboxModel)
    → now' ≤ until
    → is_claimable now' source' (leased lease_id until row) ≡ false
unfolding is_claimable is_available
leased-unavailable now' source' lease_id until row le = ground arith

module _ (now : ℕ) (source : Option String) (lease_id : String) (until now' : ℕ)
    (source' : Option String) (lease_id' : String) (until' : ℕ) (running : now' ≤ until) where
  abbrev rest_of : ℕ → List OutboxModel → List OutboxModel
  rest_of limit rows = (lease_rows now source lease_id until limit rows).0

  abbrev got_first : ℕ → List OutboxModel → List OutboxModel
  got_first limit rows = (lease_rows now source lease_id until limit rows).1

  abbrev got_second : ℕ → List OutboxModel → List OutboxModel
  got_second limit' rows = (lease_rows now' source' lease_id' until' limit' rows).1

  second-zero : (rows : List OutboxModel) → got_second zero rows ≡ []
  unfolding lease_rows
  second-zero [] = refl
  second-zero (row ∷ rows) = refl

  first-none : (rows got' : List OutboxModel) → IsDisjoint (got_first zero rows) got'
  unfolding lease_rows
  first-none [] got' = IsDisjoint-nil got'
  first-none (row ∷ rows) got' = IsDisjoint-nil got'

  module _ (limit limit' : ℕ) (row : OutboxModel) (rows : List OutboxModel)
      (o : IsOrdered (suc row.id) rows) where
    IsDisjoint-hit :
        is_claimable now source row ≡ true
        → IsDisjoint
            (lease_rows now source lease_id until limit rows).1
            (lease_rows now' source' lease_id' until'
              (suc limit')
              (lease_rows now source lease_id until limit rows).0).1
        → IsDisjoint
            (lease_rows now source lease_id until (suc limit) (row ∷ rows)).1
            (lease_rows now' source' lease_id' until'
              (suc limit')
              (lease_rows now source lease_id until (suc limit) (row ∷ rows)).0).1
    IsDisjoint-hit c ih = rw (lease-hit now source lease_id until limit row rows c) (
        rw
          (lease-miss now' source' lease_id' until' limit' (leased lease_id until row)
            (lease_rows now source lease_id until limit rows).0
            (leased-unavailable now' source' lease_id until row running))
          (IsDisjoint-cons (leased lease_id until row)
            (lease_rows now source lease_id until limit rows).1 (suc row.id)
            (lease_rows now' source' lease_id' until' (suc limit')
              (lease_rows now source lease_id until limit rows).0).1
            (omega arith)
            (got-IsOrdered now' source' lease_id' until' (suc limit') (suc row.id)
              (lease_rows now source lease_id until limit rows).0
              (lease_rows-IsOrdered now source lease_id until limit (suc row.id) rows o))
            ih))

    IsDisjoint-miss :
        is_claimable now source row ≡ false
        → ((n : ℕ)
            → IsDisjoint
                (lease_rows now source lease_id until (suc limit) rows).1
                (lease_rows now' source' lease_id' until' n
                  (lease_rows now source lease_id until (suc limit) rows).0).1)
        → IsDisjoint
            (lease_rows now source lease_id until (suc limit) (row ∷ rows)).1
            (lease_rows now' source' lease_id' until'
              (suc limit')
              (lease_rows now source lease_id until (suc limit) (row ∷ rows)).0).1
    IsDisjoint-miss c ih =
        rw (lease-miss now source lease_id until limit row rows c)
          (elim (Bool-cases (is_claimable now' source' row)) [
            | inl c' ↦
                rw
                  (lease-hit now' source' lease_id' until' limit' row
                    (lease_rows now source lease_id until (suc limit) rows).0 c')
                  (
                    has_id-below row.id (suc row.id)
                        (lease_rows now source lease_id until (suc limit) rows).1 (omega arith)
                        (got-IsOrdered now source lease_id until (suc limit) (suc row.id) rows o),
                    ih limit',
                  )
            | inr c' ↦
                rw
                  (lease-miss now' source' lease_id' until' limit' row
                    (lease_rows now source lease_id until (suc limit) rows).0 c')
                  (ih (suc limit'))
          ])

  -- While a lease runs, no relay of any source gets a row that the lease's holder got: the ids of
  -- two batches, leased one after the other from rows in the order of their ids, have none in
  -- common.
  pub lease-excludes :
      (limit limit' low : ℕ) (rows : List OutboxModel)
      → IsOrdered low rows
      → let (rows', got) = lease_rows now source lease_id until limit rows in
        IsDisjoint got (lease_rows now' source' lease_id' until' limit' rows').1
  lease-excludes zero limit' low rows o = first-none rows (got_second limit' (rest_of zero rows))
  lease-excludes (suc limit) zero low rows o = rw (second-zero (rest_of (suc limit) rows)) tt
  lease-excludes (suc limit) (suc limit') low [] o = unfold lease_rows in tt
  lease-excludes (suc limit) (suc limit') low (row ∷ rows) o =
      elim (Bool-cases (is_claimable now source row)) [
        | inl c ↦
            IsDisjoint-hit limit limit' row rows o.1 c
              (lease-excludes limit (suc limit') (suc row.id) rows o.1)
        | inr c ↦
            IsDisjoint-miss limit limit' row rows o.1 c
              (λ n. lease-excludes (suc limit) n (suc row.id) rows o.1)
      ]
