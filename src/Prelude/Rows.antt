-- ===== src/Prelude/Rows.antt =====
-- A table of the database as the list of its rows, and the statements that the repositories issue:
-- SELECT of one row, UPDATE with a WHERE, INSERT with ON CONFLICT DO NOTHING, and an UPSERT whose
-- DO UPDATE has a WHERE and that RETURNS the row it wrote.
use mathlib.Core.Path.{◌≡◌, refl}
use mathlib.Core.Logic.{inl, inr}
use mathlib.Core.Bool.{Bool, true, false}
use mathlib.Core.Option
use mathlib.Core.Option.{Option, none, some}
use mathlib.Core.List.{List, [], ◌∷◌, ◌++◌}
use native.Mathlib.Omega.{arith}
use k8s_clue.Prelude.Tests.{if◌then◌else◌, Bool-cases, Option-cases}
use k8s_clue.Prelude.Lists.{any}

module _ {ℓ} {R : Type ℓ} where
  -- SELECT ... WHERE hit, the first row
  unfoldable pub select_first : (R → Bool) → List R → Option R
  select_first hit [] = none
  select_first hit (r ∷ rows) = if hit r then some r else select_first hit rows

  -- UPDATE ... SET set WHERE hit
  unfoldable pub update_where : (R → Bool) → (R → R) → List R → List R
  update_where hit set [] = []
  update_where hit set (r ∷ rows) = (if hit r then set r else r) ∷ update_where hit set rows

  -- INSERT ... ON CONFLICT DO NOTHING
  unfoldable pub insert_if_absent : (R → Bool) → R → List R → List R
  insert_if_absent hit new rows = if any hit rows then rows else rows ++ new ∷ []

  abbrev upsert_found :
      (R → Bool) → (R → Bool) → (R → R) → R → List R → Option R → List R × Option R
  upsert_found hit guard set new rows none = (rows ++ new ∷ [], some new)
  upsert_found hit guard set new rows (some r) =
      if guard r then (update_where hit set rows, some (set r)) else (rows, none)

  -- INSERT ... ON CONFLICT DO UPDATE SET set WHERE guard RETURNING
  unfoldable pub upsert : (R → Bool) → (R → Bool) → (R → R) → R → List R → List R × Option R
  unfolding select_first update_where
  upsert hit guard set new rows = upsert_found hit guard set new rows (select_first hit rows)

module _ {ℓ} {R : Type ℓ} where
  pub select_first-hit :
      (hit : R → Bool) (rows : List R) (r : R) → select_first hit rows ≡ some r → hit r ≡ true
  unfolding select_first
  select_first-hit hit [] r e = cc
  select_first-hit hit (x ∷ rows) r e = ground (arith, select_first-hit hit rows r)

  pub select_first-append :
      (hit : R → Bool) (rows : List R) (new : R)
      → select_first hit rows ≡ none
      → select_first hit (rows ++ new ∷ []) ≡ (if hit new then some new else none)
  unfolding select_first
  select_first-append hit [] new e = refl
  select_first-append hit (x ∷ rows) new e = ground (arith, select_first-append hit rows new)

  -- A row that does not match is invisible behind the others.
  pub select_first-append_miss :
      (hit : R → Bool) (rows : List R) (new : R)
      → hit new ≡ false
      → select_first hit (rows ++ new ∷ []) ≡ select_first hit rows
  unfolding select_first
  select_first-append_miss hit [] new e = rw e
  select_first-append_miss hit (x ∷ rows) new e =
      ground (arith, select_first-append_miss hit rows new e)

  -- An UPDATE of the selected rows by a function that keeps their key.
  pub select_first-update :
      (hit : R → Bool) (set : R → R)
      → ((r : R) → hit (set r) ≡ hit r)
      → (rows : List R)
      → select_first hit (update_where hit set rows) ≡ Option.map set (select_first hit rows)
  unfolding select_first update_where
  select_first-update hit set keeps [] = refl
  select_first-update hit set keeps (x ∷ rows) =
      ground (arith, keeps x, select_first-update hit set keeps rows)

  -- An UPDATE of any rows by a function that keeps their key.
  pub select_first-update_where :
      (hit other : R → Bool) (set : R → R)
      → ((r : R) → hit (set r) ≡ hit r)
      → (rows : List R)
      → select_first hit (update_where other set rows)
        ≡ Option.map (λ r. if other r then set r else r) (select_first hit rows)
  unfolding select_first update_where
  select_first-update_where hit other set keeps [] = refl
  select_first-update_where hit other set keeps (x ∷ rows) =
      ground (arith, keeps x, select_first-update_where hit other set keeps rows)

  -- An UPDATE of other rows.
  pub select_first-update_miss :
      (hit other : R → Bool) (set : R → R)
      → ((r : R) → other r ≡ true → hit r ≡ false)
      → ((r : R) → hit (set r) ≡ hit r)
      → (rows : List R) → select_first hit (update_where other set rows) ≡ select_first hit rows
  unfolding select_first update_where
  select_first-update_miss hit other set apart keeps [] = refl
  select_first-update_miss hit other set apart keeps (x ∷ rows) =
      ground (arith, keeps x, apart x, select_first-update_miss hit other set apart keeps rows)

-- The row that an UPSERT leaves under its key, and the row that it returns.
module _ {ℓ} {R : Type ℓ} where
  abbrev pub upserted : (R → Bool) → (R → R) → R → Option R → R
  upserted guard set new none = new
  upserted guard set new (some r) = if guard r then set r else r

  abbrev pub returned : (R → Bool) → (R → R) → R → Option R → Option R
  returned guard set new none = some new
  returned guard set new (some r) = if guard r then some (set r) else none

module _ {ℓ} {R : Type ℓ} (hit guard : R → Bool) (set : R → R) (new : R)
    (keeps : (r : R) → hit (set r) ≡ hit r) where
  pub upsert-returns :
      (rows : List R)
      → (upsert hit guard set new rows).1 ≡ returned guard set new (select_first hit rows)
  unfolding upsert
  upsert-returns rows = elim (Option-cases (select_first hit rows)) [
    | inl e ↦ rw e
    | inr (r, e) ↦ elim (Bool-cases (guard r)) [ inl h ↦ rw (e, h) | inr h ↦ rw (e, h) ]
  ]

  pub select_first-upsert :
      (rows : List R)
      → hit new ≡ true
      → select_first hit (upsert hit guard set new rows).0
        ≡ some (upserted guard set new (select_first hit rows))
  unfolding upsert
  select_first-upsert rows fits = elim (Option-cases (select_first hit rows)) [
    | inl e ↦ rw e (rw (select_first-append hit rows new e) (rw fits))
    | inr (r, e) ↦ elim (Bool-cases (guard r)) [
      | inl h ↦ rw (e, h) (rw (select_first-update hit set keeps rows) (rw e))
      | inr h ↦ rw (e, h) e
    ]
  ]

  pub select_first-upsert_miss :
      (other : R → Bool) (rows : List R)
      → ((r : R) → hit r ≡ true → other r ≡ false)
      → ((r : R) → other (set r) ≡ other r)
      → hit new ≡ true
      → select_first other (upsert hit guard set new rows).0 ≡ select_first other rows
  unfolding upsert
  select_first-upsert_miss other rows apart same fits =
      elim (Option-cases (select_first hit rows)) [
        | inl e ↦ rw e (select_first-append_miss other rows new (apart new fits))
        | inr (r, e) ↦ elim (Bool-cases (guard r)) [
          | inl h ↦ rw (e, h) (select_first-update_miss other hit set apart same rows)
          | inr h ↦ rw (e, h)
        ]
      ]
