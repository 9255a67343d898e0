-- ===== src/Coverage/Deletion.antt =====
-- domains/inventory/repository.py: what `save_inventory_snapshot_mutation` leaves under a key of the table
-- of resources.
use mathlib.Core.Option
use k8s_clue.Prelude.{
  ℕ, String, ◌≡◌, refl, ◌∙◌, ap, subst, Bool, true, false, not, ◌&&◌, ◌||◌, Option, none, some,
  List, [], ◌∷◌, map, keep, arith, str_eq, eq_iff, eq_refl, Bool-cases, inl, inr, if◌then◌else◌,
}
use k8s_clue.Prelude.Rows.{
  select_first, update_where, upsert, upserted, select_first-update_where, select_first-upsert,
  select_first-upsert_miss,
}
use k8s_clue.Coverage.{is_in}
use k8s_clue.Coverage.Snapshot.{
  ClusterInventoryResourceRecord, key_of, has_key, is_live, renewed, upsert_resources, marked,
}

abbrev pub is_live_row : Option ClusterInventoryResourceRecord → Bool
is_live_row none = false
is_live_row (some row) = is_live row

-- Whether a resource that is not deleted is stored under the key.
abbrev pub is_live_at : String → List ClusterInventoryResourceRecord → Bool
is_live_at key rows = is_live_row (select_first (has_key key) rows)

abbrev upsert_one :
    ClusterInventoryResourceRecord
    → List ClusterInventoryResourceRecord
    → List ClusterInventoryResourceRecord
upsert_one resource rows =
    (upsert (has_key resource.inventory_key) (λ row. true) (renewed resource)
      (record resource { deleted_at = none }) rows).0

select-upsert_miss :
    (key : String) (resource : ClusterInventoryResourceRecord)
    (rows : List ClusterInventoryResourceRecord)
    → str_eq resource.inventory_key key ≡ false
    → select_first (has_key key) (upsert_one resource rows) ≡ select_first (has_key key) rows
select-upsert_miss key resource rows other =
    select_first-upsert_miss (has_key resource.inventory_key) (λ row. true) (renewed resource)
      (record resource { deleted_at = none }) (λ row. refl) (has_key key) rows
      (λ row same.
        ap (λ k. str_eq k key) ((eq_iff row.inventory_key resource.inventory_key).0 same) ∙ other)
      (λ row. refl) (eq_refl resource.inventory_key)

upserted_live :
    (resource : ClusterInventoryResourceRecord) (o : Option ClusterInventoryResourceRecord)
    → is_live (upserted (λ row. true) (renewed resource) (record resource { deleted_at = none }) o)
      ≡ true
upserted_live resource none = refl
upserted_live resource (some row) = refl

live_at-upsert_one :
    (resource : ClusterInventoryResourceRecord) (rows : List ClusterInventoryResourceRecord)
    → is_live_at resource.inventory_key (upsert_one resource rows) ≡ true
live_at-upsert_one resource rows =
    ap is_live_row (
      select_first-upsert (has_key resource.inventory_key) (λ row. true) (renewed resource)
        (record resource { deleted_at = none }) (λ row. refl) rows (eq_refl resource.inventory_key))
    ∙ upserted_live resource (select_first (has_key resource.inventory_key) rows)

live_at-upsert :
    (key : String) (resource : ClusterInventoryResourceRecord)
    (rows : List ClusterInventoryResourceRecord)
    → is_live_at key (upsert_one resource rows)
      ≡ (str_eq resource.inventory_key key || is_live_at key rows)
live_at-upsert key resource rows = elim (Bool-cases (str_eq resource.inventory_key key)) [
  | inl same ↦ rw same (
      subst (λ k. is_live_at k (upsert_one resource rows) ≡ true)
        ((eq_iff resource.inventory_key key).0 same) (live_at-upsert_one resource rows))
  | inr other ↦ rw other (ap is_live_row (select-upsert_miss key resource rows other))
]

-- A key of the snapshot is live afterwards.
pub live_at-upsert_resources :
    (key : String) (resources rows : List ClusterInventoryResourceRecord)
    → is_live_at key (upsert_resources resources rows)
      ≡ (is_in key (map key_of resources) || is_live_at key rows)
unfolding upsert_resources
live_at-upsert_resources key [] rows = refl
live_at-upsert_resources key (resource ∷ resources) rows = ground (
  arith,
  live_at-upsert_resources key resources (upsert_one resource rows),
  live_at-upsert key resource rows,
)

-- Another key keeps its row.
pub select-upsert_resources :
    (key : String) (resources rows : List ClusterInventoryResourceRecord)
    → is_in key (map key_of resources) ≡ false
    → select_first (has_key key) (upsert_resources resources rows) ≡ select_first (has_key key) rows
unfolding upsert_resources
select-upsert_resources key [] rows absent = refl
select-upsert_resources key (resource ∷ resources) rows absent =
    elim (Bool-cases (str_eq resource.inventory_key key)) [
      | inl same ↦ let absent' = rw same at absent in absurd (cc)
      | inr other ↦
          select-upsert_resources key resources (upsert_one resource rows) (rw other at absent)
          ∙ select-upsert_miss key resource rows other
    ]

abbrev pub stays :
    (ClusterInventoryResourceRecord → Bool) → Option ClusterInventoryResourceRecord → Bool
stays chosen none = false
stays chosen (some row) = not (chosen row) && is_live row

-- Marking: the row under the key is chosen or not.
pub live_at-marked :
    (key : String) (now : ℕ) (chosen : ClusterInventoryResourceRecord → Bool)
    (rows : List ClusterInventoryResourceRecord)
    → is_live_at key (update_where chosen (marked now) rows)
      ≡ stays chosen (select_first (has_key key) rows)
live_at-marked key now chosen rows =
    ap is_live_row (select_first-update_where (has_key key) chosen (marked now) (λ row. refl) rows)
    ∙ by_row (select_first (has_key key) rows)
  where
    by_row :
        (o : Option ClusterInventoryResourceRecord)
        → is_live_row (Option.map (λ row. if chosen row then marked now row else row) o)
          ≡ stays chosen o
    by_row none = refl
    by_row (some row) = ground arith

pub is_in-keep :
    (key : String) (keys missing : List String)
    → is_in key (keep (λ k. not (is_in k keys)) missing)
      ≡ (not (is_in key keys) && is_in key missing)
is_in-keep key keys [] = ground arith
is_in-keep key keys (k ∷ missing) = elim (Bool-cases (str_eq k key)) [
  | inl same ↦
      let e = (eq_iff k key).0 same in
      let here = ap (λ t. is_in t keys) e in ground (arith, is_in-keep key keys missing, same, here)
  | inr other ↦ ground (arith, is_in-keep key keys missing, other)
]

-- A row of the table that passes a test has its key among those of the rows that do.
pub is_in-kept :
    (key : String) (test : ClusterInventoryResourceRecord → Bool)
    (rows : List ClusterInventoryResourceRecord) (row : ClusterInventoryResourceRecord)
    → select_first (has_key key) rows ≡ some row
    → test row ≡ true
    → is_in key (map key_of (keep test rows)) ≡ true
unfolding select_first
is_in-kept key test [] row found passed = absurd (cc)
is_in-kept key test (first ∷ rows) row found passed =
    ground (arith, is_in-kept key test rows row, found, passed)
