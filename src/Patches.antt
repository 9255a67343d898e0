-- ===== src/Patches.antt =====
-- The plans of domains/gitops/source_patch.py: which fields of a raw manifest an approved change may
-- touch, and the outcome of its functions, which raise. The children model the functions.
pub mod Text
pub mod Paths
pub mod Scalars
pub mod Validation
pub mod Distinct
pub mod Inverse
pub mod Documents
pub mod RoundTrip
pub mod Objects
pub mod Fields
pub mod Writing
pub mod Frame
pub mod Splice
pub mod Slices
pub mod Weave
pub mod Order
pub mod Nodes
pub mod Encoding
pub mod Canonical
pub mod Materialize
pub mod Images
pub mod Approved
pub mod Declared
pub mod DeclaredPaths
pub mod Locations
pub mod Adapters
pub mod Retried
pub mod Contract
pub mod Sources
pub mod Containment
pub mod Serving
pub mod Sound
use k8s_clue.Prelude.{String, Bool, true, false, Option, some, List, [], ◌∷◌}
use k8s_clue.Prelude.Json.{Value}

-- ManifestSourcePatchError, RemediationSourcePatchUnsupported, RemediationSourceContractError, and what
-- Python itself raises.
pub data PatchFailure : Type 0 where
  patch_error : String → PatchFailure
  patch_unsupported : String → PatchFailure
  contract_error : String → PatchFailure
  python_error : String → PatchFailure

pub data Outcome {ℓ} (A : Type ℓ) : Type ℓ where
  raised : PatchFailure → Outcome A
  returned : A → Outcome A

-- A function that returns None or raises.
abbrev pub Verdict : Type 0
Verdict = Outcome Unit

abbrev pub accept : Verdict
accept = returned tt

-- The next call runs on the value that this one returned.
infixl 20 ◌then◌
abbrev pub ◌then◌ {ℓ κ} : {A : Type ℓ} {B : Type κ} → Outcome A → (A → Outcome B) → Outcome B
(raised failure) then next = raised failure
(returned a) then next = next a

-- if refused: raise ManifestSourcePatchError(message)
abbrev pub unless_refused {ℓ} : {A : Type ℓ} → Bool → String → Outcome A → Outcome A
unless_refused true message next = raised (patch_error message)
unless_refused false message next = next

pub record ImageScalarReplacement : Type 0 where
  pub container_name : String
  pub current_image : String
  pub previous_image : String

pub record ManifestImagePatchPlan : Type 0 where
  pub source_type : String
  pub source_manifest_sha256 : String
  pub expected_base_sha : String
  pub manifest_path : String
  pub replacements : List ImageScalarReplacement

-- The annotations of the two values are not checked at run time, so they are any values here.
pub record ScalarFieldReplacement : Type 0 where
  pub field_path : String
  pub current_value : Value
  pub desired_value : Value

pub record ManifestScalarPatchPlan : Type 0 where
  pub action_type : String
  pub source_type : String
  pub source_manifest_sha256 : String
  pub expected_base_sha : String
  pub manifest_path : String
  pub replacements : List ScalarFieldReplacement
  pub rollback_replacements : List ScalarFieldReplacement

pub record FieldPathSegment : Type 0 where
  pub key : String
  pub selected_name : Option String
