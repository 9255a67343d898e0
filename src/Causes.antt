-- ===== src/Causes.antt =====
-- services/ai/agent/causes/engine.py, services/ai/agent/causes/signals.py and
-- services/ai/agent/playbooks/cause.py: which causes an incident may have, and how they are scored.
-- The bodies are those of domains/rca/events.py. Sentences written for readers (`reason`,
-- `message`) are left out of the records. `str_of` is Python's `str` on a JSON value that may be
-- missing, and `casefold` its `str.casefold`.
pub mod Unique
pub mod Plan
pub mod Merging
pub mod Signals
pub mod Extract
pub mod Evaluate
pub mod Grades
pub mod Choose
pub mod Ranking
pub use k8s_clue.Prelude.{is_in}
use k8s_clue.Prelude.{ℕ, String, Option, List, any, str_eq, Bool}
use k8s_clue.Prelude.Json.{Fields}

pub record EvidenceReference : Type 0 where
  pub evidence_ref : String
  pub source : String
  pub name : String
  pub check_id : String
  pub summary : String
  pub query : Option String

pub record EvidenceItem : Type 0 where
  pub source : String
  pub name : String
  pub value : Fields
  pub summary : String
  pub evidence_ref : String
  pub check_id : String
  pub query : Option String

pub record MissingEvidenceCheck : Type 0 where
  pub check_id : String
  pub source : String
  pub status : String

pub record CauseCandidate : Type 0 where
  pub candidate_id : String
  pub title : String
  pub description : String
  pub expected_evidence : List String
  pub checks : List String
  pub signals : List Fields
  pub source : String

-- A score is the fraction that the code divides out, and 0 / 1 for its `0.0`.
pub record Score : Type 0 where
  pub num : ℕ
  pub den : ℕ

pub record CauseEvaluation : Type 0 where
  pub candidate_id : String
  pub score : Score
  pub checks : List String
  pub supporting_evidence : List String
  pub missing_evidence : List String
  pub supporting_evidence_refs : List EvidenceReference
  pub missing_evidence_checks : List MissingEvidenceCheck
  pub matched_signal_count : ℕ
  pub required_signal_count : ℕ

pub record RcaReportDetail : Type 0 where
  pub root_cause : String
  pub confidence : Score
  pub selected_candidate_id : String
  pub supporting_evidence : List String
  pub missing_evidence : List String
  pub missing_evidence_checks : List MissingEvidenceCheck
  pub supporting_evidence_refs : List EvidenceReference

pub record RcaRuleMissing : Type 0 where
  pub incident_id : String
  pub symptom : String
  pub evidence_ref : String
  pub missing_evidence : List String
  pub workspace_id : String
