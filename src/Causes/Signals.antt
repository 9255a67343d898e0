-- ===== src/Causes/Signals.antt =====
-- The matching half of services/ai/agent/causes/signals.py: which groups of a candidate's signals
-- a bundle of evidence shows. The signals of a bundle are given.
use Prim.Native.String
use text.Mathlib.Text.{starts_with}
use k8s_clue.Prelude.{
  ◌+◌, String, ◌≡◌, refl, Bool, true, false, ◌||◌, Option, none, some, List, [], ◌∷◌, any, length,
  arith, if◌then◌else◌,
}
use k8s_clue.Prelude.Json.{truthy, Value, str, array, dict, Fields, items, get}
use k8s_clue.Causes.{is_in}

pub record BundleSignals : Type 0 where
  pub facts : List String
  pub log_lines : List String
  pub event_texts : List String

-- needle in line
unfoldable pub contains : String → String → Bool
contains needle String.[] = starts_with String.[] needle
contains needle (String.◌∷◌ c rest) = starts_with (String.◌∷◌ c rest) needle || contains needle rest

module _ (casefold : String → String) where
  abbrev pub in_some : String → List String → Bool
  in_some needle lines = any (λ line. contains (casefold needle) (casefold line)) lines

  -- A matcher looks at the first of its three keys that holds a text.
  abbrev pub match_event : Option Value → BundleSignals → Bool
  match_event (some (str pattern)) signals = in_some pattern signals.event_texts
  match_event _ signals = false

  abbrev pub match_log : Option Value → Fields → BundleSignals → Bool
  match_log (some (str pattern)) matcher signals = in_some pattern signals.log_lines
  match_log _ matcher signals = match_event (get "event_pattern" matcher) signals

  abbrev pub match_fact : Option Value → Fields → BundleSignals → Bool
  match_fact (some (str fact)) matcher signals = is_in fact signals.facts
  match_fact _ matcher signals = match_log (get "log_pattern" matcher) matcher signals

  unfoldable pub match_one : Fields → BundleSignals → Bool
  match_one matcher signals = match_fact (get "fact" matcher) matcher signals

  abbrev pub match_value : BundleSignals → Value → Bool
  match_value signals (dict matcher) = match_one matcher signals
  match_value signals _ = false

  -- `any` of an empty list is false, as the guard on `matchers` is.
  abbrev pub match_any : Option Value → BundleSignals → Bool
  match_any (some (array matchers)) signals = any (match_value signals) (items matchers)
  match_any _ signals = false

  unfoldable pub match_signal_group : Fields → BundleSignals → Bool
  match_signal_group group signals = match_any (get "any_of" group) signals

  abbrev place : Bool → Fields → List Fields × List Fields → List Fields × List Fields
  place true group (matched, unmatched) = (group ∷ matched, unmatched)
  place false group (matched, unmatched) = (matched, group ∷ unmatched)

  unfoldable pub split_signal_groups : List Fields → BundleSignals → List Fields × List Fields
  split_signal_groups [] signals = ([], [])
  split_signal_groups (group ∷ groups) signals =
      place (match_signal_group group signals) group (split_signal_groups groups signals)

  pub length-split_signal_groups :
      (groups : List Fields) (signals : BundleSignals)
      → let (matched, unmatched) = split_signal_groups groups signals in
        length matched + length unmatched ≡ length groups
  unfolding split_signal_groups
  length-split_signal_groups [] signals = refl
  length-split_signal_groups (group ∷ groups) signals =
      ground (arith, length-split_signal_groups groups signals)

module _ (str_of : Option Value → String) where
  abbrev id_or_unnamed : Option Value → String
  id_or_unnamed none = "unnamed"
  id_or_unnamed (some id) = if truthy id then str_of (some id) else "unnamed"

  unfoldable pub signal_group_id : Fields → String
  signal_group_id group = id_or_unnamed (get "id" group)

  unfoldable pub signal_missing_token : Fields → String
  signal_missing_token group = String.◌++◌ "signal:" (signal_group_id group)
