-- ===== src/Causes/Extract.antt =====
-- The extracting half of services/ai/agent/causes/signals.py that reads logs and alerts, and the
-- description of a group. `str_of` is Python's `str` on a JSON value, and `strip` its `str.strip`.
use Prim.Native.String
use k8s_clue.Prelude.{String, Option, none, some, List, [], ◌∷◌, ◌++◌, str_eq, if◌then◌else◌}
use k8s_clue.Prelude.Json.{truthy, Value, str, array, dict, Fields, items, get}

abbrev pub dicts : List Value → List Fields
dicts [] = []
dicts (dict fields ∷ values) = fields ∷ dicts values
dicts (_ ∷ values) = dicts values

unfoldable pub dict_items : Option Value → List Fields
dict_items (some (array values)) = dicts (items values)
dict_items _ = []

-- What a loop over the items adds.
abbrev pub each : {A : Type 0} → (Fields → List A) → List Fields → List A
each f [] = []
each f (fields ∷ rest) = f fields ++ each f rest

abbrev pub line_of : Option Value → List String
line_of (some (str line)) = if str_eq line "" then [] else line ∷ []
line_of _ = []

unfoldable pub collect_log_lines : Fields → List String → List String
collect_log_lines value log_lines =
    log_lines
    ++ each
        (λ entry.
          line_of (get "line" entry)
          ++ each
              (λ stream.
                each (λ sample. line_of (get "line" sample)) (dict_items (get "values" stream)))
              (dict_items (get "streams" entry)))
        (dict_items (get "entries" value))

-- " | ".join(parts)
abbrev pub joined : List String → String
joined [] = ""
joined (part ∷ []) = part
joined (part ∷ next ∷ parts) = String.◌++◌ part (String.◌++◌ " | " (joined (next ∷ parts)))

abbrev pub part_of : String → Option Value → List String
part_of key (some (str value)) = String.◌++◌ key (String.◌++◌ ":" value) ∷ []
part_of key _ = []

abbrev pub or_undefined : List String → String
or_undefined [] = "정의된 matcher 없음"
or_undefined (part ∷ parts) = joined (part ∷ parts)

unfoldable pub describe_signal_group : Fields → String
describe_signal_group group = or_undefined (
    each
      (λ matcher.
        part_of "fact" (get "fact" matcher)
        ++ part_of "log_pattern" (get "log_pattern" matcher)
        ++ part_of "event_pattern" (get "event_pattern" matcher))
      (dict_items (get "any_of" group)))

module _ (str_of : Option Value → String) (strip : String → String) where
  -- str(value or default)
  abbrev pub str_or : String → Option Value → String
  str_or default none = default
  str_or default (some value) = if truthy value then str_of (some value) else default

  abbrev pub named : String → List String
  named name = if str_eq name "" then [] else String.◌++◌ "alert_name=" name ∷ []

  abbrev pub alert_name : Option Value → List String
  alert_name (some (dict labels)) = named (strip (str_or "" (get "alertname" labels)))
  alert_name _ = []

  abbrev pub alerts_of : Option Value → List Fields
  alerts_of (some (dict alertmanager)) = dict_items (get "alerts" alertmanager)
  alerts_of _ = []

  -- The facts are a set: their order and their repetitions do not matter.
  unfoldable pub collect_alert_facts : Fields → List String → List String
  collect_alert_facts value facts =
      facts
      ++ each
          (λ alert.
            if str_eq (str_or "firing" (get "status" alert)) "firing"
            then alert_name (get "labels" alert)
            else [])
          (alerts_of (get "alertmanager" value))
