-- ===== src/Lib.antt =====
-- k8s-clue handles the incidents of Kubernetes clusters as events. Services react to events: each
-- delivery is claimed in a ledger, handled in one unit of work that also stages the next events in
-- an outbox, and closed; what a consumer gives up on becomes a dead letter. A relay publishes the
-- outbox to the broker. One of the services finds the causes of an incident. This library models the
-- event runtime, that analysis, and the rules by which a snapshot of a cluster may delete rows.
--
-- Which file models which part (paths from the repository's root):
--   Events       src/packages/contracts/event_bus/interfaces.py: `EventEnvelope`
--   Processing   the ledger: src/packages/contracts/event_bus/processing.py,
--                src/packages/storage/repositories/event.py (`record_event`,
--                `begin_event_processing`, `claim_event_processing`, `get_event_processing`,
--                `finish_event_processing`, `fail_event_processing`), table `EventProcessing` of
--                src/packages/storage/schema.py. Processing/Claim has the laws of a claim,
--                Processing/Exclusion the interleavings of several workers.
--   DeadLetters  src/packages/storage/repositories/dead_letter.py: `DeadLetterRepository`
--   Outbox       src/packages/storage/repositories/outbox.py: `OutboxRepository`. Outbox/Lease,
--                Outbox/Staging and Outbox/Ids have its laws.
--   Worker       src/packages/runtime/worker.py: `EventProcessor.process` and `fail`, what
--                `consume_subject` does with a message, `validate_event_timing_contract`; `Ledger` of
--                src/packages/runtime/ledger.py; `DeadLetterSink` and `RecordedEventClient` of
--                src/packages/events/bus.py.
--   Relay        src/packages/runtime/relay.py: `OutboxRelay.run_once`. Relay/Tables, Relay/Accounts
--                and Relay/Marks have its laws.
--   Bus          src/packages/events/in_memory.py: `_subject_matches` in Bus/Subjects, the
--                subscription in Bus/Subscription, `InMemoryEventBus` in Bus/Broker
--   Causes       src/services/ai/agent/causes/engine.py, src/services/ai/agent/playbooks/cause.py and
--                the bodies of src/domains/rca/events.py: planning in Causes/Plan, evaluation in
--                Causes/Evaluate, the choice in Causes/Choose; Causes/Merging, Causes/Grades and
--                Causes/Ranking have their laws. Of src/services/ai/agent/causes/signals.py,
--                Causes/Signals has the matching and Causes/Extract the reading of logs and
--                alerts; an evaluation takes the signals of its bundle as an argument.
--   Coverage     src/domains/inventory/coverage.py: `inventory_deletion_scopes`, the check on rows and
--                the SQL predicate. Coverage/Snapshot has what `save_inventory_snapshot_mutation` of
--                src/domains/inventory/repository.py does to the table of resources. Scopes, Proofs and
--                Survival have the laws of the scopes, Deletion, Saved, Absence and Exact those of
--                the table.
--   Patches      src/domains/gitops/source_patch.py: a change of approved fields of a manifest, made in
--                its source text. Patches/Validation has the plans and Patches/Documents the documents
--                that carry them; Patches/Objects reads and sets fields of the parsed manifest,
--                Patches/Nodes finds them in the YAML nodes, Patches/Encoding writes the new scalars,
--                Patches/Splice puts them into the text and Patches/Materialize runs all of it;
--                Patches/Canonical has the text that is hashed, Patches/Images the patch of images.
--                Patches/Declared finds the fields that a repository declares and
--                Patches/Adapters changes them; Patches/Contract and Patches/Sources parse the
--                declarations, src/packages/contracts/remediation_source.py. Patches/Inverse,
--                RoundTrip, Frame, Order, Approved, DeclaredPaths, Locations, Retried, Containment,
--                Serving and Sound have the laws.
--   Recovery     src/domains/rca/recovery_verification.py: `evaluate_recovery_evidence`, and what
--                `on_recovery_verification_evidence` of src/services/ai/rca-feedback-worker/app.py
--                stores of its decision. Recovery/Streak has the streak of healthy windows that the
--                stored values stand for, Recovery/Verified and Recovery/Steady what follows.
--   Scenarios    runs of the models on concrete data
--   Prelude      shared names, tests, list lemmas; Prelude/Rows has the statements of SQL that
--                the repositories use, Prelude/Json the JSON values
--
-- How the code is modelled:
--   A table is the list of its rows in the order of insertion, so an ORDER BY on a serial id is
--   the order of the list. A statement is a function on rows. A unit of work that raises leaves
--   the tables as they were.
--   Times are microseconds, read from the environment, as are the handler, made-up ids, the texts
--   of errors and which calls of the database or of the broker raise; the theorems quantify over
--   all of these. A call that times out is one that raises. A refused publication may or may not
--   have reached the broker's stream, and a theorem holds either way.
--   PostgreSQL promises no order of the rows that RETURNING gives; the order in which a relay gets its
--   rows is an argument. When an in-memory subscription closes, how many delayed tasks have not begun is an
--   argument. What the worker does with messages while it is stopping is not modelled.
--   Of a snapshot the table of resources gets the rows with their keys already preserved; the columns
--   that do not decide on a deletion are left out.
--   A `nak` that raises is not modelled: it changes no state of the program.
--   Scores are the fractions that the code divides out; `min` compares the fractions exactly, as
--   the floats of fractions with small terms compare. Sentences for readers are left out of the
--   reports. Python's `str` on JSON values, `str.strip` and `str.casefold` are parameters of the causes.
--   YAML documents and Python's equality of parsed values are parameters of the source patches; a
--   position in a text counts characters, as in Python. The digits that `\d` matches are a
--   parameter too.
--   A verification takes the outcome of each check, passed, failed or missing, as an argument. The times
--   that a plan keeps as texts are numbers, since Python reads back the text that it wrote. Plans are
--   independent of each other, and the windows of one plan are handled one after another.
--   All loops run over finite lists and need no fuel, but for the decimal digits of a number, whose
--   fuel is one more than the number: Patches/Encoding shows that more changes nothing.
--
-- Not modelled: the NATS client, SQLAlchemy and the drivers, logging, metrics in text form, HTTP
-- routes, calls of language models and of the Kubernetes API, since they are third-party code or
-- glue around it. Other domains of the product (identity, timeline), the single checks of a
-- recovery, the facts that are read from pods and cluster events, and the
-- fetching loop of the worker have no model here.
pub mod Prelude
pub mod Events
pub mod Processing
pub mod DeadLetters
pub mod Outbox
pub mod Worker
pub mod Relay
pub mod Bus
pub mod Causes
pub mod Coverage
pub mod Patches
pub mod Recovery
pub mod Scenarios
