-- ===== src/Lib.antt =====
-- A model of JAMP (src/jamp), a mechanism that searches formal states and binds what it finds to
-- evidence. The parts that are modelled, by their paths below src/jamp, and the files that model them:
--
-- * run.py, the loop that drives a rewrite process: Run.antt. `run` is the function of that name, over
--   a record `Process` of the protocol's methods, any of which may raise. Run/Reach says what a run may
--   visit, Run/Total and Run/Bounds hold the theorems. The loop takes fuel, one more than the budget.
-- * research/canonical.py, the normal form and the digest of a value: Canonical.antt and Canonical/Normal.
--   Python values are the data type `Value`. The package `jcs` and SHA-256 are the fields of a record
--   `Hasher`, with the one law that a digest is 64 hexadecimal digits.
-- * research/causal_ledger.py, the append-only ledger of prediction, execution and evidence: Ledger.antt
--   passes on Payload (the payload classes), Event (`CausalEventV0`), Validate (`_validate`) and Append
--   (`append` and the five methods). The ledger is a value that each method takes and returns; the
--   event table is an association list in insertion order. Ledger/Accepted, Chain, Order, Progress and
--   Methods hold the proofs.
-- * aew/state.py, aew/budget.py and aew/ledger.py, the research state machine, the model budget and the
--   evidence ledger: Aew/State, Aew/Budget and Aew/Evidence. Money is a float there, so its type, its
--   sum and its order are a parameter `Money`.
-- * research/verdict_v0, from a gate's result, a criterion set and evidence to a verdict: Verdict.antt.
--   Aggregation and Rule are aggregation.py, Stages and Criterion are stages.py, Schema is schema.py,
--   Checks and Evaluate are evaluate.py, and Verdict/Verified has the theorems on whole evaluations.
--   The comparison of two numbers is a parameter `Order`, since a number may be a float; the clock is an
--   argument.
-- * runtime/verdict.py, runtime/evidence_gate.py, runtime/selector.py and runtime/router.py, from claims to
--   a signed verdict and from evidence to a model: Runtime.antt. Claims, Signed and Parse are
--   verdict.py, Gate, Selector and Router are the files of those names; Aggregate, Signature, Eligible,
--   Closed and Route have the theorems. `json.dumps`, HMAC-SHA256 and `float` are a parameter `Signer`,
--   and Python's `str` of a value that is no text is a parameter `show`.
-- * domain/causal.py, vector clocks and the causal order of events: Causal.antt. Clock is `VectorClock`,
--   Order is `_prepare` and `sort_causal_order` on the events of domain/event.py, Clocks is
--   `compute_vector_clocks`. Relation, Merge and Laws are about clocks; Total, Count, Nodes, Invariant,
--   Topological, Sorted, Extension, Acyclic, Complete and Members about the sort; Ancestors about the clocks of sorted events. The
--   heap of `heapq` is a sorted list. The loop takes fuel, one more than the length of the heap and the
--   number of events that wait at its start: each turn takes one from their sum.
-- * registry/registry.py, the append-only registry: Registry.antt; Registry/Commits is about its calls.
-- * events/dag.py, domain/event.py, domain/consistency.py and domain/replay.py, the event graph, its checks and
--   the registry that it rebuilds: History.antt. Ids, Event and Dag are `EventDAG` and `EventNode`, Check is
--   `DAGConsistencyChecker`, Replay and Until are `ReplayEngine`. Grown, Growth, Valid, Traversed and Accepted
--   are about graphs that `append_event` builds, Sortable and Sorting about graphs that pass the checks, Ends
--   and Reached about the fuel, Ancestry, Rebuilt, Results and Replays about replays. `json.dumps` and SHA-256
--   are a parameter `Digester`, with the one law that a digest is not empty. The fuel of the search is two
--   more than the nodes, since an id is visited at most once on a path; that of the loop over reachable
--   events the same, since every round but the last adds one; that of `replay_until` two more than the
--   parents that all events name, since each event adds its parents once.
-- * runtime/persistence.py, the files of traces and verdicts that are hash chains: Persistence.antt.
--   Persistence/Chain and Append are about the chain, Reads and Writes about what a write changes for the
--   readers, Owner about what a reader may see, Glued about a file whose last line has no newline. `json` and SHA-256 are a parameter `Lines`: what is written
--   comes back but for the order of keys, and a digest does not depend on that order. One process writes.
-- * research/hypothesis.py, hypotheses that are bound by a hash, and their transitions: Hypothesis.antt. Freeze
--   has `_freeze`, `_thaw` and the text helpers, Record the hashes and `_validate_transition_history`,
--   Lifecycle the constructor of `HypothesisRecord`, `make_hypothesis` and `transition_hypothesis`. A mapping
--   proxy is the dict it shows. Frozen and Normal are about values in normal form, Accepted, Constructed and
--   Made about what the constructor accepts, Moves and Moved about
--   transitions, and Reason, Allowed and Succeeds say when a transition returns a record. The method
--   `verify`, which reads an artifact registry, and `export` are left out; a status is one of the five.
--
-- The parts meet as in the code: Ledger and Verdict both take the `Hasher` of Canonical, and Verdict
-- reads evidence as a dict of Canonical. Prelude has what they share: exceptions as values (`Except`),
-- integers, dicts with text keys, texts as code points, and sorting. Sample.antt is a concrete `Hasher`
-- for the tests. Each part's Tests module runs it on concrete inputs.
--
-- Exceptions are values with one constructor for each class of the code that a caller can tell apart;
-- their messages are left out, except where a result stores one (`StopReason.detail`). Python integers are
-- `ℤ` where they may be negative and `ℕ` where the code counts. Not modelled are the HTTP and database
-- layers, the model providers, the audio, server and command line code and the experiments, which are
-- input and output around these parts, and the other modules of research, runtime and p17.
pub mod Aew
pub mod Canonical
pub mod Causal
pub mod History
pub mod Hypothesis
pub mod Ledger
pub mod Persistence
pub mod Prelude
pub mod Registry
pub mod Run
pub mod Runtime
pub mod Sample
pub mod Verdict
