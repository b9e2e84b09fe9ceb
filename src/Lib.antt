-- ===== src/Lib.antt =====
-- CognitiveTree-AI (cognitivetree/): a tree search over lines of reasoning, driven by policies.
-- A controller selects a node by UCT, expands it with the candidates of a generator, has an
-- evaluator score them, and propagates the values to the root, under a state machine of phases.
--
-- Parts and files:
--   State (cognitivetree/state.py): SearchStateMachine is `Machine`, `transition` its one
--     operation; Phases holds the enumeration and the table.
--   Node (cognitivetree/node.py) and Tree (cognitivetree/tree.py): a tree carries the store of its
--     node objects; a `Ref` is an address, so two references are the same object exactly if they
--     are equal. `attach_child` and `add_child` take the next free address.
--   Config (cognitivetree/config.py): the parameters and what the constructor accepts.
--   Policies (cognitivetree/policies.py): the protocols as a record of functions over a world `W`
--     that stands for models, sandboxes, clocks and random generators. A policy may raise.
--   Exec: the statements of the controller, which keep what they wrote where they raise.
--   Selection, Expansion, Evaluation, Search (cognitivetree/search.py): `_select`, `_expand`,
--     `_evaluate` with `_collect_verdicts` and `_backpropagate`, and `run` with `_advance`.
--   Feedback (cognitivetree/feedback/revision.py, rewards.py, composite.py): revision notes and
--     the bounded revision policy, shaped rewards, critics in a chain.
--   Critic (cognitivetree/feedback/execution_critic.py): the diagnosis of an execution; its regular
--     expression is a scan for the longest run of name characters.
--   Llm (cognitivetree/llm/client.py, caching.py, parsing.py, scripted.py): the JSON object in a
--     completion, with the parser as a parameter; completions and their bounded store, an ordered
--     dictionary kept as a list of entries, the least recently used one first.
--   Observability (cognitivetree/observability/accounting.py, budget.py, metrics.py): the tally of
--     tokens, the budget and the metrics of a run. Natural numbers stand for its counts.
--   Sandbox (cognitivetree/sandbox/spec.py, process.py): limits, requests and results, and the
--     reader that captures a bounded output of a child, which the operating system runs. Bytes are
--     numbers; decoding is a parameter.
--   Llm.Remote (cognitivetree/llm/openai_compatible.py): the client with its retries; the transport
--     and the JSON parser are parameters.
--   Sandbox.Backends, Executors, Docker, Fences, Grading, Framing
--     (cognitivetree/sandbox/backends.py, subprocess_executor.py, docker_executor.py, extraction.py,
--     evaluation.py, payload.py): the choice of an executor, the executors, the payload of a thought,
--     its verdict, and its frame. The operating system and the Docker client are parameters. The
--     choice of an executor is a call that runs alone; concurrent calls are not modelled.
--   Tree.Payload (`to_dict` and `from_dict` of cognitivetree/node.py and tree.py): trees as nested
--     documents.
--   Persistence (cognitivetree/persistence/archive.py, replay.py): a run as a document, and back; the
--     stream of an archived run.
--   Envelopes (cognitivetree/ui/events.py) and Session (cognitivetree/session.py): the stream of a
--     run; the queue of a session stands beside the world of the policies, and the sink writes to it.
--   Prelude: shared names, Boolean tests, lists over the native numbers, texts, floats.
--   Scenarios, Examples: concrete inputs and the theorems at them.
--
-- Rounds. `walk` gets 2 ^ size rounds; its stack is weighed by 2 ^ (size - address), and children
-- are younger than their parent. `path_from_root` gets address + 1 rounds, a descent of `select`
-- as many as there are nodes, and `select` one more than that, since each restart prunes a live
-- node. `loop` gets max_iterations rounds. `no_fuel` marks a loop that ran out of rounds.
-- `rebuild` gets as many rounds as a document has nodes, `attempts` those that the retries allow,
-- and the digits of a length as many as the number itself.
--
-- Floats are bit patterns with their operations as a parameter. Texts are lists of code points.
-- Not modelled: logs, the HTTP server and its page, the command lines, the benchmark, the demos, the
-- integrations, and the prompts and readers of the language-model policies. Where the program calls
-- the network, the file system, the operating system, Docker or the JSON parser, the model has a
-- parameter.
pub mod Prelude
pub mod Phases
pub mod Faults
pub mod State
pub mod Node
pub mod Tree
pub mod Config
pub mod Policies
pub mod Exec
pub mod Selection
pub mod Expansion
pub mod Evaluation
pub mod Search
pub mod Envelopes
pub mod Persistence
pub mod Session
pub mod Llm
pub mod Critic
pub mod Sandbox
pub mod Feedback
pub mod Observability
pub mod Scenarios
pub mod Examples
