-- ===== src/Lib.antt =====
-- A verification library for the Python code of Osprey: what a rule engine does with an action, and
-- what becomes of the labels of an entity. Paths are from the root of the repository.
--
-- Parts and files:
--   Labels (osprey_worker/src/osprey/worker/lib/osprey_shared/labels.py and
--     osprey_worker/src/osprey/worker/lib/storage/labels.py): statuses, reasons and states of
--     labels, their serialisation, and LabelsProvider, which turns the mutations of a request into
--     new labels. A clock is a function, read where the code reads the time; an instant is a number
--     of microseconds.
--   Sorter (osprey_worker/src/osprey/engine/executor/topological_sorter.py): TopologicalSorter, which
--     tells the executor what is ready. `done_one` is the body of the loop of `done`.
--   Graph (osprey_worker/src/osprey/engine/executor: execution_graph.py and dependency_chain.py): the
--     dependency chains of the sources of a rule set and the order in which they are added. A chain
--     is a tree with its identity, which counts the chains made before it and stands for the `id` of
--     the object; it also tells chains apart, each of which has an executor of its own.
--   Executor (osprey_worker/src/osprey/engine/executor: execution_context.py and executor.py): the
--     context over the sorter and the loop of `execute` where `async_pool` is None.
--   Ast (osprey_worker/src/osprey/engine/ast/grammar.py): the syntax tree, and which assignments are
--     extracted. The annotation that the validation of static types sets on a name is a field of it.
--   Types (osprey_worker/src/osprey/engine/udf: rvalue_type_checker.py and type_evaluator.py): the
--     checkers that annotations stand for, and when a type is compatible with another. What
--     `isinstance` and the call of a class do is behind the interface Types.Defs.Objects.
--   Queries (osprey_worker/src/osprey/engine/query_language/ast_druid_translator.py and
--     osprey_worker/src/osprey/engine/utils/osprey_unary_executor.py): queries as filters of Druid,
--     with the tree that a translation leaves. Druid is behind Queries.Filters.Cells and IsDruid,
--     with its three-valued logic (Queries.Truth).
--   Validators (osprey_worker/src/osprey/engine/ast_validator/validators: unique_stored_names.py and
--     variables_must_be_defined.py): the nodes of a tree in order, and which names are known where
--     they are loaded. The sources that a call of Import names are a parameter.
--   Execution (osprey_worker/src/osprey/engine/executor: execution_context.py, executor.py and
--     node_executor; osprey_worker/src/osprey/engine/stdlib/udfs/rules.py): what a node resolves to,
--     the executors of the nodes, the wrappers that turn an exception into a failed node, and
--     WhenRules. Values are any Python objects, behind the interface Execution.Values.Values.
--   Experiments (osprey_worker/src/osprey/engine/stdlib/udfs/experiments.py): validation of an
--     experiment, the bucket of an entity, and the UDFs that read it.
--   Ring (osprey_worker/src/osprey/worker/lib/etcd/ring.py): the hash ring that is kept in etcd.
--     A name is a text or a byte string, which may not be UTF-8.
--   Etcd (osprey_worker/src/osprey/worker/lib/etcd: set.py and dict.py): the sets and dicts that are
--     kept under a key of etcd, with the loop that reads, updates and writes back. A call of the
--     client takes a world to what it answers and the world after it.
--   Utils (osprey_worker/src/osprey/engine/utils/graph.py): the directed graph of the imports and its
--     topological sort, which gives the sources in the order in which Graph compiles them. The order
--     of the edges of a node stands for that of the Python set.
--   TimeBuckets (osprey_worker/src/osprey/engine/stdlib/udfs/time_bucket.py and
--     osprey_worker/src/osprey/worker/lib/snowflake.py): rounding timestamps down.
--   Base: tests, lists, dicts and results that the parts share.
--
-- The rules engine emits label effects, which an output sink hands to LabelsProvider as mutations; the
-- executor asks the sorter for ready nodes, runs them by the executors and their wrappers, and stores
-- each result for the nodes that depend on it. The graph gives the executor the chains of the entry
-- point, and those of each source that a node imports while it runs. Experiments and rules are UDFs that such nodes call.
--
-- A Python exception is a value of Result or Attempt. Where a method changes its object before it
-- raises, the model gives the object beside the exception if a caller can still see it. Loops are over
-- lists, but for the `while` loop of `execute`, which has fuel for its rounds: as many as the graph
-- has chains are enough, since each round finishes a chain; and but for the update loop of Etcd, which
-- has fuel for its rounds and needs one more than it meets conflicting writes. The recursion of Utils
-- has fuel for the depth of its calls: one more than the graph has nodes. A dict is a list of entries in insertion order.
--
-- Parameters: the clock, isoformat and fromisoformat of datetime, the mmh3 hash, the hash_ring package,
-- json and the etcd client, the labels service, the UDFs, what the executor of a chain does, Druid, the edit
-- distance of Levenshtein, and the classes of Python's objects.
--
-- Not modelled: locks, greenlets and retries, metrics and logs, the parser and the other validators
-- of syntax trees, and the sinks, storage and the UI, which are I/O.
pub mod Base
pub mod Graph
pub mod Labels
pub mod Sorter
pub mod Experiments
pub mod Etcd
pub mod Ring
pub mod Execution
pub mod Executor
pub mod TimeBuckets
pub mod Utils
pub mod Ast
pub mod Types
pub mod Queries
pub mod Validators
