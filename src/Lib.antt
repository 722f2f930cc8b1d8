-- ===== src/Lib.antt =====
-- Hatchery core is a service that trains LoRA adapters for many users on shared base models. A gateway
-- (hatchery/core/gateway.py) checks an API key, records sessions and jobs in a metadata store and puts
-- jobs into a job queue; each GPU worker (hatchery/core/worker.py) takes jobs from the queue, gets the
-- base model from its pool, cuts the batch for its rank, packs it into rows and answers through the
-- queue. These modules model the parts that carry the rules of that traffic.
--
-- Protocols: the records of hatchery/core/protocols.py that the parts exchange.
-- Queue: hatchery/core/backends/queue/memory.py. Queue/State holds the tables of `InMemoryJobQueue`, its
--   pins and its depth; Queue/Dequeue `_requeue_expired` and `dequeue`; Queue/Settle `ack`, `nack` and
--   `wait_for_result`. The asyncio lock makes each locked part one step, and a run is a sequence of such
--   steps of any tasks; `dequeue` and `wait_for_result` have two parts, with other steps between them.
--   Invariant, Lines, Requeue, Candidates, Selection, Priority, Settlement, Runs and Waits hold the proofs.
-- SqliteQueue: hatchery/core/backends/queue/sqlite.py. Table holds the rows and their columns, Methods the
--   methods, where a transaction is one step, so `enqueue` has two; Invariant, Taking, Single, Heads and Outcomes hold proofs.
-- Gateway: hatchery/core/gateway.py and the hooks of hatchery/core/plugins.py. State holds the backends that a
--   handler shares, Ownership `_get_owned_session`, Routes the routes that answer at once with their
--   bodies in Views, Jobs `_enqueue_job`, Admission `create_session`, Operations `_run_op`; the last two
--   are cut at their wait for a job. Requests puts the routes together, and the ends of the waits; Owners,
--   Lifecycle, Changes, Admitted, Served, Events, Quotas, Refusals and Delivery hold the proofs.
-- Worker: hatchery/core/worker.py, for a worker of one rank. Payload holds `_read_payload`, Jobs how a job is
--   run and answered (`_process_one`, and the end of a round of `run`), with what other tasks do to the
--   queue while the handler runs and between the pin and the acknowledgement; Answers and Pins hold the proofs. The handlers are parameters.
-- Tinker: hatchery/core/tinker_compat.py. Futures holds the registry of futures, the sequence numbers and the
--   responses built on them; Records and Retries hold the proofs.
-- Scheduler: the record of a session's steps in hatchery/core/scheduler.py.
-- Batching: hatchery/core/batching.py, the cut of a batch over the ranks.
-- Packing: hatchery/core/packing.py. The parent holds the bins, the rows and the cut of the outputs;
--   Bins, Layout, RoundTrip, Limits and Packs hold the proofs. A tensor is the list of its rows.
-- Pool: hatchery/core/model_pool.py. Pool/Slot holds `PoolSlot` and what the pools share, Pool/Rewrap
--   and Pool/Tiered the two pools; Rooms, Recency, Tiers and Residency hold the proofs. The
--   loading of a base and the copies between the tiers are parameters, and each may raise.
-- Metadata: hatchery/core/backends/metadata/memory.py. Sessions, Jobs and Checkpoints hold its methods,
--   Fields the keyword arguments of its updates; Queries, Listing, Counts and Updates hold the proofs.
-- Objects: hatchery/core/backends/object_store/memory.py, with its proofs in Keys.
-- Registry: hatchery/core/session_registry.py, with its proofs in Owners.
-- Auth: hatchery/core/backends/auth/api_key.py, with its proofs in Access. The hash and fresh tokens are
--   parameters.
-- Lora: hatchery/core/lora_target_modules.py, with its proofs in Targets. The lower case of a text and
--   the model type of a configuration are parameters.
-- ModelIds: hatchery/core/model_registry.py, the context lengths and the context parallel degree; the child
--   Ids splits a model id, and Parts holds the proofs. Python's `int` of a text is a parameter.
-- Parallel: hatchery/core/parallel.py, with its proofs in Checks.
-- Optim: the choice of the optimizer in hatchery/core/optim_dispatch.py.
-- Common: dictionaries as association lists in insertion order, ordered dictionaries, exceptions as
--   values, lists, sorting, and what list methods answer.
--
-- Times are natural numbers of milliseconds, where the code has floats of seconds, and each reading of
-- the clock is an argument; the readings of a gateway's handler between two waits are one. Priorities are
-- natural numbers, as the gateway's 10, 5 and 0 are. A job that is enqueued has a new id, as the
-- gateway's are. All loops run over lists or down a dictionary, so no definition needs fuel.
--
-- Not modelled: the metadata store on SQLite and the object store on disk (file and database I/O), HTTP
-- itself (FastAPI, request validation, headers) and the clients, the rest of tinker_compat.py, the worker's
-- loop and its ranks, the training code on torch (losses, quantization, kernels, optimizers),
-- configuration from the environment, metrics and logging.
pub mod Tinker
pub mod Gateway
pub mod Worker
pub mod Scheduler
pub mod SqliteQueue
pub mod Metadata
pub mod Optim
pub mod Objects
pub mod Pool
pub mod Registry
pub mod Auth
pub mod Lora
pub mod ModelIds
pub mod Parallel
pub mod Batching
pub mod Common
pub mod Packing
pub mod Protocols
pub mod Queue
