-- ===== src/Lib.antt =====
-- Rumor Mill AI simulates a town in which characters witness, believe and pass on rumors. This
-- library models its durable core, the Python package under src/rumor_mill.
--
-- The parts and how they interact. A scheduler (engine/scheduling.py) advances the simulation clock
-- of a run and, in the same transaction, adds a job for each unit of work that falls due. Workers
-- (engine/jobs.py) claim jobs under a lease, prepare an expensive mutation outside any transaction,
-- and apply it together with the job's completion. The belief service (engine/beliefs.py) is one of
-- the services that such mutations call: it weighs evidence and appends a new version of a
-- character's belief. Rumor propagation (engine/propagation.py) and the queries about the authored
-- town (worlds/town_state.py) are pure functions of their input, the one of a seeded generator, the
-- other of the world definition. Scene generation (engine/scene_generation.py) plans a scene, has a
-- model write it, checks what came back and stores it; the Lighthouse pipeline
-- (engine/lighthouse_pipeline.py) is the scheduler's source of work and the handler of the jobs
-- that it makes due. Memories (engine/memory.py) are formed from events and claims and retrieved
-- within a budget of tokens. Daily recaps (engine/recap.py, engine/recap_publication.py) are
-- planned as jobs and published once for each date. A private conversation (engine/conversation.py)
-- passes a visitor's text to a model and lets its reply out only if it stays within what the
-- character may say; evaluations (evals) grade what models write. The services that keep state use
-- the repositories (adapters/persistence/repositories.py) inside a unit of work.
--
-- Which file models what. A table is the list of its rows in the order of their insertion; a
-- transaction is a function that returns a result and the state it leaves, which is the state it
-- met if it raises.
--   Prelude/*            lists with SQL-like selection and update, a stable sort (ORDER BY),
--                        exceptions (Errors), integers (Int)
--   Json, Floats/*       JSON values; floating-point arithmetic as a parameter, its laws, and
--                        arithmetic in millionths as an instance of them
--   Jobs/Model, Repo     the jobs table and SqlAlchemyJobRepository: add_once, get,
--                        completed_keys, claim_due, complete, fail, retry
--   Jobs/Worker          DurableJobWorker.run_once and _safe_error
--   Jobs/Steps, Traces   the life of a job as a step relation, and histories of operations
--   Jobs/Invariant, Table, Preserve, Lookup, Claim, Leases, Abandoned, Worker/*   the proofs
--   Scheduling/Runs      the runs table and SqlAlchemyRunRepository
--   Scheduling/Advance   SimulationScheduler.advance and _ticks_due
--   Scheduling/Enqueue, Clock, Transaction   the proofs
--   Domain/Base, Subjective, Canon, World   the contracts of engine/domain/base.py,
--                        subjective.py, canon.py, presentation.py and world.py
--   Beliefs/Store        EvidenceInput and SqlAlchemyBeliefRepository
--   Beliefs/Service      BeliefService: consider and its helpers
--   Beliefs/Confidence, Versions, History   the proofs
--   Propagation/Rumors, Retell, Simulate   RumorPropagation (engine/propagation.py)
--   Propagation/Traced, Outcome   the proofs
--   Memories/Records, Formation   MemoryService.form (engine/memory.py) and the memory repository
--   Memories/Retrieval   MemoryService.retrieve and summarize
--   Memories/Once, Budget   the proofs
--   Recaps/Build         build_daily_recap (engine/recap.py)
--   Recaps/Artifacts     SqlAlchemyArtifactRepository
--   Recaps/Publish       publish_daily_recap (engine/recap_publication.py)
--   Recaps/Plan          DailyRecapPlanner, and the runs that it is called for
--   Recaps/Handler       DailyRecapHandler, a handler of the worker
--   Recaps/Selection, Later, Once, Closed   the proofs
--   Worlds/Authoring, Town   TownState (worlds/town_state.py) and what it reads of
--                        worlds/authoring.py
--   Worlds/Presence, Staging   the proofs
--   Worlds/Records       the rows of worlds
--   Worlds/References, Cycles   the reference checks of worlds/authoring.py, with the search for
--                        cycles among beats
--   Worlds/Continuity    worlds/continuity.py without the schedule checks
--   Worlds/Resolve, Parts, Linked, Acyclic, Dependents, Visit, Reachable   the proofs
--   Scenes/Plan, Output, Build, Generate   ScenePlanner and SceneGenerationService
--                        (engine/scene_generation.py)
--   Scenes/Store         SqlAlchemySceneRepository and the tables of a story
--   Scenes/Focus, Indexes, Cast, Scoped, Stored, Readback, Committed   the proofs
--   Lighthouse/Reading, Source   LighthouseWorkSource (engine/lighthouse_pipeline.py), an instance
--                        of the source of work that the scheduler takes
--   Lighthouse/Handler   LighthouseStoryHandler
--   Lighthouse/Collect, Days, Due, Over, Occurs   the proofs
--   Text                 what the code uses of str: slices, in, strip, join
--   Conversations/Context, Output, Request, Safety, Stream   engine/conversation.py, up to the
--                        events that CharacterConversationEngine.stream yields
--   Conversations/Scope, Reply, Decision   the proofs
--   Evaluation/Cases, Rules, Runner   evals/models.py, rules.py and runner.py
--   Evaluation/Contained, Budget   the proofs
--   Tests/*              concrete data, and each theorem applied to it
-- A definition carries the name of the method or class that it models; where a method is split,
-- a comment names the block of it.
--
-- What is a parameter. Floating-point arithmetic (Floats), with the laws of rounding to nearest as
-- hypotheses where a theorem needs them; the readings of clocks, the identifiers that uuid4 and
-- uuid5 make, the pseudo-random generator, the tables of characters behind str.split, str.strip and
-- str.lower, NFKC and case folding, the printing of identifiers and numbers; the exponential of a
-- memory's decay and the terms of a text; job handlers and their mutations; the source of scheduled
-- work; the models that write a scene, a reply or a candidate, the dumps of models to JSON, and the
-- parsing of times; and what other transactions do to the database between two transactions of a
-- worker (Surroundings), or between the query and the updates of a claim (a snapshot).
--
-- Choices. A UUID is a number, of which equality is used, and an order for ORDER BY; an instant is
-- a number of microseconds in UTC, and a datetime that a caller provides also says whether it
-- carries a timezone. Counts and durations are natural numbers; a clock setting that is not
-- positive is 0. Most loops run over a list, and claim_due looks at no more than the ten candidates
-- that its query returns. A range takes as many rounds of fuel as there are numbers between its
-- ends. Two searches over the beats of a world take fuel: the queue of Worlds/Continuity, one step
-- for each entry and each beat, and the recursion of Worlds/Cycles, whose depth is two more than
-- the number of beats; that both suffice is part of their theorems.
--
-- What is not modelled: the schedule checks, loading and seeding of authored worlds, the files and
-- reports of an evaluation, the providers, the HTTP service, process loops, configuration, logging,
-- migrations and assets; SQL itself, whose statements are rendered as the functions above; integer
-- sizes, which Python does not bound.
pub mod Prelude
pub mod Json
pub mod Text
pub mod Conversations
pub mod Evaluation
pub mod Floats
pub mod Domain
pub mod Beliefs
pub mod Jobs
pub mod Memories
pub mod Propagation
pub mod Recaps
pub mod Scheduling
pub mod Worlds
pub mod Scenes
pub mod Lighthouse
mod Tests
