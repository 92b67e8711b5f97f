-- ===== src/Lib.antt =====
-- FileNest organises the files of a workspace: it plans moves, has them approved, executes them with
-- an undo history, and indexes documents for retrieval. This library models the core of
-- backend/app, in Python, and proves what that core promises.
--
-- The parts and their files:
-- - OperationStatus: backend/app/operation_status.py, the statuses that all user interfaces share, the
--   graph of their transitions (transition_operation_status) and the maps into it.
-- - FilePath: what the program uses of Python's str, pathlib.PurePosixPath, os.path.abspath and
--   Path.relative_to, on text as a list of code points.
-- - OperationPlan: backend/app/operation_plan.py, the immutable plan of file operations, with its
--   pydantic validators as functions that return an error or the value.
-- - Workflow: backend/app/workflow.py, the state machine that carries one plan from ready to an end, and
--   Workflow.Node, the node _apply_event of backend/app/workflow_graph.py that runs it.
-- - Job: backend/app/job_system.py, long tasks with a history of attempts. Job.Model has the attempts and
--   events, Job.State the job, each with its validators, and Job.Events one function per handler and
--   transition_job.
-- - PathPolicy: backend/app/path_policy.py, which paths may be touched. PathPolicy.Rules has the
--   sensitive path rules and authorize_path, PathPolicy.Workspace the policy of one workspace.
--   PathPolicy.Ignore the ignore patterns.
-- - FileSystem: backend/app/filesystem_adapter.py in FileSystem.Adapter, the one entry to files;
--   backend/app/v2_file_mover.py and backend/app/safe_file_mover.py in FileSystem.Mover; and
--   backend/app/quarantine.py in FileSystem.Quarantine.
-- - JobStore: backend/app/job_store.py, the tables of jobs and attempts of backend/app/models.py.
--   JobStore.Payload has the JSON of a payload, JobStore.Records the rows and their queries,
--   JobStore.Store the methods that write, JobStore.Listing those that list.
-- - JobRunner: backend/app/job_runner.py, how a runner with a store applies an event, and how it takes over
--   the jobs that an earlier process has left.
-- - Approval: the decisions of backend/app/services.py. Approval.Records has their rows and the queries of
--   backend/app/repositories.py, and Approval.Decision _transition_approval_request and its callers.
-- - Document: backend/app/document_contracts.py in Document.Contracts, and
--   backend/app/document_chunker.py in Document.Chunker, which cuts a document into chunks.
-- - Retrieval: backend/app/keyword_retrieval.py, the search of a keyword in a corpus, its matches, their
--   sources and the ranked results. Retrieval.Context has the contracts of a retrieved chunk and of the
--   snapshot of a retrieval, from backend/app/document_contracts.py, and Retrieval.Rows the way from the
--   rows of a query to a snapshot, backend/app/retrieval_context.py.
-- - Citation: backend/app/citation_runtime.py. Citation.Tokens finds the citations of an answer,
--   Citation.Claims the text before them, and Citation.Binding has bind_citations.
-- - Base: Boolean tests, results, lists and text that the parts share.
--
-- How they interact: a workflow carries an operation plan and keeps its sources when the plan is
-- replaced; its statuses map to operation statuses. Plans, documents and policies check relative paths
-- by three copies of one test, and the policy turns its denied values into paths that authorize_path
-- compares.
--
-- The decisions write the statuses of approvals, plans and operations, the last through the graph of
-- operation statuses. The job store writes the states of the job machine and reads them back; the runner
-- takes a job from the store, applies an event and stores the result. A mover asks the adapter for each
-- path, and the adapter asks authorize_path and the ignore patterns; the quarantine uses two adapters.
-- The citations of an answer are bound to the chunks of the snapshots of its retrievals.
--
-- State: the operations of a state machine map a state to the next one or an error. The methods of the
-- store and the decisions take two databases, the one that their queries have seen and the one that their
-- writes find, and return the one that they leave; a rollback leaves the database as it was. The file
-- system is a value, what the operating system answers at one moment; the movers take and return it, and
-- a function stands for what other processes do between the checks and the move.
--
-- How code becomes a definition: a raise is err, a return is ok, an early return is the next clause of a
-- do block. A pydantic model is a record; a value of the record is what was parsed, and its validators
-- are run where the code builds a model. Identifiers and instants are numbers, so the checks that a
-- time has a time zone hold by construction. Sets of rules keep the order of their values.
--
-- Bounds and fuel: the segments of a long line are cut on fuel, the length of the line, which is enough
-- since every segment has at least one character; the loop over lines is by recursion on the list. The
-- loop over matches has one round more than the text has characters: a keyword is not empty, so each
-- match ends further on. A number is written in decimal with one more round of fuel than the number, which
-- Base.Decimal shows to be enough.
--
-- Parameters: the hash of a job's payload, uuid5, the validator of plans that a workflow graph is built
-- with, and for paths the record System: os.getcwd, Path.resolve, Path.exists, Path.is_dir and
-- str.casefold. Where a theorem needs it, Resolves and Settles state what Path.resolve documents: an
-- absolute path without dots, and without links. Paths are those of POSIX, and suffixes those of
-- Python 3.13. For the store: the parser of a payload's JSON, pydantic's, of which ReadsBack states that
-- it reads back what json.dumps has written. For the file system: os.stat and its kin in the record
-- FileSystem, fnmatch, shutil.move and Path.mkdir. For retrieval: str.casefold, the parser of the JSON of
-- positions and the hash of a snapshot.
--
-- Not modelled: the JSON form of policies, the checkpoint store of workflows, the audit of refused writes
-- and the reading of contents and directories by the adapter, safe execution with its database, the other
-- services, the threads and in-memory records of the job runner, retrieval by embeddings, the agent and its tools; and
-- what is only glue to libraries: ORM tables, HTTP and MCP entry points, model clients, parsers,
-- migrations, evaluations and the desktop program.
pub mod Base
pub mod OperationStatus
pub mod FilePath
pub mod PathPolicy
pub mod FileSystem
pub mod OperationPlan
pub mod Citation
pub mod Document
pub mod Retrieval
pub mod Approval
pub mod Workflow
pub mod Job
pub mod JobStore
pub mod JobRunner
