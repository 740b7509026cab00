-- ===== src/Lib.antt =====
-- meristem: the work-item core of the control plane, as a verification library.
--
-- The program records everything as events. internal/workitems/service.go takes a request, checks
-- it, and appends events through internal/events/events.go (Writer.Append) in one transaction; the
-- projectors of internal/workitems/projectors.go turn each fresh event into rows of work_items and
-- work_item_relations. internal/domain holds the types and the state machine, internal/feed the
-- classes of event kinds that the rate budgets count by, internal/jobqueue the leases of workers,
-- internal/safety the limits of the whole, internal/grants the pure decision on delegated tokens,
-- internal/access what a token may see and do, and internal/convergence the reducers that decide
-- whether an item converged. internal/approvals lets a human decide on a side effect of an item.
-- internal/worker scans the items: it runs the reducers and records what waits beyond its patience.
-- internal/crossnode carries commands between nodes.
--
-- Files:
--   Base, Base/*          Boolean tests, lists, text, counting, integers; names of the libraries
--   Domain, Domain/*      internal/domain/models.go and event.go: types, CanTransition
--   Events                events and the payloads that internal/workitems writes
--   Feed/Taxonomy         internal/feed/taxonomy.go: StaticKindClass, ClassifyEvent, ClassifyItem
--   Convergence           internal/convergence: signals, verdicts, the Reducer interface
--   Convergence/Reducers  reducers.go: MajorityVote, Unanimous, Threshold, AllPassChecklist
--   Convergence/Proposals reducers.go: ChecksProposal, HumanAck, KnownReducer
--   Convergence/Run       convergence.go: Run; Convergence/Registry: Register, Get, DefaultRegistry
--   Convergence/Budget    budget.go: Validate, Exhausted, Next
--   Grants, Grants/*      internal/grants/reducer.go: Reduce and its helpers
--   Store                 the database as lists of rows, transactions with errors, and the rules for
--                         invariants (Keeps, Triples) and for what writes nothing (Quiet)
--   WorkItems             what internal/workitems asks of code outside it (Env, Context)
--   WorkItems/Projectors  projectors.go: one function per projector, with the schema's constraints
--   WorkItems/Writer      events.go: validate and Append
--   WorkItems/Ancestry    service.go: childIsAncestorOf, as the rounds of its recursive query
--   WorkItems/Budgets     service.go: the resolution of the three xylem budgets
--   WorkItems/Enforce     service.go: their counts and enforcement, append with a rate budget
--   WorkItems/Escalation  service.go: requestXylemEscalationInTx
--   WorkItems/Service     service.go: Create, SpawnChild, SpawnChildWithID, UpdateMetadata,
--                         Transition, AppendEvent, Get
--   WorkItems/History     sequences of calls; WorkItems/Graph: the relations as a graph
--   JobQueue, JobQueue/*  internal/jobqueue: ClaimNext, the marks, the dispatch projector
--   Safety, Safety/*      internal/safety/policy.go: the policy, Validate, the profiles
--   Domain/QualifiedRef   internal/domain/qualifiedref.go: node ids and references across nodes
--   Feed/Base64, Cursor   internal/feed/cursor.go: the cursors, and the base64url they are written in
--   Feed/Read             internal/feed/feed.go: queryAfter, the read of a page; where a read starts,
--                         and the polls (Feed/Read/Start)
--   Access, Access/*      internal/access/access.go: ToolVisible, the checks and the filters; the
--                         trees that they read; the tokens that internal/grants decides on
--   Approvals             internal/approvals: projectors.go, and service.go in Approvals/Service;
--                         Change and Calls: what a call does to a row; Items: to work items
--   Crossnode             internal/crossnode/select.go: Select; Crossnode/Deliver: deliver.go;
--                         Crossnode/Selected, Retry, Answers: what Select and Deliver do together
--   Crossnode/Queue       queue.go, projectors.go, and handleCrossnodeCommand of internal/api
--   Worker                internal/worker: patience rules and breaches; Worker/Scan: breachCandidates;
--                         Worker/Pass: the breach pass of ScanOnce; Worker/Drive: convergence_driver.go on one item
--   */Examples            runs at concrete inputs
--
-- State and time. Store holds the rows of events, work_items, work_item_relations and the ids of
-- tokens; a transaction is a function on it, whose error loses what it wrote. An exhausted budget
-- commits and returns an error: such an operation returns the error as a value. now is fixed in a
-- transaction, as in Postgres, in microseconds. Calls are sequential: the locks that the program
-- takes are what makes them so.
--
-- The queue of commands and the approvals have stores of their own (log and rows), and Append on
-- them is the lookup of the event's id and the projectors of the package. The worker is modelled by
-- what its calls answer: whether a fact was fresh, or an error, which a pass ignores or returns as
-- the code does. The passes of Worker/Drive are those that come to the item while it is running.
-- Durations are nanoseconds.
--
-- Bounds. A recursive query runs for as many rounds as there are relations: each round that goes on
-- adds a row. queryAfter runs one query more than there are rows: each but the last scans some. The
-- retry loop of a budget is given one disposition for each attempt.
--
-- Parameters. SHA-256 over canonical JSON (digest), uuid.NewSHA1 (escalation_id,
-- human_work_item_id), uuid.UUID.String and uuid.Parse, the cultivar registry, float64 arithmetic,
-- the id that a request gives to a new item, the ids of the events of the command queue and of
-- approvals, what the network answers to each attempt of Deliver, and the JSON of a cursor's
-- envelope, of which Feed/Cursor/Scoped states what is needed. Nothing is assumed of them but what
-- a theorem's hypotheses say.
--
-- Not modelled: HTTP, MCP and command-line surfaces, storage and other I/O; Service.List; canonical
-- JSON; signals, backlog readiness, idempotency, the HTTP connector, the services around grants,
-- cultivars and registries; the spoke's poll loop, and the passes of the worker that spawn children
-- or gather signals. time.Time.Sub saturates at about 292 years; the model's age does not.
pub mod Base
pub mod Domain
pub mod Convergence
pub mod Grants
pub mod Events
pub mod Feed
pub mod Store
pub mod WorkItems
pub mod JobQueue
pub mod Safety
pub mod Access
pub mod Approvals
pub mod Crossnode
pub mod Worker
