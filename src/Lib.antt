-- ===== src/Lib.antt =====
-- fizzy-symphony is a daemon that watches Fizzy boards and runs coding agents on their cards. Several
-- daemons may watch one board; they keep apart by claim markers that they post as comments.
--
-- The parts and their files. Paths are those of the repository; names in camel case are functions
-- there, and the definitions here have the same names in snake case.
--
-- * Scheduler (src/scheduler.js, and createWebhookHintQueue of src/server.js) says when a
--   reconciliation tick runs. Scheduler/Defs has the variables of the closure as a record and one
--   function for each handler; the function run_once is runOnce up to its first await, and settle
--   is its finally block. An event is a call of a handler, the timer firing, the running tick
--   settling, or a rejected tick reaching the timer. Scheduler/Invariant and Scheduler/Delivery
--   are about all sequences of events.
-- * Orchestrator (src/orchestrator-state.js) keeps the active runs, the retry queue and the logs of a
--   daemon. Orchestrator/Types has the data, Defs the bounded logs and the map of runs, Runs,
--   Renewals and Retries the operations and the timers, Steps all of them as one step function. An
--   operation that may throw gives a Boolean that says whether it returns.
-- * Claims (src/claims.js) is the claim protocol. Claims/Types and Inputs have the data, Markers makes
--   and validates markers, EventLog reads the comments of a card and folds them into one state for
--   each claim, Select chooses among them, Store has the four operations of the board claim store,
--   and Inspect the look at a board at startup; Acquire, Exclusive, Race and Startup are about what
--   the daemons may rely on. What a daemon reads at each of its calls of the
--   Fizzy client is an argument, since others write in between; what it posts is part of the result.
-- * Router (src/router.js, and normalizeTag of src/validation.js) decides on a card. Router/Types has
--   the data, Tags the override tags, Gates the conditions under which a card is passed over,
--   Effective the route with the overrides, Decide routeCard, Dispatch the order of dispatch;
--   Eligible, Conditions, Dispatchable and Order are about them. The numbers of priorities are from 0 on.
-- * Golden (src/validation.js discoverGoldenTicketRoutes and what it calls) makes the routes of a board
--   from its golden tickets. Golden/Types has the data, Families and Completion read the tags,
--   Graph is validateCompletionGraph, Discover the rest; Cycles and Columns are about them.
-- * Reconciler (src/reconciler.js) is the part of the tick that dispatches cards: Reconciler/Capacity
--   has the capacity tracker, Dispatch the merge with the ready retries and the loop; Counts and
--   Limits are about them. StatusRuns is reconcileActiveRuns, Lifecycle its second part;
--   Kept and Verdicts are about its first loop.
-- * Runs (src/reconciler.js runCard and what it calls, requiredUncheckedSteps of src/completion.js) is
--   one card from its claim to its release, as code that awaits calls and may throw. The outside
--   says by the log of the calls so far which call throws and what each one answers, and what
--   timers and other runs do to the orchestrator's state meanwhile. Runs/Types has the data, Exec
--   the effects, Steps the required steps, Turns runSameThreadTurns, Sessions the end of the
--   runner's session, and Card runCard. Runs/Protocol says which call may follow which log; Triples
--   has the rules for assertions, and Order, Ordered, Completion, Outcome, TurnRules, TurnCount and
--   Released apply them. The rendering of the prompt and the making of the failure marker are not
--   awaited, but may throw, so they are calls of the log too.
--   Cancel is cancelStatusRun, and Cancelled is about it.
-- * Cleanup (src/completion.js) ends a run: Cleanup/Policy is applyCompletionPolicy, with how the calls
--   of the client end as its argument, and Cleanup/Eligibility evaluateCleanupEligibility, which
--   decides whether the workspace may be cleaned up; Eligible is about it.
-- * Workspaces (src/workspace.js cleanupWorkspace and what it calls) removes the worktree of a finished
--   run. Workspaces/Types has the data, with all answers of git, the files and the hook in the
--   request, Status the reading of git's status, Guard the guard file and the proof, Cleanup the
--   whole; Checks and Removal are about it.
-- * Recovery (src/recovery.js, with updateAttempt of src/run-registry.js) is what a daemon does at its
--   start with the attempts that are left. Recovery/Types has the data, Evidence is
--   evaluateCleanupRecovery, Startup the loops of performStartupRecovery; Decisions, Resumable and
--   Interrupted are about them.
-- * EtagCache (src/etag-cache.js) keeps what was last read for a request. EtagCache/Defs has the
--   variables and the operations, Laws is about them.
-- * Fizzy (src/fizzy-normalize.js) has the fields of a card, and the texts that the others share.
-- * Base has the tests on numbers and options, lists, and the stable sort that stands for
--   Array.prototype.sort: insertion of each element before the first that is not less.
-- * Tests has tests and the theorems at concrete inputs.
--
-- The scheduler calls the tick. The tick calls the router with the claims and markers of a board,
-- sorts the decisions, asks the capacity tracker, acquires the claim, consumes the retry in the
-- orchestrator's state and runs the card, which starts a run there and releases the claim at its end.
--
-- What the source gets from outside is a parameter: the comparison of texts (localeCompare), relied
-- on as a total preorder; the card's digest; the answers of the runner and the claim service; the
-- time. Times are milliseconds since 1970, and a timestamp's text is what Date.parse makes of it.
-- Every function ends by structural recursion, with fuel in one place: the walk along the moves of
-- routes has one round more than there are moves, as each round but the last sees a new target. The loop over
-- the turns of a run has as many rounds as there are turns configured, and leaves by a return or an
-- exception. The bounds are the source's: 50 entries for a log, and the limit of the hint queue,
-- which is an argument. Lengths and times are
-- numbers without bound: the source's are far below the 2 ^ 53 up to which its numbers are exact.
--
-- Not modelled: failures of the Fizzy client, and the assigning and watching of cards; how a
-- marker's JSON is written into a comment and found there (src/marker-comment.js): the models of
-- createClaimMarker and parseClaimMarker make and read the object itself; the copies that are made for the status. A claim's renewal by the
-- orchestrator is one step with its answer, and a timer is known by its run and attempt, so a
-- timer of a run with no attempt ID that is gone does nothing. In the dispatch loop, claims and
-- runs return. In a run, the status keeps what it is given, a thrown error is its code and message,
-- and the name of the clean-up's result and the texts of prompts, proofs and workpads are left out.
-- The rest of the reconciler and of completion, preparing workspaces, configuration,
-- the runners, the clients and the terminal are not modelled.

pub mod Base
pub mod Fizzy
pub mod Golden
pub mod Scheduler
pub mod Orchestrator
pub mod Claims
pub mod Router
pub mod Runs
pub mod Reconciler
pub mod Cleanup
pub mod EtagCache
pub mod Tests
pub mod Workspaces
pub mod Recovery
