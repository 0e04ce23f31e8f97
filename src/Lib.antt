-- ===== src/Lib.antt =====
-- network-skill-lab: a server that gives each user a lab in a sandbox of containers or machines,
-- watches the work in it and decides when the lab has passed.
--
-- The parts, and the file of each:
-- - internal/attempt/service.go, runners.go: the attempt service. Attempt.World is its state (the
--   rows, the trackers, the tickers, the events, the runners and the map of the sandboxes) with
--   the monad in which its methods are written; Attempt.Service has `get`, `view`, `destroy` and
--   the hooks, Attempt.Ending the ways in which an attempt ends, Attempt.Starting `reserve` and
--   `promote`, Attempt.Provision the goroutine between them, with Attempt.Leftover. Attempt.Calm
--   and Attempt.Ended compute the parts of `end` where no statement fails; Attempt.Outcome,
--   Attempt.Promotion and Attempt.Reserve are about the whole operations.
-- - the trackers of service.go (`Connected`, `Disconnected`, `track`, `untrack`, `arm`, `armed`):
--   Attempt.Tracker, with Attempt.Idle and Attempt.Stale on any sequence of these calls.
-- - internal/attempt/view.go: Attempt.View. internal/attempt/submit.go: Attempt.Submit, with
--   Attempt.Verdict.
-- - internal/attempt/prune.go: Attempt.Pruning; Attempt.Pruned is about one removal and one
--   batch, Attempt.Retention about the loop, Attempt.DryRun about the dry run.
--   internal/attempt/bus.go: Attempt.Bus, with Attempt.Deliver on any sequence of its calls.
-- - internal/runner/registry.go: Runner.Member and Runner.Schedule; Runner.Order, Runner.Ratio
--   and Runner.Choice lead to Runner.Placement. internal/runner/spec.go: Runner.Spec, with
--   Runner.Interfaces.
-- - internal/store: Store.Model has the rows, Store.Attempts and Store.Progress the statements,
--   Store.Lookup the reads behind an update, Store.Removal those behind a removal.
-- - internal/checker/checker.go with internal/store/checkpoint_runs.go: Checker.Sweep, with
--   Checker.First; Checker.Loops has the loops and Checker.Single any sequence of their steps.
-- - internal/recorder/recorder.go: Recorder.Lines (`parse`) and Recorder.Pull (`pull`,
--   `pullAll`); Recorder.Split and Recorder.Cut lead to Recorder.Exact and Recorder.Progress.
-- - internal/auth/ratelimit.go: Auth.Limiter, with Auth.Block. internal/auth/service.go with the
--   statements of internal/store/sessions.go: Auth.Login, with Auth.Session.
-- - internal/content/content.go and params.go: Content.Lab has the data of a lab, Content.Render
--   the templates, Content.Cases the choice of a case, Content.Library what is used of
--   `net/netip` and `math/rand/v2`, Content.Params the draw of the parameters; Content.Blocks has
--   the arithmetic for Content.Addresses and Content.Subnets. internal/content/validate_rules.go:
--   Content.Requires (`checkRequires`, `findRequiresCycle`); Content.Acyclic, Content.Answers and
--   Content.Cycles are about the search, Content.Declared about the names, Content.Rules about
--   the whole rule; Content.Fields has the rules on parameters and cases, Content.Tutorial
--   `checkTutorial`, with Content.Lessons.
-- - `Topology` of internal/content/content.go: Content.Topology. internal/content/validate.go:
--   Content.Links (`checkRoles`, `checkLinks`) and, for `paramSets`, Content.Started.
--   Content.Names is about `Render`, Content.Seeds about the names that a draw gives,
--   Content.Checked about a link without errors; with Content.Resolves they lead to
--   Content.Started.
-- - internal/runnerproto/message.go and payload.go: Protocol.Frame, Protocol.Payload (with
--   the types of internal/runner/runner.go) and Protocol.Failure.
-- - internal/runnerserver/outbox.go: Server.Outbox, with Server.Fifo. pty.go: Server.Stream.
--   conn.go: Server.Conn; Server.Keeps and Server.Replies are about single steps, Server.Calls
--   about any sequence of them. hub.go: Server.Hub, with Server.Presence and Server.Current on
--   any sequence of its steps, and Server.Handshake.
-- - internal/runnerclient/session.go: Client.Session has the state of a session and its
--   terminals, Client.Pumps their pumps and their input, Client.Dispatch the answers to the
--   methods, Client.Work the goroutine of a call; Client.Entries, Client.Ledger, Client.Kept and
--   Client.Calls lead to Client.Steps, on any sequence of steps, and Client.Log, Client.Quiet,
--   Client.Answers and Client.Stages to Client.Order. client.go: Client.Keeper.
-- Prelude holds what they share. The files whose names end in Tests run the definitions on small
-- inputs.
--
-- How they meet: `Start` calls `reserve`, which asks the scheduler with the counts of the store,
-- and tracks the attempt; a connection to the attempt calls the trackers; a timer that fires
-- calls `end`; the checker calls `Finish` and the recorder is a hook of `end`. Each method is an
-- action on one world. `Delete` and `Prune` share `remove`. A runner comes in through the
-- handshake and the hub, its frames go to the connection and from there to the streams, and what
-- the server sends goes through the outbox. The events that the service publishes are a list in
-- its world; what the bus makes of them is Attempt.Bus. Where the source holds a lock (`startMu`,
-- `mu`), the operation is one action; where it does not, as in `end` and `promote`, its reads and
-- its writes are two, and a theorem can put another operation between them.
-- A lab that was checked is resolved and made into the
-- specification of a sandbox, which crosses the protocol to the session of a runner's client.
--
-- Conventions. Numbers are natural numbers; an `int` is its bit pattern, with its wrap-around
-- written out in Prelude.Words. A time is the count of nanoseconds since Go's zero time, a
-- duration is kept within 63 bits. An error is a value without its text, but where it
-- crosses the protocol. A statement of the
-- database fails where the list of faults in the world says so, or a flag of the login and of
-- `Authenticate`, and then changes no row. The JSON
-- decoder, the labs, the answers of a runner, the random numbers, the texts of addresses and the
-- outcome of a write are parameters. Loops are structural recursion, but for three: the loop of
-- `Prune` has fuel, and more than there are rows is enough, since each full batch removes a row
-- or ends with an error; the search for a cycle has fuel for its depth, and more than there are
-- checkpoints is enough, since each level marks one of them; the tries of
-- `provisionUntilPrechecked` have fuel, and as much as there are tries is enough. `Prune` with a
-- dry run asks for 2 ^ 31 - 1 rows, as the code does.
--
-- Not modelled: the HTTP interface, the web client, the configuration and the commands, the
-- providers of sandboxes, the collection of what a runner's process left, the scripts of a
-- sandbox, the JSON of the messages but for what a command loses in it, the rules of the
-- validation on texts and scripts, the administration of users, the cast files of the
-- recordings, and the loops of the recorder. These are I/O, or stand apart from what is
-- modelled. The texts of the log are left out, and those of errors too, but in the answers of a
-- runner. In a session of the client, a socket on which a write failed takes no more, as its
-- package documents; the ids of its terminals are 32 bits wide, so its theorems ask for fewer
-- steps than that.
pub mod Prelude
pub mod Runner
pub mod Content
pub mod Store
pub mod Attempt
pub mod Recorder
pub mod Auth
pub mod Checker
pub mod Client
pub mod Protocol
pub mod Server
