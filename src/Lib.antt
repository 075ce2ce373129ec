-- ===== src/Lib.antt =====
-- node_messager: a ticket system over a few branches (sucursales), each a node with a database of
-- its own, in Go. The nodes exchange JSON messages over TCP: they ping one another (heartbeat),
-- elect a master when the master dies (election), take a lock from the master (mutex), and commit
-- every change of data by a vote (consensus). The service turns a user's wishes into locks,
-- queries and proposals, and the commit handler applies what was committed to the node's tables.
--
-- Base (with Tests, Lists, Search, Dict, Retry, Scanning): tests on numbers and strings, lists,
--   dictionaries, the loop of three attempts that consensus, mutex and service share, and what is
--   relied on of bufio's scanner.
-- Dto: pkg/node/node.go, pkg/dto/message.go and pkg/dto/payloads.go. JSON is a `Codec`, a pair of
--   functions; where a result relies on encoding/json, `IsFaithful` is its hypothesis.
-- NodeState: internal/nodestate/state.go, `State` with one function per method.
-- Mutex: internal/mutex/mutex.go. A critical section under `mu` is one function; Mutex.Events makes
--   them steps on events, Mutex.Moves and Mutex.Queue relate them to a plain queue,
--   Mutex.Passing says who gets the lock, Mutex.Permits and Mutex.Exclusion who may enter;
--   Mutex.Acquire is `Acquire`, with the events that come meanwhile. Request ids are
--   arguments, for github.com/google/uuid makes them.
-- Cluster: the lock engines of all the nodes, and the messages between them: what one goroutine or
--   the network does next is a `Move`. Cluster.Tokens and Cluster.Channels say where the right to
--   enter is, Cluster.Invariant what every move keeps, Cluster.Steps, Cluster.Aside, Cluster.Kept
--   and Cluster.Moves go through the moves. The `select` of a request ends once, and by a grant
--   only if there is one. The master is fixed; a message arrives at most once.
-- Consensus: internal/consensus/consensus.go; Consensus.Propose joins the pieces of `propose` and
--   `Propose` over a script of the votes that arrive; Consensus.Network has the other nodes with it,
--   over a network whose losses are a `Course`.
-- Election: internal/election/election.go, with timers as numbers.
-- Heartbeat: internal/heartbeat/heartbeat.go; how a ping ends is an `Outcome`.
-- MsgStore: pkg/msgstore/store.go; a file is a list of bytes and `Io` is what a write does. What
--   bufio's scanner gives of the bytes is an argument, with the law `IsScanner` of Base.Scanning,
--   which says nothing of a line over the scanner's limit and of what follows it.
-- Db and Db.Seed: internal/db/db.go and internal/db/seed.go; a table is a list of rows and the
--   driver's answer to a statement is an argument.
-- Db.Migrate: the opening of a database, with its migrations on a schema.
-- Commit: `buildCommitHandler` of cmd/main.go.
-- Service: internal/service/ticket_service.go: Service.Ids (`newID`, `SetMinIDCounter`),
--   Service.Query (`splitQueryID`, the collector of `ListAll`), Service.Assign (`distributeDevice`,
--   the choice of `raiseTicket`, `RedistributeTickets`), Service.Raise (`raiseTicket` and
--   `RaiseTicket`), Service.Adding (`AddUsuario`, `AddIngeniero`, `CloseTicket`), Service.Rows
--   (`localRows`, `unmarshalRows`), Service.Answering (`HandleQuery`,
--   `HandleQueryResponse`), Service.Listing (`ListAll` with the other nodes), Service.Devices (`AddDevice`, `HandleAddDevice`), Service.Fleet (the tickets of every node),
--   Service.Everywhere (`AddUsuario` with the three attempts of its proposal and the tables of every
--   node).
-- Dispatcher: internal/dispatcher/dispatcher.go; `Running` is a node with all its components.
-- Sender: pkg/sender/sender.go; a client of pkg/tcpclient is a number, and a `Call` is what the
--   network, the clock and the makers of ids do during one send.
-- Hub: pkg/hub/hub.go; its channels are one list of events, and each `go` statement is a `Goroutine`,
--   which runs when the scheduler says.
-- TcpClient and TcpServer: pkg/tcpclient/client.go and pkg/tcp_server/server.go; TcpServer.Delivery
--   joins them with the hub. The scanner is the same argument, with the hub's limit.
-- Cli: internal/adapters/cli/cli.go: Cli.Commands has the cases of the menu over the interface
--   `Services`, Cli.Loop the loop on the lines that the user types, Cli.Outbox `sendMsg` and
--   `broadcast`, with which Cli.Wired fills the interface. The hub of a node saves in the same store
--   as the menu does.
-- Config: internal/config/config.go; what github.com/knadh/koanf answers is a `Source`.
-- Startup: `main` of cmd/main.go up to the menu: Startup.Stores, and Startup.Sound, which joins the
--   start of a node with the dispatcher.
-- Fixtures and the modules named Tests: data and runs.
--
-- A function returns the messages that it sends beside the new state; the handlers ignore whether
-- a send succeeds, and so does the model, except in `acquireRemote` and `ListAll`. Concurrency is
-- the order of the events or of the votes in a list, and for the hub's goroutines a permutation. Numbers are natural numbers: the program
-- makes no negative ids and its counters stay below 2 ^ 63; what a user types at the menu is an
-- integer. Loops are structural recursion on the list, or on the number of attempts, which is
-- three as in the code. The loop of the menu has a round for each line that is typed and one more,
-- which is enough, since a round takes a line.
--
-- Not modelled: the sockets themselves, SQL, the layout of what the terminal shows, logging, and of
-- cmd/main.go the directories, servers and goroutines.
pub mod Base
pub mod Dto
pub mod NodeState
pub mod Fixtures
pub mod Mutex
pub mod Cluster
pub mod Consensus
pub mod Election
pub mod Heartbeat
pub mod MsgStore
pub mod Db
pub mod Service
pub mod Commit
pub mod Dispatcher
pub mod Sender
pub mod Cli
pub mod Hub
pub mod TcpClient
pub mod TcpServer
pub mod Config
pub mod Startup
