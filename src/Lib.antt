-- ===== src/Lib.antt =====
-- Docflow core: boards with their columns and cards, documents, workspaces and their members,
-- accounts and sessions, invitations, the limit on requests, and the rooms of documents and boards.
--
-- docflow-core is the HTTP and WebSocket server of a collaborative board. A request passes the
-- middleware, which resolves the caller's roles from the database, then a handler, which binds
-- the body and calls a service; the service checks the roles and calls repositories, each method
-- of which is one SQL statement or one transaction.
--
--   Prelude     the names the other files share; tables as lists of rows (Prelude/Tables), what a
--               lookup finds in them (Prelude/Found), and ORDER BY (Prelude/Sorting)
--   Position    internal/utils/fractional.go: NeedsRebalance, Between, on float64 with its rounding
--               (Position/Float, its error in Position/Float/Error); Position/Rows has the MAX, MIN
--               and ORDER BY of positions
--   Model       internal/models and the errors of internal/services; Model/Store is the database,
--               the driver and the events sent to board rooms; Model/Views has the answers that show
--               a board
--   Exec        how a method runs: query and execute are calls of the driver, transaction is
--               Begin, Commit and the deferred Rollback, missing_as is the usual translation of
--               repositories.ErrNotFound; Exec/Reads, Exec/Ensures, Exec/Steps and
--               Exec/Answers are the program logic
--   Repo        internal/repositories: boards.go, columns.go, cards.go, documents.go, workspaces.go,
--               users.go, refresh_tokens.go and invitations.go, each in the file of its name; the
--               lists of boards.go and GetBoardDetail are in Repo/Boards/Lists and
--               Repo/Boards/Detail; the ON DELETE CASCADE clauses of migrations (Repo/Cascade)
--   Service     internal/services/boards.go: the access rules (Service/Access: ResolveBoardRole,
--               requireBoardRole, checkAccess) and BoardService (Service/Boards); its children
--               Request and Rights are the abstract specification, and Viewing has the methods that
--               show a board; services/columns.go and
--               services/cards.go (Service/Columns, Service/Cards), with the requests and the
--               specification of both in Service/Content; services/documents.go (Service/Documents:
--               the clock, the update log and snapshots); services/workspaces.go
--               (Service/Workspaces, specified in its child Rules); services/auth.go (Service/Auth)
--               and ValidatePassword of internal/utils/validator.go (Service/Passwords);
--               services/invitations.go (Service/Invitations)
--   Middleware  internal/middleware/board.go (Middleware/Board), workspace.go
--               (Middleware/Workspace), ratelimit.go (Middleware/RateLimit) and auth.go, with the
--               tokens of internal/utils/jwt.go (Middleware/Auth)
--   Handler     internal/handlers/boards.go and workspaces.go, with the binding tags of
--               internal/models/board.go and workspace.go; the checks of internal/handlers/ws.go
--               (Handler/Sockets)
--   Ws          internal/ws/room.go: Room as a state machine (Ws/Room), over the send channels of its
--               clients (Ws/Channel) with the capacity of 256 that NewClient gives them; BoardRoom of
--               internal/ws/hub.go (Ws/BoardRoom), on the same loops; the maps of Hub
--               (Ws/Hub), over any kind of room that has the laws of Ws/Hub/Laws
--   Tests       a small database on which the theorems are applied
--
-- A method is a function from the world to a result and the world after. Any call of the driver
-- may fail: World.outage says which, so that a theorem about all worlds is about all failures,
-- lost connections and violated constraints alike. The constraints that a theorem rests on are
-- written out as well: the unique indexes of document_updates, refresh_tokens and
-- workspace_invitations, the primary key of workspace_members, the range of an INTEGER. What was
-- committed before a failure stays. A request runs by itself; Handler/Boards/Stale looks at one
-- interleaving of two. All loops are structural recursion on lists. Only the scaling of Position/Float
-- counts steps, 1074 and 971, which are the exponents of the finest float64 and of the coarsest.
--
-- Identifiers, tokens and times are natural numbers; World.random stands for crypto/rand, and the
-- clock of the process is that of the database. The strings of roles, visibilities and states are
-- data types, by the CHECK constraints of migrations. A position is a non-negative float64: a
-- fraction, and every sum, difference and midpoint of positions is rounded to nearest even. Positions
-- are bounded by 2^39 where a theorem needs it: up to there a sum with 1000 is larger than the number,
-- and two positions that need no rebalancing have a float64 between them. The source has no such
-- bound, and far beyond it a sum with 1000 is the number itself. SHA-256, bcrypt, the JWT library, the
-- mail client and the functions of the packages strings and unicode are parameters, the fields of
-- Service.Auth.Crypto, Middleware.Auth.Jwt and Service.Invitations.Mail; the Authorization header
-- comes split. An event that a service broadcasts is appended to World.events; the
-- board rooms that would receive it are left out. In a document room a turn of Run is a step, Go's
-- panics are steps to none, and the order in which Go visits the clients of a room is that of a
-- list. Whether PersistUpdate stores an update comes with the event. The rate limiter counts tokens
-- in parts, so that its numbers are whole where the source has float64. The parsing of identifiers as
-- UUIDs, the JSON of answers, and the URL of a share link are left out.
--
-- Not modelled: the handlers and middleware of cards, columns, documents, accounts and invitations,
-- the WebSocket upgrade and the hub's Shutdown, whose signal to a room is an event of the room; mail,
-- configuration, startup and wiring, which are input and output.
pub mod Prelude
pub mod Position
pub mod Model
pub mod Exec
pub mod Repo
pub mod Service
pub mod Middleware
pub mod Handler
pub mod Ws
pub mod Tests
