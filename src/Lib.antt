-- ===== src/Lib.antt =====
-- omihomo: a daemon that owns a proxy engine, and the clients that command it over a socket.
--
-- The parts and how they interact. A client's request reaches a handler of the daemon
-- (internal/daemon), which changes the owner's settings, the subscriptions or the state of the proxy,
-- writes them to the state directory (internal/state), gives the engine (internal/core) a new config,
-- and pushes what changed to every session that subscribed to it. A loop of the daemon refreshes the
-- subscriptions and restores the proxy after a restart.
--
-- The files:
--   Base, Base/*          tests, lists and texts that the modules share
--   Protocol              internal/protocol: the settings, the rules and the errors
--   Engine                internal/core: the config, the interface `Core` and its promises
--   Fake, Fake/*          internal/core/fakecore: the in-memory engine, an instance of `Engine`
--   Mihomo, Mihomo/*      internal/core/mihomo/core.go: Apply, restore, Check and Stop; `Documented` is what
--                         they rely on of mihomo
--   Mihomo/Rules, /*      internal/core/mihomo/rules.go and build.go: `checkRuleRegex`, `ruleLine`,
--                         `withOmihomoRules`
--   Mihomo/Groups         internal/core/mihomo/build.go: `primaryGroup`, `checkGroupNumbers`
--   Profile/Rules         internal/profile/rules.go: `ParseRule`
--   Profile/Reader, Names, Filter, GroupOptions, Groups, Proxies, RuleSets
--                         internal/profile/profile.go: what `Build` reads and calls, and its parts
--   Profile/Build, /*     internal/profile/profile.go: `Downloads` and `Build`
--   Fetch/*               internal/fetch: `CheckURL`, `get`, `readBody`, `scrub`, the routed connection
--   Uplink/*              internal/uplink: `CheckDownloadAddress`, `Recoverable`, `DialContext` and what
--                         they call
--   Cli/Entries, Rules    internal/cli/rules.go: the commands that change the rules
--   Cli/Cutover, /*       internal/cli/cutover.go: `run`, the steps that take it back, and what it calls
--   Migration/*           internal/migration/import.go: the directories of an import, the old files,
--                         `requestState`, `readSettings`, `snapshot`
--   Update/*              internal/update: update.go and http.go, the check for a release and `Apply`
--   Daemon/State          internal/daemon/daemon.go (`server`), internal/state
--   Daemon/Compile, /*    internal/daemon/settings.go: `compileRules`, `runConfig`, `rules`
--   Daemon/Publish        `status`, `snapshot`, `publishLocked`, `sendLine`
--   Daemon/Geodata, /*    internal/daemon/downloads.go, `ensureGeodata`, `refreshGeodata`
--   Daemon/Check, /*      internal/daemon/rules.go, `checkSettings`
--   Daemon/Run, /*        `startLocked`, `stop`, `reapply`, `rollback`, `acceptContent`
--   Daemon/Commit, /*     `commitSettings`, `apply`
--   Daemon/Subscriptions, /*  internal/daemon/subscriptions.go
--   Daemon/Sessions, /*   `subscribe`, `tick`, the queues of the sessions
--   Daemon/Calls          `selectProxy`, `testDelay`, `closeConnections`, `decideDownload`
--   Daemon/Agrees         the relation between the daemon's record and the engine
--   Daemon/Steps, /*      the daemon as a state machine, and its invariant
--   Daemon/Results        the outcomes of the calls that change the proxy
--   Tests, Tests/*        the theorems at concrete values
--
-- How the code is modelled. `Server e o` is the `server` struct with the engine `e` and the world
-- outside `o` as parts of its state. A handler is a function from a server to its error, or none, and
-- the server afterwards. `Engine` is any `core.Core`: its operations are arguments, and `Contract` has
-- what the comment on `Core` promises. `Outside` has what the daemon calls of the operating system, the
-- network and internal/profile: the clock, the state files, which may refuse a write, `fetcher.Get`,
-- the reading of a subscription, JSON. `NoFalseStop` says that none of its errors is `core.ErrStopped`.
-- The mutexes are not modelled: a call that holds `opMu` is one step, and a refresh, which downloads
-- before it takes the lock, ends in a step of its own for any download, and so does a geodata update. The wait of `getDownload` is
-- one step with the answer of the owner. Logging is left out. Instants are nanoseconds and durations
-- too, as natural numbers; the records hold milliseconds and seconds, as the source does. A text is a
-- sequence of code points.
--
-- `Profile` and `Mihomo/Rules` meet in a rule line: the first reads what the second writes, and what
-- mihomo reads. `Build` takes a `Reader`: YAML, regular expressions, `strconv` and the `Proxy` of
-- proxy.go. A match that has no answer stands for the end of the time that all filters share; the model
-- gives the same question the same answer. What `Build` drops is not logged. A map is a list of pairs.
-- `Update` stands apart from the daemon: a tool of its own, whose `World` holds net/http,
-- ed25519, SHA-256, the private file and pacman. Its errors are those of `Engine`.
--
-- `Uplink` is what a download uses past the proxy: its `Net` has the sockets, the DNS messages, the
-- context and the discovery of links, and its addresses are numbers. A command of `Cli` changes a copy of the
-- owner's settings and rules, which `apply` of the daemon then takes. A
-- cutover is a sequence of steps on files, which are a function of their names; a step that changes them
-- pushes an `Undo`, which is a value here and a closure in the source. Each call outside may fail.
--
-- Fuel: `check_regex` runs on one more unit of fuel than the text has characters, since a condition is
-- shorter than the expression around it, and its answer tells the end of the fuel from no error;
-- `uniqueName` on one more than there are subscriptions, one for each name that may be taken and one for
-- the free one; `unique` likewise on the names of a profile;
-- `decimal` on one more than the number.
--
-- Not modelled: how a claim writes the owner and the drop-in of the socket (what it leaves there is a
-- result of `Machine.claim`), `Prepare`, the decoding of requests and the socket loops, `egress`, which
-- asks the network through the engine, the YAML of subscriptions and the fields of a proxy
-- (internal/profile), the options of HTTP transports, the config in mihomo's own types, the rest of the
-- command line and the other tools: they are I/O, stand on third-party packages, or, like `Prepare`, are
-- left out.
pub mod Base
pub mod Protocol
pub mod Engine
pub mod Daemon
pub mod Fake
pub mod Mihomo
mod Tests
pub mod Profile
pub mod Update
pub mod Uplink
pub mod Fetch
pub mod Cli
pub mod Migration
