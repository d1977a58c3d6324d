-- ===== src/Lib.antt =====
-- Verification library of Locksmith.
--
-- Locksmith is a daemon that hands out secrets to AI agents and tools. An agent starts a session and
-- asks for keys; the daemon fetches them from vault plugins, which are processes of their own, and
-- caches them in memory until the session ends or expires, when they are wiped. The modules below
-- follow the packages of the repository, and each opens with the file that it models.
--
-- * Session models internal/session/session.go, the store of sessions. Its state is `Store`: the map of
--   sessions and a heap of byte slices. A cached secret is the address of a slice, since the daemon
--   shares slices with the responses that it sends, and wiping happens in place. The methods `NewStore`,
--   `Create`, `Get`, `Delete`, `CacheSecret`, `GetCachedSecret`, `List` and `Cleanup` are `new_store`,
--   `create`, `get`, `delete_session`, `cache_secret`, `get_cached_secret`, `list_sessions` and
--   `cleanup`. A `Call` is one of those that change the store, and `run` takes a list of them in the
--   order in which they get the mutex. `Get` has two critical sections, `get_read` and `get_expire`.
-- * Masking models sdk/session/session.go, and Semver models internal/semver/semver.go.
-- * Plugin.Compat models internal/plugin/compat.go. Plugin.Manager and Plugin.Discovery model
--   internal/plugin/manager.go: the manager's map of running plugins, and the set of processes that are
--   alive. A launcher is a parameter that says how far the connection to a binary gets.
-- * Config models internal/config/config.go, from the decoded YAML on.
-- * Daemon.Server and Daemon.Vaults model internal/daemon/server.go: the handlers, over the session store,
--   the configuration and the plugin manager. What a vault answers is a parameter. A handler runs as one
--   step; Daemon.Server.Traffic is a sequence of them, with cleanups.
-- * Daemon.Plugins and Daemon.Lifecycle model internal/daemon/daemon.go: loading and syncing plugins,
--   and start, reload, stop and the signal loop. Daemon.Watcher models the file watcher there, as a step
--   relation of its own: the goroutines for it and for cleanups are not part of a run of the signal loop.
-- * Pinentry models internal/pinentry/assuan.go, the protocol that gpg-agent speaks.
-- * Mcp.Secrets models internal/mcp/secrets.go: references, templates and the fetcher that renews an
--   expired session. What the daemon answers is a parameter that passes a world along.
-- * Mcp.Events models parseSSE of internal/mcp/transport.go, and Mcp.Transport with its children Http, Sse
--   and Auto the three transports of transport_http.go and transport_sse.go. The HTTP client and the
--   resolver of the authentication headers are parameters; Mcp.Transport.Logged puts a log round them.
-- * Mcp.Proxy models internal/mcp/proxy.go: the loop over stdin, in Mcp.Proxy.Forwarding, as a step
--   relation, the goroutine that writes the server's messages, and in Mcp.Proxy.Running the whole of
--   `RunProxy`, over the transports as Mcp.Transport.Choice puts them behind one interface. The request for
--   the stream of notifications, which a goroutine makes, goes out before any one of the messages or
--   before the end, and is then taken as a whole.
-- * Bundled models internal/bundled/extract.go, which writes the bundled binaries: a map of files, and the
--   failures of the operating system as a parameter.
-- * Initflow.Hooks, Initflow.Sandbox and Initflow.Gpg model internal/initflow/hooks.go, sandbox.go and
--   gpg.go: the settings of an agent as JSON, and gpg-agent.conf as text. Initflow.Agents models agents.go
--   and detect.go, with the texts of internal/initflow/templates in Initflow.Templates, and
--   Initflow.Shell models internal/shellhook/shellhook.go.
-- * Initflow.Flow models `RunInit` of internal/initflow/flow.go: Initflow.Flow.Planning is what it asks, over
--   a record of the prompter's answers, Initflow.Flow.Applying what it writes, by the installers above,
--   and Initflow.Flow.Running joins them.
-- * Common has what they share: texts as lists of bytes, association lists for Go maps, integers,
--   splitting, paths and results. Tests has runs at concrete inputs.
--
-- A Go map is an association list in the order in which a loop happens to walk it; the theorems hold
-- for every order. Numbers that Go keeps in an int are bounded where the code can reach the bound: the
-- parts of a version, for which strconv.Atoi is written out with its range check. Times and durations
-- are integers of nanoseconds without wrap-around. strings.ToUpper, ToLower, TrimSpace and Fields are
-- those of ASCII text. Recursion is structural, but for the loop of `ResolveTemplate`, which has fuel for
-- one round more than the template has characters; a round takes off at least two. Errors are values
-- of a data type per package, with what the message prints.
--
-- Not modelled: gRPC and protobuf transport, YAML decoding, logging, the operating system's processes
-- and sockets beyond what a call returns, time.ParseDuration, net/url, the terminal forms of the wizard, and the command line.
pub mod Common
pub mod Session
pub mod Masking
pub mod Semver
pub mod Plugin
pub mod Config
pub mod Daemon
pub mod Pinentry
pub mod Mcp
pub mod Bundled
pub mod Initflow
pub mod Tests
