-- ===== src/Lib.antt =====
-- ai-proxy-pool: an HTTP proxy in front of a pool of Claude-compatible providers. This library models
-- the program's own logic as functions and proves what they do.
--
-- The parts of the program, and where they are modelled:
-- - internal/config/config.go: the configuration, in Config.antt. A duration is its number of
--   nanoseconds, a pointer to a flag an Option. Config/Validate.antt has the defaults, the expansion
--   of the environment and the checks; the YAML text is not modelled.
-- - internal/router/router.go: which provider a request goes to. Router.antt has the selector and
--   `Select`, Router/Build.antt `NewSelector`. Invariant, Candidates, Select and Count under Router/
--   are about every selection, Weights and Fair about the two strategies.
-- - internal/proxy/stats.go: the sliding window of health samples, in Stats/Window.antt, and the
--   counters of the providers, in Stats/Provider.antt, a store by name. A section under a mutex
--   or an atomic operation is one step. internal/proxy/stats_persist.go is in Stats/Persist.antt.
-- - internal/proxy/auth.go, breaker.go and model.go: Auth, Breaker and Model under Proxy/.
-- - internal/proxy/handler.go: `handleProxy`, in Proxy/Handler.antt, over the state that
--   Proxy/World.antt describes: the counters, the selector and the response. The handler asks the
--   selector for a provider, counts the attempt, calls the upstream, scores the attempt in the
--   provider's window, and answers, tries again or gives up. The upstream call is an argument, with
--   laws that the lemmas under Proxy/Handler ask of it.
-- - internal/proxy/upstream.go: the request to a provider, in Proxy/Forward.antt, and
--   `doUpstreamRequest`, in Proxy/Upstream.antt. It fills those laws, and Proxy/Serve.antt puts the
--   two together.
-- - the rest of internal/proxy/handler.go, `NewServerWithStats`, the routes and the middleware, and the
--   endpoints of stats_handler.go: Proxy/Server.antt. internal/proxy/reloadable.go, and the start, the
--   reload and the writes of the statistics in cmd/ai-proxy-pool/run.go and reload.go, as steps of a
--   daemon: Proxy/Daemon.antt, with its theorems in Daemon/Sound and Daemon/Routed. Server/Private
--   is about who gets at the endpoints, and Server/Loopback about the address of a request.
-- - internal/proxy/translate.go: the choice of the translator for a provider, in Proxy/Translate.antt,
--   which fills the interface Translation of the upstream request, and the tokens that an answer
--   counts, in Proxy/Translate/Usage.antt.
-- - internal/translator/registry.go and types.go: the table of translators, in
--   Translator/Registry.antt.
-- - internal/translator/codex/claude: requests, in Request, Messages, Tools and Names under
--   Translator/, on the functions of request_utils.go in Values; complete answers, in Response, Usage
--   and Decoration; and streams. Translator/Events.antt has the handler of each event of Codex as a
--   function of the state, which gives events for Claude, those of Translator/Claude.antt;
--   Translator/Sse.antt has their text, and Translator/Stream.antt the loop over the lines of the
--   provider's answer. Events/Numbered, First and Protocol are about sequences of events, Events/Tools
--   about the name of a tool in them, and Refines, Completes and Counted under Stream/ about the loop.
--
-- Base/ holds what the parts share: the integers of Go with their wrap-around (Int, Word), strings
-- as lists of bytes (Text), maps as association lists (Dict), http.Header (Header), errors as values
-- (Result), the functions of strconv (Number) and of strings (Text, Lines), and lemmas on lists and
-- tests.
--
-- Parameters stand for the code that is not in the repository: the regular expression engine
-- (Base/Regexp.antt), the processor's floating point (Base/Float.antt), JSON text (Base/Json.antt),
-- the random numbers, net/url (Base/Url.antt), and beside each attempt the clock, whether the client
-- has gone, the provider's answer, how much of each text reaches the client, and how much of a
-- stream has been read when its translation stops before the end. JSON values are data, and an
-- object has each of its keys once.
--
-- Bounds: the loop of attempts runs on the number of attempts left, which is the configured
-- maximum, so no fuel is needed. The loop that looks for an unused name of a tool has no bound of its
-- own; it runs on fuel, one round more than there are used names. Counters wrap round at 2^63, the
-- round robin counter at 2^64.
--
-- Not modelled: logs and metrics, the texts of the answers, files, and the JSON text of the
-- statistics. A request runs from its start to its end with no other beside it. Lower case is that
-- of ASCII. The clock that decides which circuits are open is read once. The end of a stream is
-- reported by a read of its own, and the index of a block does not reach 2^63. The texts of the
-- errors of the translators are left out. Of the command line only the daemon's own steps are
-- modelled: no process, signal, terminal or file watcher. The mux of net/http is asked for clean paths.
pub mod Base
pub mod Config
pub mod Router
pub mod Stats
pub mod Translator
pub mod Proxy
