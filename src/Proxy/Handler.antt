-- ===== src/Proxy/Handler.antt =====
-- `handleProxy` of internal/proxy/handler.go: the check of the request, the loop of attempts, and
-- the counters and the circuit breaker around each attempt. The upstream call is an interface,
-- `Upstream`. Logs and metrics are left out.
pub mod Counters
pub mod Balance
pub mod Selectors
pub mod Worlds
pub mod Rounds
pub mod Circuits
pub mod Tries
pub mod Answers
use ai_proxy_pool.Base.{
  ℕ, zero, suc, ◌+◌, ◌-◌, ◌≤◌, ◌<◌, ◌≡◌, refl, Bool, true, false, not, ◌&&◌, ◌||◌, List, [], ◌∷◌,
  ◌++◌, Option, none, some, ltb, leb, if◌then◌else◌, length,
}
use ai_proxy_pool.Base.Int.{ℤ, pos, negsuc, ◌+ℤ◌, ltb_ℤ, pos_part}
use ai_proxy_pool.Base.Word.{int64, int32, leb_ℤ, quot}
use ai_proxy_pool.Base.Float.{Float}
use ai_proxy_pool.Base.Text.{Bytes, codes, equal_fold}
use ai_proxy_pool.Base.Header
use ai_proxy_pool.Base.Regexp.{Regexp}
use ai_proxy_pool.Base.Json.{Codec}
use ai_proxy_pool.Base.Result.{Result, ok, err}
use ai_proxy_pool.Config.{
  Config, ProviderConfig, CircuitBreakerConfig, RetryConfig, retry_on_5xx_or_default,
  retry_on_network_or_default,
}
use ai_proxy_pool.Router.{Selector, SelectionInput, RouterError, select, is_empty}
use ai_proxy_pool.Stats.Window.{ProviderHealthWindow, Snapshot, record_sample, snapshot}
use ai_proxy_pool.Stats.Provider.{
  ProviderStats, GlobalStats, get_or_create, update, stats_of, ensure_health_window,
  reset_health_window,
}
use ai_proxy_pool.Proxy.Auth.{is_authorized}
use ai_proxy_pool.Proxy.Breaker.{GoError, is_provider_fatal_error, is_network_error}
use ai_proxy_pool.Proxy.World.{
  Request, Response, World, Attempt, Message, unauthorized, body_too_large, read_body_failed,
  all_exhausted, selection_failed, failed_after, write_json, respond, count,
}
use ai_proxy_pool.Proxy.Model.{extract_model}

-- What `doUpstreamRequest` returns.
pub record UpstreamResult : Type 0 where
  pub world : World
  pub status_code : ℤ
  pub error : Option GoError

-- `doUpstreamRequest`, at an attempt number and `maxAttempts`.
abbrev pub Upstream : Type 0
Upstream = World → ProviderConfig → ℕ → ℕ → UpstreamResult

-- Unix seconds of a time in nanoseconds.
unfoldable pub unix : ℤ → ℤ
unfolding quot
unix t = quot t (pos 1000000000)

-- Before the attempt.
unfoldable pub begin_attempt : CircuitBreakerConfig → ProviderStats → ProviderStats
begin_attempt cb ps =
    let ps' = ensure_health_window cb.window_size ps in
    record ps' { active_connections = int64 (ps'.active_connections +ℤ pos 1) }

-- Whether a snapshot opens the circuit.
unfoldable pub trips : Float → CircuitBreakerConfig → Snapshot → Bool
unfolding leb_ℤ
trips fl cb snap =
    snap.enough
    && ltb_ℤ (pos 0) cb.open_duration
    && (fl.le cb.failure_rate_threshold snap.failure_rate || leb_ℤ cb.latency_threshold snap.avg)

abbrev open_circuit : CircuitBreakerConfig → ℤ → ProviderStats → ProviderStats
open_circuit cb now ps =
    reset_health_window cb.window_size
      (record ps { circuit_open_until = unix (int64 (now +ℤ cb.open_duration)) })

-- The score of an attempt, where the provider has a window.
unfoldable pub score : Float → CircuitBreakerConfig → Attempt → Bool → ProviderStats → ProviderStats
unfolding record_sample snapshot trips reset_health_window unix
score fl cb env fatal ps = elim ps.health_window [
  | none ↦ ps
  | some w ↦
      let w' = record_sample w env.duration fatal in
      let ps' = record ps { health_window = some w' } in
      if trips fl cb (snapshot fl w' cb.min_samples) then open_circuit cb env.now ps' else ps'
]

-- Behind the attempt, up to the counter of consecutive errors.
unfoldable pub end_attempt :
    Float → CircuitBreakerConfig → Attempt → Bool → ProviderStats → ProviderStats
end_attempt fl cb env fatal ps =
    let left = record ps {
      active_connections = int64 (ps.active_connections +ℤ negsuc 0);
      total_requests = int64 (ps.total_requests +ℤ pos 1);
    } in
    let scored = score fl cb env fatal left in
    if fatal
    then record scored { consecutive_errors = int32 (scored.consecutive_errors +ℤ pos 1) }
    else record scored { consecutive_errors = pos 0 }

unfoldable pub is_successful_upstream_status : ℤ → Bool
unfolding leb_ℤ
is_successful_upstream_status status_code =
    leb_ℤ (pos 200) status_code && ltb_ℤ status_code (pos 400)

abbrev add_success : ProviderStats → ProviderStats
add_success ps = record ps { success_requests = int64 (ps.success_requests +ℤ pos 1) }

abbrev add_error : ProviderStats → ProviderStats
add_error ps = record ps { error_requests = int64 (ps.error_requests +ℤ pos 1) }

abbrev is_failure : Option GoError → Bool
is_failure none = false
is_failure (some _) = true

-- The attempt counts as a success or as an error.
unfoldable pub count_attempt : ℤ → Option GoError → ProviderStats → ProviderStats
unfolding is_successful_upstream_status
count_attempt status_code error ps =
    if is_failure error
    then add_error ps
    else if is_successful_upstream_status status_code
    then add_success ps
    else add_error ps

-- The local variables of the loop.
pub record LoopState : Type 0 where
  pub world : World
  pub excluded : List Bytes
  pub last_error : Option GoError

-- How one round ends: the handler returns, the loop breaks, or it goes on.
pub data Next : Type 0 where
  returned : World → Next
  broken : LoopState → Next
  again : LoopState → Next

-- To split on how a round ends and keep the equation.
pub data NextIs (n : Next) : Type 0 where
  ended : (w : World) → n ≡ returned w → NextIs n
  stopped : (st : LoopState) → n ≡ broken st → NextIs n
  next : (st : LoopState) → n ≡ again st → NextIs n

pub Next-cases : (n : Next) → NextIs n
Next-cases (returned w) = ended w refl
Next-cases (broken st) = stopped st refl
Next-cases (again st) = next st refl

unfoldable pub should_retry : RetryConfig → ℤ → GoError → Bool
unfolding retry_on_5xx_or_default retry_on_network_or_default leb_ℤ is_network_error
should_retry retry status_code e =
    if is_network_error (some e) && retry_on_network_or_default retry
    then true
    else if leb_ℤ (pos 500) status_code && retry_on_5xx_or_default retry
    then true
    else false

module _ (fl : Float) (re : Regexp) (cfg : Config) (upstream : Upstream) where
  -- Behind a failed attempt: what the rest of the round decides.
  unfoldable pub after_error : Attempt → ℕ → ℕ → Bytes → ℤ → GoError → World → List Bytes → Next
  after_error env attempt max name status_code e w excluded =
      let st : LoopState = record {
        world = w;
        excluded = excluded ++ name ∷ [];
        last_error = some e;
      } in
      if e.as_write
      then returned w
      else if env.client_gone
      then returned w
      else if not (should_retry cfg.server.retry status_code e) || leb max attempt
      then broken st
      else again st

  -- The counters of the provider behind an attempt.
  unfoldable pub settle : Attempt → Bytes → UpstreamResult → World
  settle env name r =
      let cb = cfg.server.circuit_breaker in
      let fatal = is_provider_fatal_error r.status_code r.error in
      count
        (update name (λ ps. count_attempt r.status_code r.error (end_attempt fl cb env fatal ps)))
        r.world

  -- The world in which the upstream is called.
  unfoldable pub enter : Bytes → World → World
  enter name w =
      count (λ g. update name (begin_attempt cfg.server.circuit_breaker) (get_or_create g name)) w

  -- A round whose selection succeeded.
  unfoldable pub try_provider : Attempt → ℕ → ℕ → ProviderConfig → LoopState → Next
  try_provider env attempt max selected st =
      let r = upstream (enter selected.name st.world) selected attempt max in
      let w = settle env selected.name r in
      elim r.error [
        | none ↦ returned w
        | some e ↦ after_error env attempt max selected.name r.status_code e w st.excluded
      ]

  abbrev selection_answer : Option GoError → RouterError → Message
  selection_answer none e = selection_failed e
  selection_answer (some last) e = all_exhausted last

  -- One round of the loop.
  unfoldable pub round : SelectionInput → Attempt → ℕ → ℕ → LoopState → Next
  round base env attempt max st =
      let input : SelectionInput = record base { excluded_providers = st.excluded } in
      let (selector, result) = select re st.world.selector env.draw input in
      let w = record (st.world) { selector = selector } in
      elim result [
        | err e ↦ returned (respond (write_json (pos 502) (selection_answer st.last_error e)) w)
        | ok selected ↦ try_provider env attempt max selected (record st { world = w })
      ]

  -- The answer behind the loop.
  unfoldable pub give_up : ℕ → LoopState → World
  give_up max st = respond (write_json (pos 502) (failed_after max st.last_error)) st.world

  -- The loop, with the number of rounds left, the number of this attempt and what each meets.
  unfoldable pub attempts : SelectionInput → (ℕ → Attempt) → ℕ → ℕ → ℕ → LoopState → World
  attempts base env zero attempt max st = give_up max st
  attempts base env (suc left) attempt max st = elim (round base (env attempt) attempt max st) [
    | returned w ↦ w
    | broken st' ↦ give_up max st'
    | again st' ↦ attempts base env left (suc attempt) max st'
  ]

-- `maxAttempts`
unfoldable pub max_attempts : RetryConfig → Bytes → ℕ
unfolding leb_ℤ
max_attempts retry forced =
    if not (is_empty forced)
    then 1
    else if leb_ℤ retry.max_attempts (pos 0)
    then 1
    else pos_part retry.max_attempts

-- The circuit of a provider is open at a time in Unix seconds.
unfoldable pub is_open : ℤ → ProviderStats → Bool
is_open now ps = ltb_ℤ (pos 0) ps.circuit_open_until && ltb_ℤ now ps.circuit_open_until

-- The names of the providers whose circuit is open. The clock is read once.
unfoldable pub open_circuits : ℤ → GlobalStats → List ProviderConfig → List Bytes
unfolding stats_of is_open
open_circuits now g [] = []
open_circuits now g (p ∷ ps) =
    if is_open now (stats_of g p.name)
    then p.name ∷ open_circuits now g ps
    else open_circuits now g ps

-- The same loop gives every provider its entry.
unfoldable pub create_all : GlobalStats → List ProviderConfig → GlobalStats
unfolding get_or_create
create_all g [] = g
create_all g (p ∷ ps) = create_all (get_or_create g p.name) ps

-- `readRequestBodyWithLimit`: the body, or an error that is a MaxBytesError or is not.
unfoldable pub read_request_body_with_limit : Request → ℤ → Result Bool Bytes
read_request_body_with_limit r max_bytes =
    if ltb_ℤ max_bytes (pos (length r.body))
    then err true
    else if r.body_broken
    then err false
    else ok r.body

-- The upstream call of a request, given its body and its model.
abbrev pub UpstreamOf : Type 0
UpstreamOf = Request → Bytes → Bytes → Upstream

module _ (fl : Float) (re : Regexp) (codec : Codec) (cfg : Config) (upstream : UpstreamOf) where
  -- Behind the reading of the body. The clock of the circuits is `start`.
  unfoldable pub proxy_body : ℤ → (ℕ → Attempt) → Request → Bytes → World → World
  proxy_body start env r body w =
      let model = extract_model codec body (Header.get r.header (codes "Content-Type")) in
      let forced = Header.get r.header cfg.router.header_provider_key in
      let max = max_attempts cfg.server.retry forced in
      let base : SelectionInput = record {
        path = r.path;
        model = model;
        forced_provider = forced;
        excluded_providers = [];
      } in
      attempts fl re cfg (upstream r body model) base env max 1 max (record {
        world = count (λ g. create_all g cfg.providers) w;
        excluded = open_circuits (unix start) w.stats cfg.providers;
        last_error = none;
      })

  unfoldable pub refuse_unauthorized : World → World
  refuse_unauthorized w =
      let challenge =
        Header.set w.response.header (codes "WWW-Authenticate")
          (codes "Bearer realm=\"ai-proxy-pool\"") in
      let resp = w.response in
      let w' =
        if equal_fold cfg.server.auth.scheme (codes "bearer")
        then record w { response = record resp { header = challenge } }
        else w in
      respond (write_json (pos 401) unauthorized) w'

  unfoldable pub handle_proxy : ℤ → (ℕ → Attempt) → Request → World → World
  handle_proxy start env r w =
      if not (is_authorized cfg.server.auth r.header)
      then refuse_unauthorized w
      else elim (read_request_body_with_limit r cfg.server.max_request_body_bytes) [
        | err true ↦
            respond (write_json (pos 413) (body_too_large cfg.server.max_request_body_bytes)) w
        | err false ↦ respond (write_json (pos 400) read_body_failed) w
        | ok body ↦ proxy_body start env r body w
      ]
