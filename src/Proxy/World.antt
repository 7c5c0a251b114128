-- ===== src/Proxy/World.antt =====
-- What one request changes: the counters, the selector's round robin counter and the response; and
-- what it reads: the request, and the clock and the client beside each attempt.
use ai_proxy_pool.Base.{ℕ, Bool, List, [], ◌∷◌, ◌++◌, Option, none, some}
use ai_proxy_pool.Base.Int.{ℤ, pos}
use ai_proxy_pool.Base.Text.{Bytes, codes}
use ai_proxy_pool.Base.Header
use ai_proxy_pool.Base.Header.{Header}
use ai_proxy_pool.Router.{Selector, RouterError}
use ai_proxy_pool.Stats.Provider.{GlobalStats, ProviderStatView}
use ai_proxy_pool.Proxy.Breaker.{GoError}

pub record Request : Type 0 where
  pub method : Bytes
  pub path : Bytes
  pub raw_query : Bytes
  pub header : Header
  pub host : Bytes
  pub url_host : Bytes
  pub remote_addr : Bytes
  pub is_tls : Bool
  -- the bytes that the client sends, and whether reading breaks off behind them
  pub body : Bytes
  pub body_broken : Bool

-- The payload of an answer that the proxy gives itself, without its text.
pub data Message : Type 0 where
  unauthorized : Message
  body_too_large : ℤ → Message
  read_body_failed : Message
  all_exhausted : GoError → Message
  selection_failed : RouterError → Message
  failed_after : ℕ → Option GoError → Message
  status_ok : Message
  forbidden : Message
  method_not_allowed : Message

pub data Chunk : Type 0 where
  json : Message → Chunk
  -- the number of providers, the strategy, and the counters
  report : ℕ → Bytes → List (Bytes × ProviderStatView) → Chunk
  raw : Bytes → Chunk

-- An `http.ResponseWriter`: the header map, the status once it is written, and the body.
pub record Response : Type 0 where
  pub header : Header
  pub status : Option ℤ
  pub body : List Chunk

-- w.WriteHeader(code); only the first call counts.
abbrev pub first_status : Option ℤ → ℤ → Option ℤ
first_status none code = some code
first_status (some c) code = some c

unfoldable pub write_header : ℤ → Response → Response
write_header code w = record w { status = first_status w.status code }

-- w.Write; it writes the status 200 if none is written.
unfoldable pub write : Chunk → Response → Response
unfolding write_header
write chunk w = let w' = write_header (pos 200) w in record w' { body = w'.body ++ chunk ∷ [] }

unfoldable pub write_json : ℤ → Message → Response → Response
unfolding write_header write
write_json code payload w = write (json payload) (
    write_header code
      (record w { header = Header.set w.header (codes "Content-Type") (codes "application/json") }))

pub record World : Type 0 where
  pub stats : GlobalStats
  pub selector : Selector
  pub response : Response

abbrev pub respond : (Response → Response) → World → World
respond f w = record w { response = f w.response }

abbrev pub count : (GlobalStats → GlobalStats) → World → World
count f w = record w { stats = f w.stats }

-- What an attempt meets: how long the upstream takes, the time behind it (both in nanoseconds), the
-- random numbers, and whether the client has gone.
pub record Attempt : Type 0 where
  pub duration : ℤ
  pub now : ℤ
  pub draw : ℕ → ℕ
  pub client_gone : Bool
