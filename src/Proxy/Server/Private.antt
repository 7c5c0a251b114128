-- ===== src/Proxy/Server/Private.antt =====
-- The statistics endpoints are for the machine itself.
use ai_proxy_pool.Base.{◌≡◌, ◌⊎◌, true, false, [], ◌∷◌, some}
use ai_proxy_pool.Base.Int.{ℤ, pos}
use ai_proxy_pool.Base.Float.{Float}
use ai_proxy_pool.Base.Regexp.{Regexp}
use ai_proxy_pool.Base.Text.{Bytes, codes, str_eq}
use ai_proxy_pool.Stats.Provider.{stats_of}
use ai_proxy_pool.Stats.Reset.{IsCleared}
use ai_proxy_pool.Proxy.World.{Request, Response, Message, json, forbidden, method_not_allowed}
use ai_proxy_pool.Proxy.Server.{Server, status, status_reset, route_of}

-- A refusal: its status and all of its body.
abbrev IsRefusal : Response → ℤ → Message → Type 0
IsRefusal resp code m = (resp.status ≡ some code) × (resp.body ≡ json m ∷ [])

-- What a request for the statistics comes to that the machine itself sends: a report that changes
-- nothing, or, for a POST, a reset of all counters that leaves the rest of the server.
abbrev pub IsServed : Request → Server → Server → Response → Type 0
IsServed r s s' resp =
    ((route_of r.path ≡ status) × (s' ≡ s) × (resp.status ≡ some (pos 200)))
    ⊎ (((route_of r.path ≡ status_reset)
          × (str_eq r.method (codes "POST") ≡ true)
          × (s' ≡ record s { stats = s'.stats })
          × ((name : Bytes) → IsCleared (stats_of s'.stats name))
          × (resp.status ≡ some (pos 200)))
        ⊎ ((route_of r.path ≡ status_reset)
            × (str_eq r.method (codes "POST") ≡ false)
            × (s' ≡ s)
            × IsRefusal resp (pos 405) method_not_allowed))

-- What it comes to otherwise: it changes nothing and gets nothing but a refusal.
abbrev pub IsRefused : Server → Server → Response → Type 0
IsRefused s s' resp =
    (s' ≡ s) × (IsRefusal resp (pos 403) forbidden ⊎ IsRefusal resp (pos 405) method_not_allowed)
