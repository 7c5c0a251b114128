-- ===== src/Proxy/Handler/Worlds.antt =====
-- The world that a round of `handleProxy` ends in.
use ai_proxy_pool.Base.{ℕ, ◌≡◌, arith, List}
use ai_proxy_pool.Base.Int.{ℤ}
use ai_proxy_pool.Base.Float.{Float}
use ai_proxy_pool.Base.Regexp.{Regexp}
use ai_proxy_pool.Base.Text.{Bytes}
use ai_proxy_pool.Config.{Config}
use ai_proxy_pool.Proxy.Breaker.{GoError}
use ai_proxy_pool.Proxy.World.{World, Attempt}
use ai_proxy_pool.Proxy.Handler.{Upstream, Next, returned, broken, again, after_error}

abbrev pub world_of : Next → World
world_of (returned w) = w
world_of (broken st) = st.world
world_of (again st) = st.world

pub after_error-world :
    (fl : Float) (re : Regexp) (cfg : Config) (upstream : Upstream) (env : Attempt)
    (attempt max : ℕ) (name : Bytes) (status_code : ℤ) (e : GoError) (w : World)
    (excluded : List Bytes)
    → world_of (after_error fl re cfg upstream env attempt max name status_code e w excluded) ≡ w
unfolding after_error
after_error-world fl re cfg upstream env attempt max name status_code e w excluded = ground arith
