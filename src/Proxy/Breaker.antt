-- ===== src/Proxy/Breaker.antt =====
-- internal/proxy/breaker.go, and `isNetworkError` of internal/proxy/upstream.go: which failures
-- count against a provider.
use ai_proxy_pool.Base.{◌≡◌, Bool, true, false, ◌||◌, Option, none, some, arith, if◌then◌else◌}
use ai_proxy_pool.Base.Int.{ℤ, pos}
use ai_proxy_pool.Base.Word.{leb_ℤ, eq_ℤ}

-- An error, by what `errors.As` and `errors.Is` find in its chain.
pub record GoError : Type 0 where
  -- a net.Error
  pub as_net : Bool
  -- a *url.Error
  pub as_url : Bool
  -- syscall.ECONNREFUSED or syscall.ECONNRESET
  pub is_refused_or_reset : Bool
  -- a responseWriteError
  pub as_write : Bool

-- An error with none of these in its chain, as `fmt.Errorf` without `%w` makes it.
abbrev pub plain_error : GoError
plain_error = record {
  as_net = false;
  as_url = false;
  is_refused_or_reset = false;
  as_write = false;
}

abbrev network_failure : Option GoError → Bool
network_failure none = false
network_failure (some e) =
    if e.as_net then true else if e.as_url then true else e.is_refused_or_reset

unfoldable pub is_provider_fatal_error : ℤ → Option GoError → Bool
unfolding leb_ℤ eq_ℤ
is_provider_fatal_error status_code error =
    if network_failure error
    then true
    else if leb_ℤ (pos 500) status_code
    then true
    else if eq_ℤ status_code (pos 401) || eq_ℤ status_code (pos 403) || eq_ℤ status_code (pos 429)
    then true
    else false

unfoldable pub is_network_error : Option GoError → Bool
is_network_error none = false
is_network_error (some e) = if e.as_net then true else if e.as_url then true else false

-- Every network error counts against the provider, whatever the status.
pub is_network_error-fatal :
    (status_code : ℤ) (e : Option GoError)
    → is_network_error e ≡ true
    → is_provider_fatal_error status_code e ≡ true
unfolding is_network_error is_provider_fatal_error
is_network_error-fatal status_code none h = cc
is_network_error-fatal status_code (some e) h = ground arith
