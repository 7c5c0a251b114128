-- ===== src/Proxy/Server/Loopback.antt =====
-- The address from which a request comes, as `isLoopbackRequest` of internal/proxy/stats_handler.go
-- finds it.
use ai_proxy_pool.Base.{
  ℕ, ◌≡◌, refl, ap, ◌∙◌, Bool, true, false, ◌||◌, [], ◌∷◌, ◌++◌, none, some, ◌==◌, All, All-append,
  All-map, arith,
}
use mathlib.Core.List.{reverse, reverse-cons, reverse-append, reverse-reverse}
use ai_proxy_pool.Base.Text.{Bytes}
use ai_proxy_pool.Base.Lines.{trim_left, trim_right}
use ai_proxy_pool.Base.Url.{Net}
use ai_proxy_pool.Proxy.Server.{is_loopback_request}

-- An address without brackets.
abbrev pub IsBare : Bytes → Type 0
IsBare ip = All (λ c. ((c == b'[') ≡ false) × ((c == b']') ≡ false)) ip

-- The remote address of a request, and the address without a port and brackets that it holds.
pub data ComesFrom (net : Net) : Bytes → Bytes → Type 0 where
  with_port : {addr ip : Bytes} → net.split_host addr ≡ some ip → IsBare ip → ComesFrom net addr ip
  without_port : {ip : Bytes} → net.split_host ip ≡ none → IsBare ip → ComesFrom net ip ip
  in_brackets :
      {ip : Bytes}
      → net.split_host (b'[' ∷ ip ++ b']' ∷ []) ≡ none
      → IsBare ip
      → ComesFrom net (b'[' ∷ ip ++ b']' ∷ []) ip

trim_left_none : (test : ℕ → Bool) (s : Bytes) → All (λ c. test c ≡ false) s → trim_left test s ≡ s
unfolding trim_left
trim_left_none test [] h = refl
trim_left_none test (c ∷ s) (h, _) = rw h refl

All-reverse : (P : ℕ → Type 0) (s : Bytes) → All P s → All P (reverse s)
All-reverse P [] h = tt
All-reverse P (c ∷ s) (h, hs) =
    rw reverse-cons (All-append P (reverse s) (c ∷ []) (All-reverse P s hs) (h, tt))

trim_right_none :
    (test : ℕ → Bool) (s : Bytes) → All (λ c. test c ≡ false) s → trim_right test s ≡ s
unfolding trim_right
trim_right_none test s h =
    ap reverse (trim_left_none test (reverse s) (All-reverse _ s h)) ∙ reverse-reverse s

trim_right_last :
    (test : ℕ → Bool) (s : Bytes) (c : ℕ)
    → test c ≡ true
    → trim_right test (s ++ c ∷ []) ≡ trim_right test s
unfolding trim_right trim_left
trim_right_last test s c h = rw (reverse-append, h) refl

bare-All : (ip : Bytes) → IsBare ip → All (λ c. (c == b'[' || c == b']') ≡ false) ip
bare-All ip h = All-map _ ip (λ c e. ground (arith, e)) h

abbrev without_brackets : Bytes → Bytes
without_brackets s =
    trim_right (λ c. c == b'[' || c == b']') (trim_left (λ c. c == b'[' || c == b']') s)

-- The brackets go, and nothing else.
trim_brackets : (ip : Bytes) → IsBare ip → without_brackets (b'[' ∷ ip ++ b']' ∷ []) ≡ ip
unfolding trim_left trim_right
trim_brackets [] h = refl
trim_brackets (c ∷ ip) h =
    let test : ℕ → Bool = λ c. c == b'[' || c == b']' in
    let bare = bare-All (c ∷ ip) h in
    rw (bare.0) (trim_right_last test (c ∷ ip) b']' refl ∙ trim_right_none test (c ∷ ip) bare)

trim_bare : (ip : Bytes) → IsBare ip → without_brackets ip ≡ ip
trim_bare ip h =
    let bare = bare-All ip h in
    ap (trim_right (λ c. c == b'[' || c == b']')) (trim_left_none _ ip bare)
    ∙ trim_right_none _ ip bare

is_loopback_request_host :
    (net : Net) (addr : Bytes) {host : Bytes}
    → net.split_host addr ≡ some host
    → is_loopback_request net addr ≡ net.is_loopback_ip (without_brackets host)
unfolding is_loopback_request
is_loopback_request_host net addr split = rw (is_loopback_request, split) refl

is_loopback_request_alone :
    (net : Net) (addr : Bytes)
    → net.split_host addr ≡ none
    → is_loopback_request net addr ≡ net.is_loopback_ip (without_brackets addr)
unfolding is_loopback_request
is_loopback_request_alone net addr split = rw (is_loopback_request, split) refl

-- The request is taken for one of the machine itself where the address it comes from is.
pub is_loopback_request-ComesFrom :
    (net : Net) {addr : Bytes} {ip : Bytes}
    → ComesFrom net addr ip
    → is_loopback_request net addr ≡ net.is_loopback_ip ip
is_loopback_request-ComesFrom net {addr} {ip} (with_port split bare) =
    is_loopback_request_host net addr split ∙ ap net.is_loopback_ip (trim_bare ip bare)
is_loopback_request-ComesFrom net {addr} (without_port split bare) =
    is_loopback_request_alone net addr split ∙ ap net.is_loopback_ip (trim_bare addr bare)
is_loopback_request-ComesFrom net {ip = ip} (in_brackets split bare) =
    is_loopback_request_alone net (b'[' ∷ ip ++ b']' ∷ []) split
    ∙ ap net.is_loopback_ip (trim_brackets ip bare)
