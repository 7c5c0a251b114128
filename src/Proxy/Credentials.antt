-- ===== src/Proxy/Credentials.antt =====
-- What the request to a provider does not carry.
use ai_proxy_pool.Base.{
  ◌≡◌, refl, ◌∙◌, true, false, [], some, arith, if◌then◌else◌, Bool-cases, Option-cases, inl, inr,
}
use ai_proxy_pool.Base.Text.{Bytes, codes, str_eq, str_eq_refl}
use ai_proxy_pool.Base.Dict.{lookup-insert, lookup-delete}
use ai_proxy_pool.Base.Header
use ai_proxy_pool.Base.Header.{Header}
use ai_proxy_pool.Base.Url.{Net}
use ai_proxy_pool.Config.{Config, ProviderConfig}
use ai_proxy_pool.Router.{is_empty}
use ai_proxy_pool.Proxy.World.{Request}
use ai_proxy_pool.Proxy.Forward.{
  upstream_header, copy_request_headers, add_forward_headers, apply_provider_auth,
  apply_provider_static_headers, set_all,
}

module _ (h : Header) (key asked : Bytes) where
  get-del_self : Header.get (Header.del h key) key ≡ []
  unfolding Header.get Header.del
  get-del_self = rw (lookup-delete, str_eq_refl) refl

  -- A deletion keeps a header absent.
  get-del_absent : Header.get h asked ≡ [] → Header.get (Header.del h key) asked ≡ []
  unfolding Header.get Header.del
  get-del_absent e = rw lookup-delete (ground (arith, e))

  get-set_ne :
      (value : Bytes)
      → str_eq (Header.canonical key) (Header.canonical asked) ≡ false
      → Header.get (Header.set h key value) asked ≡ Header.get h asked
  unfolding Header.get Header.set
  get-set_ne value e = rw (lookup-insert, e) refl

  get-set_absent :
      (value : Bytes)
      → str_eq (Header.canonical key) (Header.canonical asked) ≡ false
      → Header.get h asked ≡ []
      → Header.get (Header.set h key value) asked ≡ []
  get-set_absent value e absent = get-set_ne value e ∙ absent

-- A header other than the three that `addForwardHeaders` sets.
record IsOther (asked : Bytes) : Type 0 where
  proto : str_eq (Header.canonical (codes "X-Forwarded-Proto")) (Header.canonical asked) ≡ false
  host : str_eq (Header.canonical (codes "X-Forwarded-Host")) (Header.canonical asked) ≡ false
  for_client : str_eq (Header.canonical (codes "X-Forwarded-For")) (Header.canonical asked) ≡ false

add_forward_headers-absent :
    (net : Net) (r : Request) (h : Header) (asked : Bytes)
    → IsOther asked
    → Header.get h asked ≡ []
    → Header.get (add_forward_headers net r h) asked ≡ []
unfolding add_forward_headers
add_forward_headers-absent net r h asked o absent =
    let host = if is_empty r.host then r.url_host else r.host in
    let proto = if r.is_tls then codes "https" else codes "http" in
    let with_proto = Header.set h (codes "X-Forwarded-Proto") proto in
    let no_proto = get-set_absent h (codes "X-Forwarded-Proto") asked proto o.proto absent in
    let no_host : Header.get
          (if is_empty host
            then with_proto
            else Header.set with_proto (codes "X-Forwarded-Host") host)
          asked
        ≡ [] =
      elim (Bool-cases (is_empty host)) [
        | inl none_given ↦ rw none_given no_proto
        | inr given ↦
            rw given
              (get-set_absent with_proto (codes "X-Forwarded-Host") asked host o.host no_proto)
      ] in
    elim (Option-cases (net.split_host r.remote_addr)) [
      | inl unknown ↦ rw unknown no_host
      | inr (ip, known) ↦
          rw known (get-set_absent _ (codes "X-Forwarded-For") asked _ o.for_client no_host)
    ]

module _ (net : Net) (cfg : Config) (r : Request) (provider : ProviderConfig) where
  own_absent :
      (asked : Bytes)
      → IsOther asked
      → is_empty provider.api_key ≡ true
      → provider.static_headers ≡ some []
      → Header.get
          (Header.del
            (Header.del (copy_request_headers [] r.header) (codes "Authorization"))
            (codes "X-Api-Key"))
          asked
        ≡ []
      → Header.get (upstream_header net cfg r provider) asked ≡ []
  unfolding upstream_header apply_provider_auth apply_provider_static_headers set_all
  own_absent asked o no_key no_static absent =
      rw (no_static, no_key)
        (get-del_absent _ (codes "Accept-Encoding") asked (
          get-del_absent _ cfg.router.header_provider_key asked
            (add_forward_headers-absent net r _ asked o absent)))

  -- The request to a provider that has neither a key nor static headers carries none of the client's
  -- credentials, in Authorization and in X-Api-Key, and neither the header that chooses a provider
  -- nor Accept-Encoding.
  pub upstream_header-drops :
      is_empty provider.api_key ≡ true
      → provider.static_headers ≡ some []
      → let header = upstream_header net cfg r provider in
        (Header.get header cfg.router.header_provider_key ≡ [])
        × (Header.get header (codes "Accept-Encoding") ≡ [])
        × (Header.get header (codes "Authorization") ≡ [])
        × (Header.get header (codes "X-Api-Key") ≡ [])
  unfolding upstream_header Header.canonical str_eq
  upstream_header-drops no_key no_static =
      let copied = copy_request_headers [] r.header in
      let half = Header.del copied (codes "Authorization") in
      let clean = Header.del half (codes "X-Api-Key") in
      let own =
        apply_provider_static_headers provider
          (apply_provider_auth provider (add_forward_headers net r clean)) in
      let routed = Header.del own cfg.router.header_provider_key in
      let no_client : IsOther (codes "Authorization") = record {
        proto = refl;
        host = refl;
        for_client = refl;
      } in
      let no_api : IsOther (codes "X-Api-Key") = record {
        proto = refl;
        host = refl;
        for_client = refl;
      } in
      (
        get-del_absent routed (codes "Accept-Encoding") cfg.router.header_provider_key
            (get-del_self own cfg.router.header_provider_key []),
        get-del_self routed (codes "Accept-Encoding") [],
        own_absent (codes "Authorization") no_client no_key no_static (
            get-del_absent half (codes "X-Api-Key") (codes "Authorization")
              (get-del_self copied (codes "Authorization") [])),
        own_absent (codes "X-Api-Key") no_api no_key no_static
            (get-del_self half (codes "X-Api-Key") []),
      )
