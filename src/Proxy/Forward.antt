-- ===== src/Proxy/Forward.antt =====
-- The request that goes to a provider: `buildUpstreamRequest` of internal/proxy/upstream.go and
-- what it calls.
use ai_proxy_pool.Base.{
  not, ◌&&◌, ◌||◌, List, [], ◌∷◌, ◌++◌, Option, none, some, ◌==◌, if◌then◌else◌,
}
use mathlib.Core.List.{reverse}
use ai_proxy_pool.Base.Text.{Bytes, codes, str_eq, has_prefix, to_lower}
use ai_proxy_pool.Base.Dict.{contains}
use ai_proxy_pool.Base.Header
use ai_proxy_pool.Base.Header.{Header}
use ai_proxy_pool.Base.Url.{Net}
use ai_proxy_pool.Config.{Config, ProviderConfig}
use ai_proxy_pool.Router.{is_empty}
use ai_proxy_pool.Proxy.World.{Request}

abbrev pub hop_by_hop_headers : List Bytes
hop_by_hop_headers =
    codes "Connection"
    ∷ codes "Proxy-Connection"
    ∷ codes "Keep-Alive"
    ∷ codes "Proxy-Authenticate"
    ∷ codes "Proxy-Authorization"
    ∷ codes "Te"
    ∷ codes "Trailer"
    ∷ codes "Transfer-Encoding"
    ∷ codes "Upgrade"
    ∷ []

unfoldable pub add_values : Bytes → List Bytes → Header → Header
unfolding Header.add
add_values key [] dst = dst
add_values key (value ∷ values) dst = add_values key values (Header.add dst key value)

unfoldable pub copy_request_headers : Header → Header → Header
unfolding add_values contains
copy_request_headers dst [] = dst
copy_request_headers dst ((key, values) ∷ src) =
    copy_request_headers
      (if contains key hop_by_hop_headers then dst else add_values key values dst) src

unfoldable pub copy_response_headers : Header → Header → Header
unfolding add_values contains Header.del
copy_response_headers dst [] = dst
copy_response_headers dst ((key, values) ∷ src) =
    copy_response_headers
      (if contains key hop_by_hop_headers then dst else add_values key values (Header.del dst key))
      src

unfoldable pub trim_left_slashes : Bytes → Bytes
trim_left_slashes [] = []
trim_left_slashes (c ∷ s) = let rest = trim_left_slashes s in if c == b'/' then rest else c ∷ s

-- strings.TrimRight(s, "/")
unfoldable pub trim_right_slashes : Bytes → Bytes
unfolding trim_left_slashes
trim_right_slashes s = reverse (trim_left_slashes (reverse s))

-- strings.Trim(s, "/")
unfoldable pub trim_slashes : Bytes → Bytes
unfolding trim_left_slashes trim_right_slashes
trim_slashes s = trim_right_slashes (trim_left_slashes s)

-- One part of the loop of `joinURLPath`.
unfoldable pub join_part : Bytes → Bytes → Bytes
unfolding trim_slashes trim_right_slashes
join_part out part =
    let trimmed = trim_slashes part in
    if is_empty part || is_empty trimmed
    then out
    else if is_empty out
    then b'/' ∷ trimmed
    else trim_right_slashes out ++ b'/' ∷ trimmed

unfoldable pub join_parts : Bytes → List Bytes → Bytes
unfolding join_part
join_parts out [] = out
join_parts out (part ∷ parts) = join_parts (join_part out part) parts

unfoldable pub join_url_path : List Bytes → Bytes
unfolding join_parts
join_url_path parts = let out = join_parts [] parts in if is_empty out then codes "/" else out

-- `buildUpstreamURL`, none for an error
unfoldable pub build_upstream_url : Net → ProviderConfig → Bytes → Bytes → Option Bytes
unfolding has_prefix join_url_path
build_upstream_url net provider in_path raw_query = elim (net.parse provider.base_url) [
  | none ↦ none
  | some base ↦
      let path_prefix =
        if not (is_empty provider.path_prefix) && has_prefix in_path provider.path_prefix
        then []
        else provider.path_prefix in
      let path = join_url_path (base.path ∷ path_prefix ∷ in_path ∷ []) in
      some (net.print (record base { path = path; raw_query = raw_query }))
]

unfoldable pub host_from_url : Net → Bytes → Bytes
host_from_url net raw_url = elim (net.parse raw_url) [ none ↦ [] | some parsed ↦ parsed.host ]

abbrev pub forwarded_for : Header → Bytes → Bytes
forwarded_for header ip =
    let prior = Header.get header (codes "X-Forwarded-For") in
    if is_empty prior then ip else prior ++ (codes ", " ++ ip)

abbrev add_forwarded_for : Header → Option Bytes → Header
add_forwarded_for header none = header
add_forwarded_for header (some ip) =
    Header.set header (codes "X-Forwarded-For") (forwarded_for header ip)

unfoldable pub add_forward_headers : Net → Request → Header → Header
unfolding Header.set Header.get
add_forward_headers net in_req header =
    let proto = if in_req.is_tls then codes "https" else codes "http" in
    let with_proto = Header.set header (codes "X-Forwarded-Proto") proto in
    let host = if is_empty in_req.host then in_req.url_host else in_req.host in
    let with_host =
      if is_empty host then with_proto else Header.set with_proto (codes "X-Forwarded-Host") host in
    add_forwarded_for with_host (net.split_host in_req.remote_addr)

-- The configured header, or the one that is usual.
abbrev header_or : Bytes → Bytes → Bytes
header_or name usual = if is_empty name then usual else name

unfoldable pub apply_provider_auth : ProviderConfig → Header → Header
unfolding Header.set str_eq to_lower
apply_provider_auth provider header =
    let auth_type = to_lower provider.auth_type in
    let bearer = Header.set header (codes "Authorization") (codes "Bearer " ++ provider.api_key) in
    if is_empty provider.api_key
    then header
    else if is_empty auth_type || str_eq auth_type (codes "x-api-key")
    then Header.set header (header_or provider.auth_header (codes "x-api-key")) provider.api_key
    else if str_eq auth_type (codes "bearer")
    then bearer
    else if str_eq auth_type (codes "auth_token") || str_eq auth_type (codes "auth-token")
    then Header.set bearer (codes "X-Api-Key") provider.api_key
    else if str_eq auth_type (codes "none")
    then header
    else Header.set header (header_or provider.auth_header (codes "Authorization")) provider.api_key

abbrev pub static_headers_of : Option (List (Bytes × Bytes)) → List (Bytes × Bytes)
static_headers_of none = []
static_headers_of (some headers) = headers

unfoldable pub set_all : List (Bytes × Bytes) → Header → Header
unfolding Header.set
set_all [] header = header
set_all ((k, v) ∷ headers) header = set_all headers (Header.set header k v)

-- `applyProviderStaticHeaders`, in the order in which the map lists its entries
unfoldable pub apply_provider_static_headers : ProviderConfig → Header → Header
unfolding set_all
apply_provider_static_headers provider header =
    set_all (static_headers_of provider.static_headers) header

pub record OutRequest : Type 0 where
  pub method : Bytes
  pub url : Bytes
  pub header : Header
  pub host : Bytes
  pub body : Bytes

-- The header of the request.
unfoldable pub upstream_header : Net → Config → Request → ProviderConfig → Header
unfolding copy_request_headers add_forward_headers apply_provider_auth apply_provider_static_headers
    Header.del
upstream_header net cfg in_req provider =
    let copied = copy_request_headers [] in_req.header in
    let clean = Header.del (Header.del copied (codes "Authorization")) (codes "X-Api-Key") in
    let forwarded = add_forward_headers net in_req clean in
    let own = apply_provider_static_headers provider (apply_provider_auth provider forwarded) in
    Header.del (Header.del own cfg.router.header_provider_key) (codes "Accept-Encoding")

-- `buildUpstreamRequest`, none where the URL does not parse. The URL and the method that it hands to
-- `http.NewRequestWithContext` are those of a parsed URL and of a request that was received.
unfoldable pub build_upstream_request :
    Net → Config → Request → Bytes → ProviderConfig → Bytes → Option OutRequest
unfolding build_upstream_url host_from_url upstream_header
build_upstream_request net cfg in_req body provider upstream_path =
    let own = if is_empty provider.upstream_path then in_req.path else provider.upstream_path in
    let target = if is_empty upstream_path then own else upstream_path in
    elim (build_upstream_url net provider target in_req.raw_query) [
      | none ↦ none
      | some url ↦ some (record {
        method = in_req.method;
        url = url;
        header = upstream_header net cfg in_req provider;
        host = host_from_url net provider.base_url;
        body = body;
      })
    ]
