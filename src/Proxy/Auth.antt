-- ===== src/Proxy/Auth.antt =====
-- internal/proxy/auth.go: the check of a client's token.
use ai_proxy_pool.Base.{
  ◌≡◌, refl, ◌≢◌, ◌⊎◌, inl, inr, Bool, true, false, not, [], Option, none, some, arith,
  if◌then◌else◌, Bool-cases, List-cases,
}
use mathlib.Core.Bool.{false≢true}
use ai_proxy_pool.Base.Text.{Bytes, codes, str_eq, str_eq→eq, trim_space, equal_fold, cut}
use ai_proxy_pool.Base.Header
use ai_proxy_pool.Base.Header.{Header}
use ai_proxy_pool.Config.{AuthConfig}
use ai_proxy_pool.Router.{is_empty}

-- The comparison takes constant time, and tells what `==` does.
abbrev pub secure_equal : Bytes → Bytes → Bool
secure_equal a b = str_eq a b

abbrev scheme_matches : Bytes → Bytes → Option (Bytes × Bytes) → Bool
scheme_matches scheme token none = false
scheme_matches scheme token (some (name, rest)) =
    if not (equal_fold (trim_space name) scheme)
    then false
    else secure_equal (trim_space rest) token

unfoldable pub auth_header_matches : Bytes → Bytes → Bytes → Bool
auth_header_matches header_value scheme token =
    let value = trim_space header_value in
    let wanted = trim_space scheme in
    if is_empty value
    then false
    else if is_empty wanted
    then secure_equal value token
    else scheme_matches wanted token (cut b' ' value)

unfoldable pub is_authorized : AuthConfig → Header → Bool
unfolding auth_header_matches
is_authorized auth_cfg header =
    let token = trim_space auth_cfg.token in
    if not auth_cfg.enabled
    then true
    else if is_empty token
    then false
    else if auth_header_matches (Header.get header auth_cfg.header) auth_cfg.scheme token
    then true
    else if auth_header_matches (Header.get header (codes "Authorization")) (codes "Bearer") token
    then true
    else if auth_header_matches (Header.get header (codes "X-Api-Key")) [] token
    then true
    else false

-- A header value that carries the token: alone, or behind a scheme and a space.
pub Carries : Bytes → Bytes → Type 0
Carries value token =
    (trim_space value ≡ token)
    ⊎ ((name : Bytes) × (rest : Bytes) × (cut b' ' (trim_space value) ≡ some (name, rest))
        × (trim_space rest ≡ token))

scheme_matches-split :
    (scheme token : Bytes) (parts : Option (Bytes × Bytes))
    → scheme_matches scheme token parts ≡ true
    → (name : Bytes) × (rest : Bytes) × (parts ≡ some (name, rest)) × (trim_space rest ≡ token)
scheme_matches-split scheme token none e = absurd (false≢true e)
scheme_matches-split scheme token (some (name, rest)) e =
    elim (Bool-cases (equal_fold (trim_space name) scheme)) [
      | inl same ↦ (name, rest, refl, str_eq→eq _ _ (rw (same, if◌then◌else◌) at e))
      | inr other ↦ absurd (false≢true (rw other at e))
    ]

auth_header_matches-Carries :
    (value scheme token : Bytes)
    → auth_header_matches value scheme token ≡ true
    → Carries value token
unfolding auth_header_matches Carries
auth_header_matches-Carries value scheme token e = elim (Bool-cases (is_empty (trim_space value))) [
  | inl absent ↦ absurd (false≢true (rw absent at e))
  | inr given ↦ elim (Bool-cases (is_empty (trim_space scheme))) [
    | inl bare ↦ inl (str_eq→eq _ _ (rw (given, bare, if◌then◌else◌) at e))
    | inr schemed ↦ inr (
        scheme_matches-split (trim_space scheme) token (cut b' ' (trim_space value))
          (rw (given, schemed, if◌then◌else◌) at e))
  ]
]

-- The places where `isAuthorized` looks for the token.
abbrev pub IsOffered : AuthConfig → Header → Bytes → Type 0
IsOffered auth_cfg header token =
    Carries (Header.get header auth_cfg.header) token
    ⊎ (Carries (Header.get header (codes "Authorization")) token
        ⊎ Carries (Header.get header (codes "X-Api-Key")) token)

-- With authentication enabled a request is let in only if the configured token is not blank and
-- the request carries it, up to white space around it, in the configured header, in Authorization
-- or in X-Api-Key: alone, or behind a scheme and a space.
pub is_authorized-IsOffered :
    (auth_cfg : AuthConfig) (header : Header)
    → auth_cfg.enabled ≡ true
    → is_authorized auth_cfg header ≡ true
    → (trim_space auth_cfg.token ≢ []) × IsOffered auth_cfg header (trim_space auth_cfg.token)
unfolding is_authorized
is_authorized-IsOffered auth_cfg header on e = elim (List-cases token) [
  | inl blank ↦ absurd (false≢true (rw (on, blank) at e))
  | inr (b, rest, given) ↦
      let some_token : is_empty token ≡ false = rw given refl in
      let e' = rw (on, some_token, if◌then◌else◌) at e in
      (
        λ blank. cc,
        elim (Bool-cases (auth_header_matches own auth_cfg.scheme token)) [
          | inl a ↦ inl (auth_header_matches-Carries own auth_cfg.scheme token a)
          | inr not_own ↦ elim (Bool-cases (auth_header_matches usual (codes "Bearer") token)) [
            | inl b ↦ inr (inl (auth_header_matches-Carries usual (codes "Bearer") token b))
            | inr not_usual ↦
                inr (inr (auth_header_matches-Carries key [] token (ground (arith, e'))))
          ]
        ],
      )
]
  where
    token : Bytes
    token = trim_space auth_cfg.token

    own : Bytes
    own = Header.get header auth_cfg.header

    usual : Bytes
    usual = Header.get header (codes "Authorization")

    key : Bytes
    key = Header.get header (codes "X-Api-Key")
