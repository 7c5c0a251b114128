-- ===== src/Proxy/Handler/Answers.antt =====
-- Where no attempt finds the client gone, the handler has written a status when it returns.
use ai_proxy_pool.Base.{
  ℕ, zero, suc, not, ◌||◌, leb, ◌≡◌, ◌≢◌, inl, inr, true, false, List, Option, none, some, arith,
  Bool-cases, Option-cases,
}
use mathlib.Core.Path.{subst}
use ai_proxy_pool.Base.Int.{ℤ}
use ai_proxy_pool.Base.Float.{Float}
use ai_proxy_pool.Base.Regexp.{Regexp}
use ai_proxy_pool.Base.Json.{Codec}
use ai_proxy_pool.Base.Text.{Bytes, codes, equal_fold}
use ai_proxy_pool.Base.Result.{Result-cases}
use ai_proxy_pool.Config.{Config, ProviderConfig}
use ai_proxy_pool.Router.{SelectionInput, select}
use ai_proxy_pool.Proxy.Auth.{is_authorized}
use ai_proxy_pool.Proxy.Breaker.{GoError}
use ai_proxy_pool.Proxy.World.{World, Response, Attempt, Request, Message, write_json}
use ai_proxy_pool.Proxy.Handler.{
  Upstream, UpstreamOf, LoopState, Next, returned, broken, again, Next-cases, ended, stopped, next,
  settle, enter, try_provider, after_error, round, give_up, attempts, should_retry, handle_proxy,
  proxy_body, refuse_unauthorized, read_request_body_with_limit,
}

abbrev pub IsAnswered : Response → Type 0
IsAnswered w = w.status ≢ none

abbrev pub IsOpen : Response → Type 0
IsOpen w = w.status ≡ none

-- What the result of an upstream call says of the response: it is written with no error and with a
-- write error, and not begun with any other.
abbrev pub Reports : Option GoError → Response → Type 0
Reports none w = IsAnswered w
Reports (some e) w = (e.as_write ≡ true → IsAnswered w) × (e.as_write ≡ false → IsOpen w)

-- What the handler asks of `doUpstreamRequest`.
abbrev pub ReportsReply : Upstream → Type 0
ReportsReply upstream =
    (w : World) (p : ProviderConfig) (attempt max : ℕ)
    → IsOpen w.response
    → let r = upstream w p attempt max in Reports r.error r.world.response

-- How a round leaves the response.
abbrev Leaves : Next → Type 0
Leaves (returned w) = IsAnswered w.response
Leaves (broken st) = IsOpen st.world.response
Leaves (again st) = IsOpen st.world.response

write_json-status :
    (code : ℤ) (m : Message) (w : Response) → IsOpen w → (write_json code m w).status ≡ some code
unfolding write_json
write_json-status code m w h = ground arith

write_json-IsAnswered :
    (code : ℤ) (m : Message) (w : Response) → IsOpen w → IsAnswered (write_json code m w)
write_json-IsAnswered code m w h e = cc (write_json-status code m w h)

module _ (fl : Float) (re : Regexp) (cfg : Config) (upstream : Upstream)
    (law : ReportsReply upstream) where
  after_error-Leaves :
      (env : Attempt) (attempt max : ℕ) (name : Bytes) (status_code : ℤ) (e : GoError) (w : World)
      (excluded : List Bytes)
      → env.client_gone ≡ false
      → Reports (some e) w.response
      → Leaves (after_error fl re cfg upstream env attempt max name status_code e w excluded)
  unfolding after_error should_retry
  after_error-Leaves env attempt max name status_code e w excluded here (written, fresh) =
      elim (Bool-cases e.as_write) [
        | inl yes_write ↦ rw (yes_write, after_error) (written yes_write)
        | inr no_write ↦
            elim (Bool-cases
              (not (should_retry cfg.server.retry status_code e) || leb max attempt)) [
                | inl stop ↦ rw (no_write, here, stop, after_error) (fresh no_write)
                | inr go ↦ rw (no_write, here, go, after_error) (fresh no_write)
              ]
      ]

  try_provider-Leaves :
      (env : Attempt) (attempt max : ℕ) (p : ProviderConfig) (st : LoopState)
      → env.client_gone ≡ false
      → IsOpen st.world.response
      → Leaves (try_provider fl re cfg upstream env attempt max p st)
  unfolding try_provider enter settle
  try_provider-Leaves env attempt max p st here fresh =
      let r = upstream (enter fl re cfg upstream p.name st.world) p attempt max in
      let said = law (enter fl re cfg upstream p.name st.world) p attempt max fresh in
      elim (Option-cases r.error) [
        | inl done ↦ rw (done, try_provider) (subst (λ o. Reports o r.world.response) done said)
        | inr (e, failed) ↦
            rw (failed, try_provider)
              (after_error-Leaves env attempt max p.name r.status_code e
                (settle fl re cfg upstream env p.name r) st.excluded here
                (subst (λ o. Reports o r.world.response) failed said))
      ]

  round-Leaves :
      (base : SelectionInput) (env : Attempt) (attempt max : ℕ) (st : LoopState)
      → env.client_gone ≡ false
      → IsOpen st.world.response
      → Leaves (round fl re cfg upstream base env attempt max st)
  unfolding round
  round-Leaves base env attempt max st here fresh =
      elim (Result-cases
        (select re st.world.selector env.draw
          (record base { excluded_providers = st.excluded })).1) [
            | inl (e, refused) ↦
                rw (refused, round) (write_json-IsAnswered _ _ st.world.response fresh)
            | inr (p, selected) ↦
                rw (selected, round) (try_provider-Leaves env attempt max p _ here fresh)
          ]

  attempts-IsAnswered :
      (base : SelectionInput) (env : ℕ → Attempt) (left attempt max : ℕ) (st : LoopState)
      → ((k : ℕ) → (env k).client_gone ≡ false)
      → IsOpen st.world.response
      → IsAnswered (attempts fl re cfg upstream base env left attempt max st).response
  unfolding attempts give_up
  attempts-IsAnswered base env zero attempt max st here fresh =
      write_json-IsAnswered _ _ st.world.response fresh
  attempts-IsAnswered base env (suc left) attempt max st here fresh =
      let leaves = round-Leaves base (env attempt) attempt max st (here attempt) fresh in
      elim (Next-cases (round fl re cfg upstream base (env attempt) attempt max st)) [
        | ended w e ↦ rw (e, attempts) (subst Leaves e leaves)
        | stopped st' e ↦
            rw (e, attempts) (write_json-IsAnswered _ _ st'.world.response (subst Leaves e leaves))
        | next st' e ↦
            rw (e, attempts)
              (attempts-IsAnswered base env left (suc attempt) max st' here (subst Leaves e leaves))
      ]

module _ (fl : Float) (re : Regexp) (codec : Codec) (cfg : Config) (upstream : UpstreamOf) where
  refuse_unauthorized-IsAnswered :
      (w : World)
      → IsOpen w.response
      → IsAnswered (refuse_unauthorized fl re codec cfg upstream w).response
  unfolding refuse_unauthorized
  refuse_unauthorized-IsAnswered w fresh =
      elim (Bool-cases (equal_fold cfg.server.auth.scheme (codes "bearer"))) [
        | inl bearer ↦ rw bearer (write_json-IsAnswered _ _ _ fresh)
        | inr other ↦ rw other (write_json-IsAnswered _ _ _ fresh)
      ]

  -- When the handler returns, a status has been written, whatever the authentication, the body, the
  -- selections and the attempts do, if no attempt finds that the client has gone. The upstream call
  -- must report its reply: written with no error or a write error, and not begun with any other.
  pub handle_proxy-IsAnswered :
      ((r : Request) (body model : Bytes) → ReportsReply (upstream r body model))
      → (start : ℤ) (env : ℕ → Attempt) (r : Request) (w : World)
      → ((k : ℕ) → (env k).client_gone ≡ false)
      → IsOpen w.response
      → IsAnswered (handle_proxy fl re codec cfg upstream start env r w).response
  unfolding handle_proxy proxy_body
  handle_proxy-IsAnswered law start env r w here fresh =
      elim (Bool-cases (is_authorized cfg.server.auth r.header)) [
        | inr refused ↦ rw (refused, handle_proxy) (refuse_unauthorized-IsAnswered w fresh)
        | inl granted ↦
            elim (Result-cases (read_request_body_with_limit r cfg.server.max_request_body_bytes)) [
              | inl (true, broke) ↦
                  rw (granted, broke, handle_proxy) (write_json-IsAnswered _ _ _ fresh)
              | inl (false, broke) ↦
                  rw (granted, broke, handle_proxy) (write_json-IsAnswered _ _ _ fresh)
              | inr (body, complete) ↦
                  rw (granted, complete, handle_proxy)
                    (attempts-IsAnswered fl re cfg (upstream r body _) (law r body _) _ env _ 1 _ _
                      here fresh)
            ]
      ]
