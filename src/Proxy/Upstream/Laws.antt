-- ===== src/Proxy/Upstream/Laws.antt =====
-- What `doUpstreamRequest` leaves of the counters, the selector and the response: the laws that the
-- handler asks of it.
use ai_proxy_pool.Base.{ℕ, refl, inl, inr, not, ◌&&◌, ltb, List, none, Bool-cases, Option-cases}
use ai_proxy_pool.Base.Int.{pos}
use ai_proxy_pool.Base.Text.{Bytes, codes}
use ai_proxy_pool.Base.Header
use ai_proxy_pool.Base.Header.{Header}
use ai_proxy_pool.Base.Dict.{contains}
use ai_proxy_pool.Base.Word.{leb_ℤ}
use ai_proxy_pool.Proxy.Forward.{build_upstream_request}
use ai_proxy_pool.Base.Json.{Codec}
use ai_proxy_pool.Base.Regexp.{Regexp}
use ai_proxy_pool.Base.Result.{Result-cases}
use ai_proxy_pool.Base.Url.{Net}
use ai_proxy_pool.Config.{Config, ProviderConfig, retry_on_5xx_or_default}
use ai_proxy_pool.Stats.Provider.{ProviderStats, update}
use ai_proxy_pool.Proxy.World.{World, Request, count}
use ai_proxy_pool.Proxy.Handler.Counters.{SameCounters, KeepsCounters}
use ai_proxy_pool.Proxy.Handler.Rounds.{KeepsSelector}
use ai_proxy_pool.Proxy.Handler.Answers.{ReportsReply}
use ai_proxy_pool.Proxy.Upstream.{
  HttpResponse, TokenUsage, should_translate_response, Translation, Exchange, add_usage, answer,
  translated_stream, translated_body, is_bodiless, streams, copy_headers, drop_encoding, is_2xx,
  answer_translated, settle_answer, receive, send_request, do_upstream_request,
}
use ai_proxy_pool.Proxy.Upstream.Steps.{
  Calm-Behaves, same-Calm, update-Calm, create-Calm, failed-Behaves, body-Written, count-Written,
  finished-Behaves, finish_write-Behaves, write_body-Behaves, Calm-Written, header_status-Written,
  Behaves,
}

module _ (cfg : Config) (codec : Codec) (tr : Translation) (ex : Exchange) (r : Request)
    (body : Bytes) (selected : ProviderConfig) where
  answer-Behaves :
      (resp : HttpResponse) (w : World) → Behaves w (answer cfg codec tr ex r body selected resp w)
  unfolding answer
  answer-Behaves resp w =
      let own = copy_headers cfg codec tr ex r body selected resp in
      let bare : Header → Header = λ h. drop_encoding cfg codec tr ex r body selected (own h) in
      elim (Bool-cases (is_bodiless cfg codec tr ex r body selected resp.status_code)) [
        | inl bodiless ↦ rw bodiless (
            finished-Behaves selected.name resp.status_code (pos 0)
              (header_status-Written w own resp.status_code))
        | inr full ↦ elim (Bool-cases (streams cfg codec tr ex r body selected resp)) [
          | inl streamed ↦
              rw (full, streamed)
                (write_body-Behaves ex selected.name resp.status_code resp.body resp.broken
                  (header_status-Written w own resp.status_code))
          | inr complete ↦ elim (Option-cases resp.broken) [
            | inl whole ↦
                rw (full, complete, whole, answer)
                  (write_body-Behaves ex selected.name resp.status_code resp.body none
                    (header_status-Written w bare resp.status_code))
            | inr (e, broke) ↦
                rw (full, complete, broke, answer)
                  (Calm-Behaves (same-Calm w bare) (failed-Behaves _ resp.status_code _ refl))
          ]
        ]
      ]

  usage-SameCounters :
      (usage : TokenUsage) (ps : ProviderStats) → SameCounters ps (add_usage usage ps)
  unfolding add_usage
  usage-SameCounters usage ps = record { active = refl; total = refl; success = refl; error = refl }

  translated_stream-Behaves :
      (resp : HttpResponse) (w : World)
      → Behaves w (translated_stream cfg codec tr ex r body selected resp w)
  unfolding translated_stream
  translated_stream-Behaves resp w =
      let out = tr.stream selected body ex resp in
      finish_write-Behaves selected.name resp.status_code out.written out.error (
        count-Written selected.name (add_usage out.usage)
          (body-Written
            (header_status-Written w
              (λ h. Header.set h (codes "Content-Type") (codes "text/event-stream"))
              resp.status_code)
            out.output)
          (usage-SameCounters out.usage))

  translated_body-Behaves :
      (resp : HttpResponse) (w : World)
      → Behaves w (translated_body cfg codec tr ex r body selected resp w)
  unfolding translated_body
  translated_body-Behaves resp w = elim (Option-cases resp.broken) [
    | inr (e, broke) ↦ rw (broke, translated_body) (failed-Behaves w resp.status_code _ refl)
    | inl whole ↦ elim (Result-cases (tr.non_stream selected r.path body resp.body)) [
      | inl (e, refused) ↦
          rw (whole, refused, translated_body) (failed-Behaves w resp.status_code _ refl)
      | inr (translated, e) ↦
          let usage = tr.usage r.path resp.body translated in
          rw (whole, e, translated_body)
            (write_body-Behaves ex selected.name resp.status_code translated none (
              Calm-Written
                (update-Calm w selected.name (add_usage usage) (usage-SameCounters usage))
                (header_status-Written (count (update selected.name (add_usage usage)) w)
                  (λ h. Header.set h (codes "Content-Type") (codes "application/json"))
                  resp.status_code)))
    ]
  ]

  answer_translated-Behaves :
      (resp : HttpResponse) (w : World)
      → Behaves w (answer_translated cfg codec tr ex r body selected resp w)
  unfolding answer_translated
  answer_translated-Behaves resp w =
      let bare : Header → Header = λ h.
        drop_encoding cfg codec tr ex r body selected
          (copy_headers cfg codec tr ex r body selected resp h) in
      elim (Bool-cases (is_bodiless cfg codec tr ex r body selected resp.status_code)) [
        | inl bodiless ↦ rw bodiless (
            finished-Behaves selected.name resp.status_code (pos 0)
              (header_status-Written w bare resp.status_code))
        | inr full ↦ elim (Bool-cases (is_2xx resp.status_code)) [
          | inr refused ↦
              rw (full, refused) (Calm-Behaves (same-Calm w bare) (answer-Behaves resp _))
          | inl good ↦ elim (Bool-cases (streams cfg codec tr ex r body selected resp)) [
            | inl streamed ↦
                rw (full, good, streamed)
                  (Calm-Behaves (same-Calm w bare) (translated_stream-Behaves resp _))
            | inr complete ↦
                rw (full, good, complete)
                  (Calm-Behaves (same-Calm w bare) (translated_body-Behaves resp _))
          ]
        ]
      ]

  settle_answer-Behaves :
      (attempt max : ℕ) (resp : HttpResponse) (w : World)
      → Behaves w (settle_answer cfg codec tr ex r body selected attempt max resp w)
  unfolding settle_answer
  settle_answer-Behaves attempt max resp w =
      elim (Bool-cases (
        leb_ℤ (pos 500) resp.status_code
        && ltb attempt max
        && retry_on_5xx_or_default cfg.server.retry)) [
          | inl again ↦ rw again (failed-Behaves w resp.status_code _ refl)
          | inr last ↦ elim (Bool-cases (should_translate_response selected)) [
            | inl other_api ↦ rw (last, other_api) (answer_translated-Behaves resp w)
            | inr same_api ↦ rw (last, same_api) (answer-Behaves resp w)
          ]
        ]

  receive-Behaves :
      (attempt max : ℕ) (resp : HttpResponse) (w : World)
      → Behaves w (receive cfg codec tr ex r body selected attempt max resp w)
  unfolding receive
  receive-Behaves attempt max resp w = elim (Option-cases resp.broken) [
    | inl whole ↦ rw (whole, receive) (settle_answer-Behaves attempt max resp w)
    | inr (e, broke) ↦
        elim (Bool-cases
          (not (is_2xx resp.status_code) && not (streams cfg codec tr ex r body selected resp))) [
            | inl unread ↦ rw (broke, unread, receive) (failed-Behaves w resp.status_code _ refl)
            | inr read ↦ rw (broke, read, receive) (settle_answer-Behaves attempt max resp w)
          ]
  ]

module _ (net : Net) (re : Regexp) (codec : Codec) (cfg : Config) (tr : Translation)
    (clients : List Bytes) (exchange : ℕ → Exchange) where
  send_request-Behaves :
      (r : Request) (body : Bytes) (selected : ProviderConfig) (attempt max : ℕ)
      (upstream_body upstream_path : Bytes) (w : World)
      → Behaves w (
          send_request net re codec cfg tr clients exchange r body selected attempt max
            upstream_body upstream_path w)
  unfolding send_request
  send_request-Behaves r body selected attempt max upstream_body upstream_path w =
      elim (Option-cases (build_upstream_request net cfg r upstream_body selected upstream_path)) [
        | inl none_built ↦ rw (none_built, send_request) (failed-Behaves w (pos 0) _ refl)
        | inr (out, built) ↦ elim (Bool-cases (contains selected.name clients)) [
          | inr missing ↦ rw (built, missing, send_request) (failed-Behaves w (pos 0) _ refl)
          | inl found ↦ elim (Result-cases ((exchange attempt).send out)) [
            | inl (e, refused) ↦
                rw (built, found, refused, send_request) (failed-Behaves w (pos 0) _ refl)
            | inr (resp, sent) ↦
                rw (built, found, sent, send_request)
                  (Calm-Behaves
                    (update-Calm w selected.name _
                      (λ ps. record { active = refl; total = refl; success = refl; error = refl }))
                    (receive-Behaves cfg codec tr (exchange attempt) r body selected attempt max
                      resp _))
          ]
        ]
      ]

  do_upstream_request-Behaves :
      (r : Request) (body model : Bytes) (w : World) (selected : ProviderConfig) (attempt max : ℕ)
      → Behaves w (
          do_upstream_request net re codec cfg tr clients exchange r body model w selected attempt
            max)
  unfolding do_upstream_request
  do_upstream_request-Behaves r body model w selected attempt max =
      elim (Result-cases (tr.request selected body model r.path)) [
        | inl (e, refused) ↦
            rw (refused, do_upstream_request)
              (Calm-Behaves (create-Calm w selected.name) (failed-Behaves _ (pos 0) _ refl))
        | inr ((upstream_body, upstream_path, upstream_model), e) ↦
            rw (e, do_upstream_request)
              (Calm-Behaves (create-Calm w selected.name)
                (send_request-Behaves r body selected attempt max _ upstream_path _))
      ]

  pub do_upstream_request-KeepsCounters :
      (r : Request) (body model : Bytes)
      → KeepsCounters (do_upstream_request net re codec cfg tr clients exchange r body model)
  do_upstream_request-KeepsCounters r body model w p attempt max =
      (do_upstream_request-Behaves r body model w p attempt max).counters

  pub do_upstream_request-KeepsSelector :
      (r : Request) (body model : Bytes)
      → KeepsSelector (do_upstream_request net re codec cfg tr clients exchange r body model)
  do_upstream_request-KeepsSelector r body model w p attempt max =
      (do_upstream_request-Behaves r body model w p attempt max).selector

  pub do_upstream_request-ReportsReply :
      (r : Request) (body model : Bytes)
      → ReportsReply (do_upstream_request net re codec cfg tr clients exchange r body model)
  do_upstream_request-ReportsReply r body model w p attempt max =
      (do_upstream_request-Behaves r body model w p attempt max).reply
