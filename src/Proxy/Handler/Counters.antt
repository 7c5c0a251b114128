-- ===== src/Proxy/Handler/Counters.antt =====
-- What `handleProxy` does to the counters of the providers.
use ai_proxy_pool.Base.{
  ℕ, ◌≡◌, refl, sym, ap, ◌∙◌, ◌⊎◌, inl, inr, Bool, List, [], ◌∷◌, Option, arith,
}
use ai_proxy_pool.Base.Int.{ℤ, pos, negsuc, ◌+ℤ◌, +ℤ_assoc, +ℤ_comm}
use ai_proxy_pool.Base.Word.{int64, IsInt64, int64_up_down, int64-+ℤ_left, int64-+ℤ_right}
use ai_proxy_pool.Base.Float.{Float}
use ai_proxy_pool.Base.Text.{Bytes}
use ai_proxy_pool.Config.{ProviderConfig, CircuitBreakerConfig}
use ai_proxy_pool.Stats.Provider.{
  ProviderStats, GlobalStats, stats_of, get_or_create, ensure_health_window,
}
use ai_proxy_pool.Stats.Update.{stats_of-get_or_create}
use ai_proxy_pool.Proxy.Breaker.{GoError}
use ai_proxy_pool.Proxy.World.{World, Attempt}
use ai_proxy_pool.Proxy.Handler.{
  Upstream, begin_attempt, end_attempt, score, count_attempt, create_all,
}

-- The counters that only the handler writes.
pub record SameCounters (ps ps' : ProviderStats) : Type 0 where
  pub active : ps'.active_connections ≡ ps.active_connections
  pub total : ps'.total_requests ≡ ps.total_requests
  pub success : ps'.success_requests ≡ ps.success_requests
  pub error : ps'.error_requests ≡ ps.error_requests

-- What the handler asks of `doUpstreamRequest`.
abbrev pub KeepsCounters : Upstream → Type 0
KeepsCounters upstream =
    (w : World) (p : ProviderConfig) (attempt max : ℕ) (name : Bytes)
    → SameCounters (stats_of w.stats name) (stats_of (upstream w p attempt max).world.stats name)

-- Every request of the provider is counted as a success or as an error.
abbrev pub IsBalanced : ProviderStats → Type 0
IsBalanced ps = ps.total_requests ≡ int64 (ps.success_requests +ℤ ps.error_requests)

-- What a run leaves of the counters of a provider.
pub record Keeps (ps ps' : ProviderStats) : Type 0 where
  pub active : IsInt64 ps.active_connections → ps'.active_connections ≡ ps.active_connections
  pub balanced : IsBalanced ps → IsBalanced ps'

pub Keeps-refl : (ps : ProviderStats) → Keeps ps ps
Keeps-refl ps = record { active = λ h. refl; balanced = λ h. h }

pub SameCounters-Keeps : {ps ps' : ProviderStats} → SameCounters ps ps' → Keeps ps ps'
SameCounters-Keeps s = record {
  active = λ h. s.active;
  balanced = λ h. rw (s.total, s.success, s.error) h;
}

Keeps-trans : {a b c : ProviderStats} → Keeps a b → Keeps b c → Keeps a c
Keeps-trans k l = record {
  active = λ h. l.active (rw (k.active h) h) ∙ k.active h;
  balanced = λ h. l.balanced (k.balanced h);
}

-- The score changes the window and the circuit only.
score-SameCounters :
    (fl : Float) (cb : CircuitBreakerConfig) (env : Attempt) (fatal : Bool) (ps : ProviderStats)
    → SameCounters ps (score fl cb env fatal ps)
unfolding score
score-SameCounters fl cb env fatal ps = record {
  active = ground arith;
  total = ground arith;
  success = ground arith;
  error = ground arith;
}

module _ (fl : Float) (cb : CircuitBreakerConfig) (env : Attempt) (fatal : Bool)
    (ps : ProviderStats) where
  end_attempt-counters :
      let ps' = end_attempt fl cb env fatal ps in
      (ps'.active_connections ≡ int64 (ps.active_connections +ℤ negsuc 0))
      × (ps'.total_requests ≡ int64 (ps.total_requests +ℤ pos 1))
      × (ps'.success_requests ≡ ps.success_requests)
      × (ps'.error_requests ≡ ps.error_requests)
  unfolding end_attempt
  end_attempt-counters =
      let left : ProviderStats = record ps {
        active_connections = int64 (ps.active_connections +ℤ negsuc 0);
        total_requests = int64 (ps.total_requests +ℤ pos 1);
      } in
      let same = score-SameCounters fl cb env fatal left in
      (
        ground (arith, same.active),
        ground (arith, same.total),
        ground (arith, same.success),
        ground (arith, same.error),
      )

begin_attempt-counters :
    (cb : CircuitBreakerConfig) (ps : ProviderStats)
    → let ps' = begin_attempt cb ps in
      (ps'.active_connections ≡ int64 (ps.active_connections +ℤ pos 1))
      × (ps'.total_requests ≡ ps.total_requests)
      × (ps'.success_requests ≡ ps.success_requests)
      × (ps'.error_requests ≡ ps.error_requests)
unfolding begin_attempt ensure_health_window
begin_attempt-counters cb ps = (ground arith, ground arith, ground arith, ground arith)

-- An attempt is counted as exactly one of the two.
count_attempt-counters :
    (status_code : ℤ) (e : Option GoError) (ps : ProviderStats)
    → let ps' = count_attempt status_code e ps in
      (ps'.active_connections ≡ ps.active_connections)
      × (ps'.total_requests ≡ ps.total_requests)
      × (((ps'.success_requests ≡ int64 (ps.success_requests +ℤ pos 1))
            × (ps'.error_requests ≡ ps.error_requests))
          ⊎ ((ps'.success_requests ≡ ps.success_requests)
              × (ps'.error_requests ≡ int64 (ps.error_requests +ℤ pos 1))))
unfolding count_attempt
count_attempt-counters status_code e ps = (ground arith, ground arith, ground arith)

up_left : (a b : ℤ) → int64 (int64 (a +ℤ b) +ℤ pos 1) ≡ int64 (int64 (a +ℤ pos 1) +ℤ b)
up_left a b =
    int64-+ℤ_left (a +ℤ b) (pos 1)
    ∙ ap int64
        (+ℤ_assoc a b (pos 1) ∙ ap (λ c. a +ℤ c) (+ℤ_comm b (pos 1)) ∙ sym (+ℤ_assoc a (pos 1) b))
    ∙ sym (int64-+ℤ_left (a +ℤ pos 1) b)

up_right : (a b : ℤ) → int64 (int64 (a +ℤ b) +ℤ pos 1) ≡ int64 (a +ℤ int64 (b +ℤ pos 1))
up_right a b =
    int64-+ℤ_left (a +ℤ b) (pos 1)
    ∙ ap int64 (+ℤ_assoc a b (pos 1))
    ∙ sym (int64-+ℤ_right a (b +ℤ pos 1))

-- One attempt, from its first counter to its last.
pub attempt-Keeps :
    (fl : Float) (cb : CircuitBreakerConfig) (env : Attempt) (fatal : Bool) (status_code : ℤ)
    (e : Option GoError) (ps : ProviderStats) {ps' : ProviderStats}
    → SameCounters (begin_attempt cb ps) ps'
    → Keeps ps (count_attempt status_code e (end_attempt fl cb env fatal ps'))
attempt-Keeps fl cb env fatal status_code e ps {ps'} s =
    let (a1, t1, s1, e1) = begin_attempt-counters cb ps in
    let (a2, t2, s2, e2) = end_attempt-counters fl cb env fatal ps' in
    let (a3, t3, counted) =
      count_attempt-counters status_code e (end_attempt fl cb env fatal ps') in
    record {
      active = λ h.
          a3
          ∙ a2
          ∙ ap (λ n. int64 (n +ℤ negsuc 0)) (s.active ∙ a1)
          ∙ int64_up_down ps.active_connections h;
      balanced = λ h. elim counted [
        | inl (up, same) ↦
            cc (up_left ps.success_requests ps.error_requests, s.total, s.success, s.error)
        | inr (same, up) ↦
            cc (up_right ps.success_requests ps.error_requests, s.total, s.success, s.error)
      ];
    }

-- What a run leaves of every provider's counters.
abbrev pub KeepsAll : GlobalStats → GlobalStats → Type 0
KeepsAll g g' = (name : Bytes) → Keeps (stats_of g name) (stats_of g' name)

pub KeepsAll-trans : (a b c : GlobalStats) → KeepsAll a b → KeepsAll b c → KeepsAll a c
KeepsAll-trans a b c k l name = Keeps-trans (k name) (l name)

get_or_create-KeepsAll : (g : GlobalStats) (n : Bytes) → KeepsAll g (get_or_create g n)
get_or_create-KeepsAll g n name =
    rw (stats_of-get_or_create g n name) (Keeps-refl (stats_of g name))

pub create_all-KeepsAll :
    (g : GlobalStats) (ps : List ProviderConfig) → KeepsAll g (create_all g ps)
unfolding create_all
create_all-KeepsAll g [] = λ name. Keeps-refl (stats_of g name)
create_all-KeepsAll g (p ∷ ps) =
    KeepsAll-trans _ _ _ (get_or_create-KeepsAll g p.name)
      (create_all-KeepsAll (get_or_create g p.name) ps)
