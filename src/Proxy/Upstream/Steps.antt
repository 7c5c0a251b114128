-- ===== src/Proxy/Upstream/Steps.antt =====
-- What the steps of `doUpstreamRequest` leave of the counters, the selector and the response.
use ai_proxy_pool.Base.{◌≡◌, refl, ◌∙◌, ◌≢◌, inl, inr, false, Option, none, some, Bool-cases}
use mathlib.Core.Path.{subst}
use ai_proxy_pool.Base.Int.{ℤ, pos}
use ai_proxy_pool.Base.Text.{Bytes, str_eq, str_eq→eq}
use ai_proxy_pool.Base.Header.{Header}
use ai_proxy_pool.Stats.Provider.{ProviderStats, GlobalStats, get_or_create, update, stats_of}
use ai_proxy_pool.Stats.Update.{stats_of-update_self, stats_of-update_ne, stats_of-get_or_create}
use ai_proxy_pool.Proxy.Breaker.{GoError}
use ai_proxy_pool.Proxy.World.{World, write_header, write, raw, respond, count, first_status}
use ai_proxy_pool.Proxy.Handler.{UpstreamResult}
use ai_proxy_pool.Proxy.Handler.Counters.{SameCounters}
use ai_proxy_pool.Proxy.Handler.Answers.{IsAnswered, IsOpen, Reports}
use ai_proxy_pool.Proxy.Upstream.{Exchange, finished, write_body, finish_write}

pub SameCounters-refl : (ps : ProviderStats) → SameCounters ps ps
SameCounters-refl ps = record { active = refl; total = refl; success = refl; error = refl }

pub SameCounters-trans :
    {a b c : ProviderStats} → SameCounters a b → SameCounters b c → SameCounters a c
SameCounters-trans s t = record {
  active = t.active ∙ s.active;
  total = t.total ∙ s.total;
  success = t.success ∙ s.success;
  error = t.error ∙ s.error;
}

-- The counters of every provider are the same.
abbrev pub SameAll : GlobalStats → GlobalStats → Type 0
SameAll g g' = (name : Bytes) → SameCounters (stats_of g name) (stats_of g' name)

pub update-SameAll :
    (g : GlobalStats) (name : Bytes) (f : ProviderStats → ProviderStats)
    → ((ps : ProviderStats) → SameCounters ps (f ps))
    → SameAll g (update name f g)
update-SameAll g name f h asked = elim (Bool-cases (str_eq name asked)) [
  | inl same ↦
      subst (λ n. SameCounters (stats_of g n) (stats_of (update name f g) n))
        (str_eq→eq name asked same) (rw stats_of-update_self (h (stats_of g name)))
  | inr other ↦ rw (stats_of-update_ne f g name asked other) (SameCounters-refl (stats_of g asked))
]

-- A step that writes nothing to the client, and one that writes a status.
pub record Calm (w w' : World) : Type 0 where
  pub selector : w'.selector ≡ w.selector
  pub counters : SameAll w.stats w'.stats
  pub still : IsOpen w.response → IsOpen w'.response

pub record Written (w w' : World) : Type 0 where
  pub selector : w'.selector ≡ w.selector
  pub counters : SameAll w.stats w'.stats
  pub answered : IsAnswered w'.response

-- What the call leaves.
pub record Behaves (w : World) (r : UpstreamResult) : Type 0 where
  pub selector : r.world.selector ≡ w.selector
  pub counters : SameAll w.stats r.world.stats
  pub reply : IsOpen w.response → Reports r.error r.world.response

pub Calm-Behaves : {w w' : World} {r : UpstreamResult} → Calm w w' → Behaves w' r → Behaves w r
Calm-Behaves calm b = record {
  selector = b.selector ∙ calm.selector;
  counters = λ name. SameCounters-trans (calm.counters name) (b.counters name);
  reply = λ fresh. b.reply (calm.still fresh);
}

-- A step that leaves the counters and the response alone.
pub same-Calm :
    (w : World) (f : Header → Header)
    → let resp = w.response in
      Calm w (record w { response = record resp { header = f resp.header } })
same-Calm w f = record {
  selector = refl;
  counters = λ name. SameCounters-refl (stats_of w.stats name);
  still = λ h. h;
}

pub update-Calm :
    (w : World) (name : Bytes) (f : ProviderStats → ProviderStats)
    → ((ps : ProviderStats) → SameCounters ps (f ps))
    → Calm w (count (update name f) w)
update-Calm w name f h = record {
  selector = refl;
  counters = update-SameAll w.stats name f h;
  still = λ h'. h';
}

pub create-Calm : (w : World) (name : Bytes) → Calm w (count (λ g. get_or_create g name) w)
create-Calm w name = record {
  selector = refl;
  counters = λ asked.
      rw (stats_of-get_or_create w.stats name asked) (SameCounters-refl (stats_of w.stats asked));
  still = λ h. h;
}

pub failed-Behaves :
    (w : World) (status_code : ℤ) (e : GoError)
    → e.as_write ≡ false
    → Behaves w (record { world = w; status_code = status_code; error = some e })
failed-Behaves w status_code e plain = record {
  selector = refl;
  counters = λ name. SameCounters-refl (stats_of w.stats name);
  reply = λ fresh. ((λ writes. cc), (λ h. fresh));
}

pub first_status-answers : (o : Option ℤ) (code : ℤ) → first_status o code ≢ none
first_status-answers none code e = cc
first_status-answers (some c) code e = cc

pub status-Written :
    (w : World) (status_code : ℤ) → Written w (respond (write_header status_code) w)
unfolding write_header
status-Written w status_code = record {
  selector = refl;
  counters = λ name. SameCounters-refl (stats_of w.stats name);
  answered = first_status-answers w.response.status status_code;
}

pub body-Written :
    {w w' : World} → Written w w' → (chunk : Bytes) → Written w (respond (write (raw chunk)) w')
unfolding write write_header
body-Written {w} {w'} k chunk = record {
  selector = k.selector;
  counters = k.counters;
  answered = first_status-answers w'.response.status (pos 200);
}

pub count-Written :
    {w w' : World} (name : Bytes) (f : ProviderStats → ProviderStats)
    → Written w w'
    → ((ps : ProviderStats) → SameCounters ps (f ps))
    → Written w (count (update name f) w')
count-Written {w} {w'} name f k h = record {
  selector = k.selector;
  counters =
      λ asked. SameCounters-trans (k.counters asked) (update-SameAll w'.stats name f h asked);
  answered = k.answered;
}

pub finished-Behaves :
    {w w' : World} (name : Bytes) (status_code written : ℤ)
    → Written w w'
    → Behaves w (finished name status_code written w')
unfolding finished
finished-Behaves {w} {w'} name status_code written k =
    let k' =
      count-Written name _ k
        (λ ps. record { active = refl; total = refl; success = refl; error = refl }) in
    record { selector = k'.selector; counters = k'.counters; reply = λ fresh. k'.answered }

pub finish_write-Behaves :
    {w w' : World} (name : Bytes) (status_code written : ℤ) (e : Option GoError)
    → Written w w'
    → Behaves w (finish_write name status_code written e w')
finish_write-Behaves name status_code written none k = finished-Behaves name status_code written k
finish_write-Behaves name status_code written (some e) k = record {
  selector = k.selector;
  counters = k.counters;
  reply = λ fresh. ((λ writes. k.answered), (λ h. cc));
}

pub write_body-Behaves :
    {w w' : World} (ex : Exchange) (name : Bytes) (status_code : ℤ) (body : Bytes)
    (broken : Option GoError)
    → Written w w'
    → Behaves w (write_body ex name status_code body broken w')
unfolding write_body
write_body-Behaves ex name status_code body broken k =
    finish_write-Behaves name status_code _ _ (body-Written k _)

pub Calm-Written : {w w' w'' : World} → Calm w w' → Written w' w'' → Written w w''
Calm-Written calm k = record {
  selector = k.selector ∙ calm.selector;
  counters = λ name. SameCounters-trans (calm.counters name) (k.counters name);
  answered = k.answered;
}

-- Behind changes to the header, the status is written.
pub header_status-Written :
    (w : World) (f : Header → Header) (status_code : ℤ)
    → let resp = w.response in
      Written w (
        respond
          (write_header status_code)
          (record w { response = record resp { header = f resp.header } }))
header_status-Written w f status_code = Calm-Written (same-Calm w f) (status-Written _ status_code)
