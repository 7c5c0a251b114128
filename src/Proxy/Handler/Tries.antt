-- ===== src/Proxy/Handler/Tries.antt =====
-- The states of the loop, and the providers tried on the way to them.
use ai_proxy_pool.Base.{
  ℕ, suc, ◌+◌, All, map, true, ◌≡◌, refl, sym, ap, ◌∙◌, false, List, [], ◌∷◌, ◌++◌, arith, length,
}
use mathlib.Core.Path.{subst}
use mathlib.Core.List.{append_assoc, append-nil}
use ai_proxy_pool.Base.Float.{Float}
use ai_proxy_pool.Base.Regexp.{Regexp}
use ai_proxy_pool.Base.Text.{Bytes}
use ai_proxy_pool.Base.Dict.{contains}
use ai_proxy_pool.Config.{Config, ProviderConfig, enabled_or_default}
use ai_proxy_pool.Router.{SelectionInput}
use ai_proxy_pool.Router.Invariant.{IsWf}
use ai_proxy_pool.Proxy.World.{World, Attempt}
use ai_proxy_pool.Proxy.Handler.{Upstream, LoopState, again, round}
use ai_proxy_pool.Proxy.Handler.Rounds.{KeepsSelector, round-again, round-alone}

-- Names that differ from each other and from those of a list.
unfoldable pub IsFresh : List Bytes → List Bytes → Type 0
IsFresh out [] = Unit
IsFresh out (n ∷ names) = (contains n out ≡ false) × IsFresh (out ++ n ∷ []) names

IsFresh-snoc :
    (out names : List Bytes) (n : Bytes)
    → IsFresh out names
    → contains n (out ++ names) ≡ false
    → IsFresh out (names ++ n ∷ [])
unfolding IsFresh
IsFresh-snoc out [] n h e = (subst (λ l. contains n l ≡ false) (append-nil out) e, tt)
IsFresh-snoc out (m ∷ names) n (h, hs) e = (
  h,
  IsFresh-snoc (out ++ m ∷ []) names n hs
      (subst (λ l. contains n l ≡ false) (sym (append_assoc out (m ∷ []) names)) e),
)

length-snoc :
    (ps : List ProviderConfig) (p : ProviderConfig) → length (ps ++ p ∷ []) ≡ suc (length ps)
length-snoc [] p = refl
length-snoc (q ∷ ps) p = omega (arith, length-snoc ps p)

map-snoc :
    (f : ProviderConfig → Bytes) (ps : List ProviderConfig) (p : ProviderConfig)
    → map f (ps ++ p ∷ []) ≡ map f ps ++ f p ∷ []
map-snoc f [] p = refl
map-snoc f (q ∷ ps) p = ap (λ l. f q ∷ l) (map-snoc f ps p)

All-snoc :
    (P : ProviderConfig → Type 0) (ps : List ProviderConfig) (p : ProviderConfig)
    → All P ps
    → P p
    → All P (ps ++ p ∷ [])
All-snoc P [] p hs h = (h, tt)
All-snoc P (q ∷ ps) p (h0, hs) h = (h0, All-snoc P ps p hs h)

-- Two upstream calls that agree on a provider for each attempt, from this attempt on.
unfoldable pub AgreesInTurn : Upstream → Upstream → ℕ → List ProviderConfig → Type 0
AgreesInTurn u u' attempt [] = Unit
AgreesInTurn u u' attempt (p ∷ ps) =
    ((w : World) (max : ℕ) → u w p attempt max ≡ u' w p attempt max)
    × AgreesInTurn u u' (suc attempt) ps

AgreesInTurn-snoc :
    (u u' : Upstream) (attempt last : ℕ) (ps : List ProviderConfig) (p : ProviderConfig)
    → last ≡ attempt + length ps
    → AgreesInTurn u u' attempt (ps ++ p ∷ [])
    → AgreesInTurn u u' attempt ps × ((w : World) (max : ℕ) → u w p last max ≡ u' w p last max)
unfolding AgreesInTurn
AgreesInTurn-snoc u u' attempt last [] p e (h, _) =
    let e' : last ≡ attempt = omega (arith, e) in (tt, λ w max. rw e' (h w max))
AgreesInTurn-snoc u u' attempt last (q ∷ ps) p e (h, hs) =
    let (before, at_last) = AgreesInTurn-snoc u u' (suc attempt) last ps p (omega (arith, e)) hs in
    ((h, before), at_last)

abbrev pub names_of : List ProviderConfig → List Bytes
names_of ps = map (λ p. p.name) ps

-- The states in which the loop comes to an attempt, by the attempt's number.
pub data Reaches (fl : Float) (re : Regexp) (cfg : Config) (upstream : Upstream)
    (base : SelectionInput) (env : ℕ → Attempt) (max : ℕ) (start : LoopState)
    : ℕ → LoopState → Type 0 where
  first : Reaches fl re cfg upstream base env max start 1 start
  further :
      {attempt : ℕ} {st st' : LoopState}
      → Reaches fl re cfg upstream base env max start attempt st
      → round fl re cfg upstream base (env attempt) attempt max st ≡ again st'
      → Reaches fl re cfg upstream base env max start (suc attempt) st'

module _ (fl : Float) (re : Regexp) (cfg : Config) (upstream : Upstream) (base : SelectionInput)
    (env : ℕ → Attempt) (max : ℕ) where
  -- What the loop keeps: one provider was tried for each attempt behind it. The upstream is called
  -- with no other: another upstream that does the same for the first of them in the first attempt,
  -- for the second in the second, and so on, comes to the same state. Each of them is enabled, each
  -- was tried once and none was excluded at the start, and their names are what is excluded since.
  pub record Progress (start : LoopState) (attempt : ℕ) (st : LoopState) : Type 0 where
    pub tried : List ProviderConfig
    pub number : attempt ≡ suc (length tried)
    pub alone :
        (other : Upstream)
        → AgreesInTurn upstream other 1 tried
        → Reaches fl re cfg other base env max start attempt st
    pub enabled : All (λ p. enabled_or_default p ≡ true) tried
    pub fresh : IsFresh start.excluded (names_of tried)
    pub excluded : st.excluded ≡ start.excluded ++ names_of tried
    pub selector : IsWf cfg.providers st.world.selector

  -- Whenever the loop comes to an attempt, it has called the upstream with one provider for each
  -- attempt before, no provider twice and none that was excluded at the start, for an open circuit;
  -- what is excluded now is what was at the start, and their names. The selector must be well formed
  -- at the start, and the upstream call must leave it alone.
  pub Reaches-Progress :
      (start : LoopState) (attempt : ℕ) (st : LoopState)
      → KeepsSelector upstream
      → IsWf cfg.providers start.world.selector
      → Reaches fl re cfg upstream base env max start attempt st
      → Progress start attempt st
  unfolding IsFresh
  Reaches-Progress start attempt st law wf first = record {
    tried = [];
    number = refl;
    alone = λ other agree. first;
    enabled = tt;
    fresh = tt;
    excluded = sym (append-nil start.excluded);
    selector = wf;
  }
  Reaches-Progress start attempt st' law wf (further {attempt = attempt'} {st = st} before step) =
      let so_far = Reaches-Progress start attempt' st law wf before in
      let last =
        round-again fl re cfg upstream law base (env attempt') attempt' max st so_far.selector
          step in
      let p = last.provider in
      let named = map-snoc (λ q. q.name) so_far.tried p in
      record {
        tried = so_far.tried ++ p ∷ [];
        number = ap suc (so_far.number ∙ sym (length-snoc so_far.tried p));
        alone = λ other agree.
            let (earlier, now) =
              AgreesInTurn-snoc upstream other 1 attempt' so_far.tried p
                (omega (arith, so_far.number)) agree in
            further (so_far.alone other earlier) (
              sym (
                round-alone fl re cfg upstream law other base (env attempt') attempt' max st p
                  last.selected (λ w. now w max))
              ∙ step);
        enabled = All-snoc _ so_far.tried p so_far.enabled last.eligible.enabled;
        fresh = rw named (
            IsFresh-snoc start.excluded (names_of so_far.tried) p.name so_far.fresh
              (subst (λ l. contains p.name l ≡ false) so_far.excluded last.eligible.allowed));
        excluded = rw named (
            last.excluded
            ∙ ap (λ l. l ++ p.name ∷ []) so_far.excluded
            ∙ append_assoc start.excluded (names_of so_far.tried) (p.name ∷ []));
        selector = last.selector;
      }
