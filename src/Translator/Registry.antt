-- ===== src/Translator/Registry.antt =====
-- internal/translator/types.go and registry.go: the table of translators, by the names of the two
-- formats. A panic is an error of its own; the lock makes each operation one step.
use ai_proxy_pool.Base.{
  ◌≡◌, refl, sym, ap, ◌∙◌, arith, Bool, true, false, ◌&&◌, ◌||◌, List, [], ◌∷◌, Option, none, some,
  inl, inr, if◌then◌else◌, Bool-cases, Option-cases,
}
use ai_proxy_pool.Base.Result.{Result, ok, err}
use ai_proxy_pool.Base.Text.{
  Bytes, codes, equal_fold, str_eq, str_eq→eq, str_eq_refl, to_lower, trim_space,
}
use ai_proxy_pool.Translator.Values.{is_none}

abbrev pub api_claude : Bytes
api_claude = codes "claude"

abbrev pub api_codex : Bytes
api_codex = codes "codex"

pub record TranslateRequest : Type 0 where
  pub model : Bytes
  pub path : Bytes
  pub body : Bytes
  pub stream : Bool

pub record TranslateResult : Type 0 where
  pub model : Bytes
  pub path : Bytes
  pub body : Bytes

-- The errors of a translation, without their texts.
pub data TranslateError : Type 0 where
  decode_failed : TranslateError
  encode_failed : TranslateError
  missing_model : TranslateError
  missing_usage : TranslateError
  missing_input_tokens : TranslateError

abbrev pub RequestTranslator : Type 0
RequestTranslator = TranslateRequest → Result TranslateError TranslateResult

pub record PairKey : Type 0 where
  pub from : Bytes
  pub to : Bytes

abbrev pub Registry : Type 0
Registry = List (PairKey × RequestTranslator)

unfoldable pub normalize_api : Bytes → Bytes
unfolding to_lower trim_space
normalize_api v = to_lower (trim_space v)

unfoldable pub key_of : Bytes → Bytes → PairKey
unfolding normalize_api
key_of from to = record { from = normalize_api from; to = normalize_api to }

abbrev pub same_key : PairKey → PairKey → Bool
same_key a b = str_eq a.from b.from && str_eq a.to b.to

unfoldable pub translator_for : PairKey → Registry → Option RequestTranslator
unfolding str_eq
translator_for key [] = none
translator_for key ((k, fn) ∷ registry) =
    if same_key k key then some fn else translator_for key registry

pub data RegisterError : Type 0 where
  nil_translator : RegisterError
  empty_api : RegisterError
  already_registered : PairKey → RegisterError

-- Adds the translator for a key that has none.
abbrev add_translator :
    PairKey
    → RequestTranslator
    → Registry
    → Option RequestTranslator
    → Result RegisterError Registry
add_translator key fn registry none = ok ((key, fn) ∷ registry)
add_translator key fn registry (some _) = err (already_registered key)

unfoldable pub register :
    Bytes → Bytes → Option RequestTranslator → Registry → Result RegisterError Registry
unfolding key_of translator_for
register from to none registry = err nil_translator
register from to (some fn) registry =
    let key = key_of from to in
    if is_none key.from || is_none key.to
    then err empty_api
    else add_translator key fn registry (translator_for key registry)

abbrev pub run_translator :
    TranslateRequest → Option RequestTranslator → Result TranslateError (Option TranslateResult)
run_translator req none = ok none
run_translator req (some fn) = elim (fn req) [ err e ↦ err e | ok out ↦ ok (some out) ]

-- `Translate`: none where no translator is registered for the pair.
unfoldable pub translate :
    Registry → Bytes → Bytes → TranslateRequest → Result TranslateError (Option TranslateResult)
unfolding key_of translator_for
translate registry from to req = run_translator req (translator_for (key_of from to) registry)

register-ok :
    (from to : Bytes) (fn : RequestTranslator) (registry : Registry) {registry' : Registry}
    → register from to (some fn) registry ≡ ok registry'
    → ((is_none (key_of from to).from || is_none (key_of from to).to) ≡ false)
      × (registry' ≡ (key_of from to, fn) ∷ registry)
unfolding register
register-ok from to fn registry h =
    let key = key_of from to in
    elim (Bool-cases (is_none key.from || is_none key.to)) [
      | inl blank ↦ cc (rw (blank, register) at h)
      | inr named ↦ elim (Option-cases (translator_for key registry)) [
        | inl free ↦ (named, cc (rw (named, free, register) at h))
        | inr (old, taken) ↦ cc (rw (named, taken, register) at h)
      ]
    ]

-- Two spellings of a format: the same name but for letter case and for white space around it.
abbrev pub is_spelling : Bytes → Bytes → Bool
is_spelling v v' = equal_fold (trim_space v) (trim_space v')

same_key-spelling :
    (from to from' to' : Bytes)
    → same_key (key_of from to) (key_of from' to') ≡ (is_spelling from from' && is_spelling to to')
unfolding key_of normalize_api equal_fold
same_key-spelling from to from' to' = refl

abbrev pair : Bytes → Bytes → PairKey
pair from to = record { from = from; to = to }

same_key→eq : (k k' : PairKey) → same_key k k' ≡ true → k ≡ k'
same_key→eq k k' h =
    ap (λ f. pair f k.to) (str_eq→eq k.from k'.from (ground (arith, h)))
    ∙ ap (λ t. pair k'.from t) (str_eq→eq k.to k'.to (ground (arith, h)))

translate_cons :
    (from to : Bytes) (fn : RequestTranslator) (registry : Registry) (from' to' : Bytes)
    (req : TranslateRequest)
    → translate ((key_of from to, fn) ∷ registry) from' to' req ≡ (
        if is_spelling from from' && is_spelling to to'
        then run_translator req (some fn)
        else translate registry from' to' req)
unfolding translate translator_for
translate_cons from to fn registry from' to' req =
    elim (Bool-cases (same_key (key_of from to) (key_of from' to'))) [
      | inl same ↦ rw (← same_key-spelling from to from' to', same) refl
      | inr other ↦ rw (← same_key-spelling from to from' to', other) refl
    ]

-- What `register` does with a key.
abbrev register_key : PairKey → RequestTranslator → Registry → Result RegisterError Registry
register_key key fn registry =
    if is_none key.from || is_none key.to
    then err empty_api
    else add_translator key fn registry (translator_for key registry)

register_key-again :
    (key : PairKey) (fn other : RequestTranslator) (registry : Registry)
    → (is_none key.from || is_none key.to) ≡ false
    → register_key key other ((key, fn) ∷ registry) ≡ err (already_registered key)
unfolding translator_for
register_key-again key fn other registry named =
    rw (named, str_eq_refl key.from, str_eq_refl key.to) refl

register-again :
    (from to : Bytes) (fn other : RequestTranslator) (registry : Registry) (from' to' : Bytes)
    → (is_none (key_of from to).from || is_none (key_of from to).to) ≡ false
    → (is_spelling from from' && is_spelling to to') ≡ true
    → register from' to' (some other) ((key_of from to, fn) ∷ registry)
      ≡ err (already_registered (key_of from to))
unfolding register
register-again from to fn other registry from' to' named spelled =
    let same = same_key-spelling from to from' to' ∙ spelled in
    ap (λ k. register_key k other ((key_of from to, fn) ∷ registry))
      (sym (same_key→eq (key_of from to) (key_of from' to') same))
    ∙ register_key-again (key_of from to) fn other registry named

-- What a registration that succeeds leaves: the translator runs for every pair that is spelled like
-- its own but for letter case and for white space around a name, and any other pair is translated
-- as before.
pub translate-register :
    (from to : Bytes) (fn : RequestTranslator) (registry : Registry) {registry' : Registry}
    → register from to (some fn) registry ≡ ok registry'
    → (from' to' : Bytes) (req : TranslateRequest)
    → translate registry' from' to' req ≡ (
        if is_spelling from from' && is_spelling to to'
        then run_translator req (some fn)
        else translate registry from' to' req)
translate-register from to fn registry h from' to' req =
    rw ((register-ok from to fn registry h).1) (translate_cons from to fn registry from' to' req)

-- No pair gets a second translator: behind a registration that succeeds, another one under any
-- spelling of its pair, but for letter case and white space around a name, is refused.
pub register-register :
    (from to : Bytes) (fn : RequestTranslator) (registry : Registry) {registry' : Registry}
    → register from to (some fn) registry ≡ ok registry'
    → (from' to' : Bytes) (other : RequestTranslator)
    → (is_spelling from from' && is_spelling to to') ≡ true
    → register from' to' (some other) registry' ≡ err (already_registered (key_of from to))
register-register from to fn registry h from' to' other spelled =
    let (named, added) = register-ok from to fn registry h in
    rw added (register-again from to fn other registry from' to' named spelled)
