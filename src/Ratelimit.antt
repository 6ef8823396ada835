-- ===== src/Ratelimit.antt =====
-- The token limits of models: crates/common/src/ratelimit.rs and its configuration.
pub mod Selectors
pub mod Checks
mod Examples
use mathlib.Core.Option
use plano.Prelude.{
  ℕ, ◌/◌, max, ◌==◌, Bool, true, false, ◌&&◌, Option, none, some, List, [], ◌∷◌, ◌≡◌, refl, ap,
  arith, String, str_eq, eq_refl, eq_iff, Key, string_key, get, insert, if◌then◌else◌,
}

pub data TimeUnit : Type 0 where
  second : TimeUnit
  minute : TimeUnit
  hour : TimeUnit
  day : TimeUnit

pub record Limit : Type 0 where
  pub tokens : ℕ
  pub unit : TimeUnit

-- `configuration::Header`: without a value it stands for every value.
pub record ConfigHeader : Type 0 where
  pub key : String
  pub value : Option String

pub record Ratelimit : Type 0 where
  pub model : String
  pub selector : ConfigHeader
  pub limit : Limit

pub record Header : Type 0 where
  pub key : String
  pub value : String

-- The derived equality of `configuration::Header`.
abbrev pub same_value : Option String → Option String → Bool
same_value none none = true
same_value none (some t) = false
same_value (some s) none = false
same_value (some s) (some t) = str_eq s t

abbrev pub same_header : ConfigHeader → ConfigHeader → Bool
same_header g h = str_eq g.key h.key && same_value g.value h.value

pub same_value_refl : (v : Option String) → same_value v v ≡ true
same_value_refl none = refl
same_value_refl (some s) = eq_refl s

pub same_value-path : (v w : Option String) → same_value v w ≡ true → v ≡ w
same_value-path none none h = refl
same_value-path none (some t) h = absurd (ground (arith, h))
same_value-path (some s) none h = absurd (ground (arith, h))
same_value-path (some s) (some t) h = ap some ((eq_iff s t).0 h)

pub same_header-path : (g h : ConfigHeader) → same_header g h ≡ true → g ≡ h
same_header-path g h e =
    let keys : g.key ≡ h.key = (eq_iff g.key h.key).0 (ground (arith, e)) in
    let values : g.value ≡ h.value = same_value-path g.value h.value (ground (arith, e)) in cc

pub same_header_refl : (h : ConfigHeader) → same_header h h ≡ true
same_header_refl h = ground (arith, eq_refl h.key, same_value_refl h.value)

instance abbrev pub header_key : Key ConfigHeader
header_key = record {
  key_eq = same_header;
  key_eq-refl = same_header_refl;
  key_eq-path = same_header-path;
}

-- What a check answers: `Ok(Ok(()))`, `Ok(Err(_))` and `Err(InsufficientCapacity(_))`.
pub data Outcome : Type 0 where
  allowed : Outcome
  not_yet : Outcome
  insufficient_capacity : Outcome

-- What the code uses of the crate governor. A check at a time takes tokens of a key.
pub record Governor : Type 1 where
  pub Quota : Type 0
  pub Limiter : Type 0
  pub per_second : ℕ → Quota
  pub per_minute : ℕ → Quota
  pub per_hour : ℕ → Quota
  pub keyed : Quota → Limiter
  pub check_key_n : ℕ → Limiter → String → ℕ → Outcome × Limiter

pub data Error : Type 0 where
  exceeded_limit : String → Header → ℕ → Error

-- The selector for the value of a header, and the one for every value.
abbrev pub specific : Header → ConfigHeader
specific h = record { key = h.key; value = some h.value }

abbrev pub general : Header → ConfigHeader
general h = record { key = h.key; value = none }

module _ (g : Governor) where
  abbrev pub quota_of : ℕ → TimeUnit → g.Quota
  quota_of tokens second = g.per_second tokens
  quota_of tokens minute = g.per_minute tokens
  quota_of tokens hour = g.per_hour tokens
  quota_of tokens day = g.per_hour (max (tokens / 24) 1)

  -- `none` is the panic of `expect`.
  unfoldable pub get_quota : Limit → Option g.Quota
  get_quota limit = if limit.tokens == 0 then none else some (quota_of limit.tokens limit.unit)

  abbrev pub Limits : Type 0
  Limits = List (ConfigHeader × g.Limiter)

  -- The field `datastore` of `RatelimitMap`.
  abbrev pub Datastore : Type 0
  Datastore = List (String × Limits)

  -- The inner match of `new`: what is configured under the selector, if anything.
  abbrev pub add_selector : Option g.Limiter → Limits → ConfigHeader → g.Limiter → Limits
  add_selector (some old) limits selector limit = limits
  add_selector none limits selector limit = insert limits selector limit

  -- The outer match of `new`: the limits of the model, if any, as they are after the round.
  abbrev pub add_to_model : Option Limits → ConfigHeader → g.Limiter → Limits
  add_to_model (some limits) selector limit =
      add_selector (get limits selector) limits selector limit
  add_to_model none selector limit = (selector, limit) ∷ []

  -- A round of the loop of `new`, after the limiter is made.
  unfoldable pub add_limit : Datastore → Ratelimit → g.Limiter → Datastore
  add_limit store config limit =
      insert store config.model (add_to_model (get store config.model) config.selector limit)

  unfoldable pub new_from : Datastore → List Ratelimit → Option Datastore
  new_from store [] = some store
  new_from store (config ∷ configs) =
      Option.bind (get_quota config.limit)
        (λ quota. new_from (add_limit store config (g.keyed quota)) configs)

  unfoldable pub new : List Ratelimit → Option Datastore
  new configs = new_from [] configs

  -- The selector that a header falls under, its limiter, and the key within it.
  abbrev pub Found : Type 0
  Found = ConfigHeader × (g.Limiter × String)

  abbrev pub or_general : Option g.Limiter → Limits → Header → Option Found
  or_general (some limit) limits h = some (specific h, (limit, ""))
  or_general none limits h =
      Option.map (λ limit. (general h, (limit, h.value))) (get limits (general h))

  unfoldable pub find_limit : Limits → Header → Option Found
  find_limit limits h = or_general (get limits (specific h)) limits h

  abbrev pub answer : Outcome → String → Header → ℕ → Option Error
  answer allowed provider selector tokens_used = none
  answer not_yet provider selector tokens_used = some (exceeded_limit provider selector tokens_used)
  answer insufficient_capacity provider selector tokens_used =
      some (exceeded_limit provider selector tokens_used)

  -- The call of `check_key_n`: the error, if any, and the datastore with the limiter that was asked.
  abbrev pub ask :
      ℕ → Datastore → Limits → String → Header → ℕ → Option Found → Option Error × Datastore
  ask now store limits provider selector tokens_used none = (none, store)
  ask now store limits provider selector tokens_used (some (used, (limit, key))) =
      let r = g.check_key_n now limit key tokens_used in
      (answer (r.0) provider selector tokens_used, insert store provider (insert limits used (r.1)))

  abbrev pub check_limits :
      ℕ → Datastore → Option Limits → String → Header → ℕ → Option Error × Datastore
  check_limits now store none provider selector tokens_used = (none, store)
  check_limits now store (some limits) provider selector tokens_used =
      ask now store limits provider selector tokens_used (find_limit limits selector)

  unfoldable pub check_limit : ℕ → Datastore → String → Header → ℕ → Option Error × Datastore
  check_limit now store provider selector tokens_used =
      check_limits now store (get store provider) provider selector tokens_used
