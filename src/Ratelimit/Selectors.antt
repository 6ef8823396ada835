-- ===== src/Ratelimit/Selectors.antt =====
-- Which limiter a model and a selector have, after `new` and after a check.
use mathlib.Core.Option
use mathlib.Core.Option.{some-injective}
use plano.Prelude.{
  ◌==◌, true, ◌&&◌, Option, none, some, List, [], ◌∷◌, ◌≡◌, ◌∙◌, refl, sym, ap, arith, String, any,
  str_eq, eq_iff, string_key, get, get-insert_at, if◌then◌else◌, Bool-cases, Option-cases, inl, inr,
  ◌↔◌,
}
use plano.Ratelimit.{
  ConfigHeader, Ratelimit, Governor, same_header, same_header-path, header_key, get_quota,
  Datastore, Limits, add_selector, add_to_model, add_limit, new_from, new, quota_of,
}

-- The first configured limit for a model and a selector.
abbrev pub configured : List Ratelimit → String → ConfigHeader → Option Ratelimit
configured [] model selector = none
configured (c ∷ configs) model selector =
    if str_eq c.model model && same_header c.selector selector
    then some c
    else configured configs model selector

abbrev pub or_else : {A : Type 0} → Option A → Option A → Option A
or_else (some x) other = some x
or_else none other = other

or_else-none : {A : Type 0} (o : Option A) → o ≡ or_else o none
or_else-none none = refl
or_else-none (some x) = refl

or_else_assoc : {A : Type 0} (a b c : Option A) → or_else (or_else a b) c ≡ or_else a (or_else b c)
or_else_assoc none b c = refl
or_else_assoc (some x) b c = refl

module _ (g : Governor) where
  abbrev pub limiter_at : Datastore g → String → ConfigHeader → Option g.Limiter
  limiter_at store model selector = Option.bind (get store model) (λ limits. get limits selector)

  -- The limiter of a configured limit, as it is made.
  abbrev pub fresh : Ratelimit → Option g.Limiter
  fresh config = Option.map g.keyed (get_quota g config.limit)

  get-add_selector :
      (limits : Limits g) (selector : ConfigHeader) (limit : g.Limiter) (s : ConfigHeader)
      → get (add_selector g (get limits selector) limits selector limit) s
        ≡ or_else (get limits s) (if same_header selector s then some limit else none)
  get-add_selector limits selector limit s = elim (Option-cases (get limits selector)) [
    | inl missing ↦
        rw (missing, get-insert_at limits selector limit s)
          (elim (Bool-cases (same_header selector s)) [
            | inl same ↦
                rw (same, ap (get limits) (sym (same_header-path selector s same)) ∙ missing) refl
            | inr other ↦ rw other (or_else-none (get limits s))
          ])
    | inr (old, found) ↦ rw found (elim (Bool-cases (same_header selector s)) [
      | inl same ↦ rw (same, ap (get limits) (sym (same_header-path selector s same)) ∙ found) refl
      | inr other ↦ rw other (or_else-none (get limits s))
    ])
  ]

  get-add_to_model :
      (limits : Option (Limits g)) (selector : ConfigHeader) (limit : g.Limiter) (s : ConfigHeader)
      → get (add_to_model g limits selector limit) s
        ≡ or_else
            (Option.bind limits (λ l. get l s))
            (if same_header selector s then some limit else none)
  unfolding get Option.bind
  get-add_to_model (some limits) selector limit s = get-add_selector limits selector limit s
  get-add_to_model none selector limit s = refl

  limiter_at-add_limit :
      (store : Datastore g) (c : Ratelimit) (limit : g.Limiter) (m : String) (s : ConfigHeader)
      → limiter_at (add_limit g store c limit) m s
        ≡ or_else
            (limiter_at store m s)
            (if str_eq c.model m && same_header c.selector s then some limit else none)
  unfolding add_limit Option.bind
  limiter_at-add_limit store c limit m s =
      rw (get-insert_at store c.model (add_to_model g (get store c.model) c.selector limit) m)
        (elim (Bool-cases (str_eq c.model m)) [
          | inl same ↦
              rw
                (
                  same,
                  get-add_to_model (get store c.model) c.selector limit s,
                  (eq_iff c.model m).0 same,
                )
                refl
          | inr other ↦ rw other (or_else-none (limiter_at store m s))
        ])

  bind-some :
      {A B : Type 0} (o : Option A) (f : A → Option B) (b : B)
      → Option.bind o f ≡ some b
      → (a : A) × ((o ≡ some a) × (f a ≡ some b))
  unfolding Option.bind
  bind-some none f b h = absurd (ground (arith, h))
  bind-some (some a) f b h = (a, (refl, h))

  limiter_at-new_from :
      (store : Datastore g) (configs : List Ratelimit) (made : Datastore g)
      → new_from g store configs ≡ some made
      → (m : String) (s : ConfigHeader)
      → limiter_at made m s
        ≡ or_else (limiter_at store m s) (Option.bind (configured configs m s) fresh)
  unfolding new_from Option.bind
  limiter_at-new_from store [] made h m s =
      let same : store ≡ made = cc in
      ap (λ x. limiter_at x m s) (sym same) ∙ or_else-none (limiter_at store m s)
  limiter_at-new_from store (c ∷ configs) made h m s =
      let (quota, (known, rest)) = bind-some (get_quota g c.limit) _ made h in
      limiter_at-new_from (add_limit g store c (g.keyed quota)) configs made rest m s
      ∙ rw (limiter_at-add_limit store c (g.keyed quota) m s) (
          or_else_assoc (limiter_at store m s) _ _
          ∙ ap (or_else (limiter_at store m s))
              (elim (Bool-cases (str_eq c.model m && same_header c.selector s)) [
                | inl here ↦ rw (here, known) refl
                | inr elsewhere ↦ rw elsewhere refl
              ]))

  -- After a successful start, a model has exactly the configured selectors, and each has a limiter
  -- made from the first limit that the configuration has for that model and selector.
  pub new-first_wins :
      (configs : List Ratelimit) (made : Datastore g) (m : String) (s : ConfigHeader)
      → new g configs ≡ some made
      → limiter_at made m s ≡ Option.bind (configured configs m s) fresh
  unfolding new get Option.bind
  new-first_wins configs made m s h = limiter_at-new_from [] configs made h m s

  new_from-none_iff :
      (store : Datastore g) (configs : List Ratelimit)
      → (new_from g store configs ≡ none) ↔ (any (λ c. c.limit.tokens == 0) configs ≡ true)
  unfolding new_from get_quota Option.bind
  new_from-none_iff store [] = ground arith
  new_from-none_iff store (c ∷ configs) = elim (Bool-cases (c.limit.tokens == 0)) [
    | inl empty ↦ rw empty ground arith
    | inr some_left ↦ rw some_left (
        new_from-none_iff (add_limit g store c (g.keyed (quota_of g c.limit.tokens c.limit.unit)))
          configs)
  ]

  -- The start fails exactly if some configured limit has no tokens.
  pub new-none_iff :
      (configs : List Ratelimit)
      → (new g configs ≡ none) ↔ (any (λ c. c.limit.tokens == 0) configs ≡ true)
  unfolding new
  new-none_iff configs = new_from-none_iff [] configs

  first_configured :
      (configs : List Ratelimit) (c : Ratelimit) (m : String) (s : ConfigHeader)
      {found : Option Ratelimit}
      → str_eq c.model m && same_header c.selector s ≡ true
      → configured (c ∷ configs) m s ≡ found
      → some c ≡ found
  first_configured configs c m s here = rw here (λ e. e)

  new_from-quota :
      (store : Datastore g) (configs : List Ratelimit) (made : Datastore g)
      → new_from g store configs ≡ some made
      → (m : String) (s : ConfigHeader) (r : Ratelimit) → configured configs m s ≡ some r
      → (l : g.Limiter) × (fresh r ≡ some l)
  unfolding new_from
  new_from-quota store [] made h m s r e = absurd (ground (arith, e))
  new_from-quota store (c ∷ configs) made h m s r e =
      let (quota, (known, rest)) = bind-some (get_quota g c.limit) _ made h in
      elim (Bool-cases (str_eq c.model m && same_header c.selector s)) [
        | inl here ↦
            let first : c ≡ r = some-injective c r (first_configured configs c m s here e) in
            (g.keyed quota, ap fresh (sym first) ∙ rw known refl)
        | inr elsewhere ↦
            new_from-quota (add_limit g store c (g.keyed quota)) configs made rest m s r
              (ground (arith, e, elsewhere))
      ]

  pub new-quota :
      (configs : List Ratelimit) (made : Datastore g)
      → new g configs ≡ some made
      → (m : String) (s : ConfigHeader) (r : Ratelimit) → configured configs m s ≡ some r
      → (l : g.Limiter) × (fresh r ≡ some l)
  unfolding new
  new-quota configs made h = new_from-quota [] configs made h
