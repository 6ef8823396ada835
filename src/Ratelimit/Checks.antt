-- ===== src/Ratelimit/Checks.antt =====
-- What a check answers, and which limiters it changes.
use mathlib.Core.Option
use plano.Prelude.{
  ℕ, Bool, true, false, if◌then◌else◌, ◌&&◌, Option, none, some, List, ◌≡◌, ◌∙◌, refl, sym, ap,
  arith, String, str_eq, eq_iff, get, insert, get-insert_at, string_key, Bool-cases, Option-cases,
  inl, inr,
}
use plano.Ratelimit.{
  ConfigHeader, Header, Ratelimit, Governor, Error, same_header, header_key, Datastore, Limits,
  Found, new, specific, general, or_general, find_limit, check_limit, ask, answer, Outcome, allowed,
  not_yet, insufficient_capacity, exceeded_limit,
}
use plano.Ratelimit.Selectors.{configured, limiter_at, fresh, new-first_wins, new-quota}

-- The configured limit for a header, and the key within it: the limit for its very value, shared,
-- or the one for every value, with a key for each.
abbrev pub or_for_every_value :
    Option Ratelimit → List Ratelimit → String → Header → Option (Ratelimit × String)
or_for_every_value (some r) configs model h = some (r, "")
or_for_every_value none configs model h =
    Option.map (λ r. (r, h.value)) (configured configs model (general h))

abbrev pub applicable : List Ratelimit → String → Header → Option (Ratelimit × String)
applicable configs model h =
    or_for_every_value (configured configs model (specific h)) configs model h

module _ (g : Governor) where
  -- The answer of an unused limiter of the limit that applies, as the code puts it.
  abbrev answered : ℕ → String → Header → ℕ → Option (Ratelimit × String) → Option Error
  answered now model h tokens none = none
  answered now model h tokens (some (r, key)) =
      Option.bind (fresh g r)
        (λ limit. answer g ((g.check_key_n now limit key tokens).0) model h tokens)

  abbrev pub is_allowed : Outcome → Bool
  is_allowed allowed = true
  is_allowed _ = false

  -- The tokens are refused unless an unused limiter of the limit that applies allows them.
  abbrev pub verdict : ℕ → String → Header → ℕ → Option (Ratelimit × String) → Option Error
  verdict now model h tokens none = none
  verdict now model h tokens (some (r, key)) = Option.bind (fresh g r) (λ limit.
      if is_allowed ((g.check_key_n now limit key tokens).0)
      then none
      else some (exceeded_limit model h tokens))

  answer_lem :
      (o : Outcome) (model : String) (h : Header) (tokens : ℕ)
      → answer g o model h tokens
        ≡ (if is_allowed o then none else some (exceeded_limit model h tokens))
  answer_lem allowed model h tokens = refl
  answer_lem not_yet model h tokens = refl
  answer_lem insufficient_capacity model h tokens = refl

  fresh_answer_lem :
      (now : ℕ) (model : String) (h : Header) (tokens : ℕ) (key : String)
      (unused : Option g.Limiter)
      → Option.bind unused
          (λ limit. answer g ((g.check_key_n now limit key tokens).0) model h tokens)
        ≡ Option.bind unused (λ limit.
          if is_allowed ((g.check_key_n now limit key tokens).0)
          then none
          else some (exceeded_limit model h tokens))
  unfolding Option.bind
  fresh_answer_lem now model h tokens key none = refl
  fresh_answer_lem now model h tokens key (some limit) =
      answer_lem ((g.check_key_n now limit key tokens).0) model h tokens

  answered-verdict :
      (now : ℕ) (model : String) (h : Header) (tokens : ℕ) (limit : Option (Ratelimit × String))
      → answered now model h tokens limit ≡ verdict now model h tokens limit
  answered-verdict now model h tokens none = refl
  answered-verdict now model h tokens (some (r, key)) =
      fresh_answer_lem now model h tokens key (fresh g r)

  -- What `check_limit` finds.
  abbrev pub found_at : Datastore g → String → Header → Option (Found g)
  found_at store model h = Option.bind (get store model) (λ limits. find_limit g limits h)

  abbrev pub is_used : Option (Found g) → ConfigHeader → Bool
  is_used none s = false
  is_used (some (used, rest)) s = same_header used s

  -- A check leaves every limiter alone but that of its model and of the selector it falls under.
  pub check_limit-others :
      (now : ℕ) (store : Datastore g) (model : String) (h : Header) (tokens : ℕ) (m : String)
      (s : ConfigHeader)
      → str_eq model m && is_used (found_at store model h) s ≡ false
      → limiter_at g ((check_limit g now store model h tokens).1) m s ≡ limiter_at g store m s
  unfolding check_limit Option.bind
  check_limit-others now store model h tokens m s other = elim (Option-cases (get store model)) [
    | inl missing ↦ rw missing refl
    | inr (limits, known) ↦ elim (Option-cases (find_limit g limits h)) [
      | inl nothing ↦ rw (known, nothing) refl
      | inr ((used, (limit, key)), found) ↦
          rw (known, found)
            (rw
              (get-insert_at store model
                (insert limits used ((g.check_key_n now limit key tokens).1)) m)
              (elim (Bool-cases (str_eq model m)) [
                | inl same ↦
                    let at : found_at store model h ≡ some (used, (limit, key)) =
                      rw (known, found) refl in
                    let apart : same_header used s ≡ false =
                      ap (λ o. is_used o s) (sym at) ∙ ground (arith, other, same) in
                    let kept : get store m ≡ some limits =
                      ap (get store) (sym ((eq_iff model m).0 same)) ∙ known in
                    rw
                      (
                        same,
                        kept,
                        get-insert_at limits used ((g.check_key_n now limit key tokens).1) s,
                        apart,
                      )
                      refl
                | inr apart ↦ rw apart refl
              ]))
    ]
  ]

  -- The limiter asked and the key within it, given those for the value and for every value.
  abbrev either : Option g.Limiter → Option g.Limiter → Header → Option (g.Limiter × String)
  either (some limit) general_limit h = some (limit, "")
  either none general_limit h = Option.map (λ limit. (limit, h.value)) general_limit

  abbrev reply : ℕ → String → Header → ℕ → Option (g.Limiter × String) → Option Error
  reply now model h tokens none = none
  reply now model h tokens (some (limit, key)) =
      answer g ((g.check_key_n now limit key tokens).0) model h tokens

  ask-reply :
      (now : ℕ) (store : Datastore g) (limits : Limits g) (model : String) (h : Header) (tokens : ℕ)
      (o : Option g.Limiter)
      → (ask g now store limits model h tokens (or_general g o limits h)).0
        ≡ reply now model h tokens (either o (get limits (general h)) h)
  ask-reply now store limits model h tokens (some limit) = refl
  ask-reply now store limits model h tokens none = elim (Option-cases (get limits (general h))) [
    | inl missing ↦ rw missing refl
    | inr (limit, known) ↦ rw known refl
  ]

  check_limit-reply :
      (now : ℕ) (store : Datastore g) (model : String) (h : Header) (tokens : ℕ)
      → (check_limit g now store model h tokens).0
        ≡ reply now model h tokens (
            either (limiter_at g store model (specific h)) (limiter_at g store model (general h)) h)
  unfolding check_limit find_limit Option.bind
  check_limit-reply now store model h tokens = elim (Option-cases (get store model)) [
    | inl missing ↦ rw missing refl
    | inr (limits, known) ↦
        rw known (ask-reply now store limits model h tokens (get limits (specific h)))
  ]

  check_limit-answered :
      (configs : List Ratelimit) (made : Datastore g) (now : ℕ) (model : String) (h : Header)
      (tokens : ℕ)
      → new g configs ≡ some made
      → (check_limit g now made model h tokens).0
        ≡ answered now model h tokens (applicable configs model h)
  unfolding Option.bind
  check_limit-answered configs made now model h tokens start =
      check_limit-reply now made model h tokens
      ∙ rw
          (
            new-first_wins g configs made model (specific h) start,
            new-first_wins g configs made model (general h) start,
          )
          (elim (Option-cases (configured configs model (specific h))) [
            | inl none_specific ↦ elim (Option-cases (configured configs model (general h))) [
              | inl nothing ↦ rw (none_specific, nothing) refl
              | inr (r, found) ↦
                  let (limit, made_of) = new-quota g configs made start model (general h) r found in
                  rw (none_specific, found, made_of) refl
            ]
            | inr (r, found) ↦
                let (limit, made_of) = new-quota g configs made start model (specific h) r found in
                rw (found, made_of) refl
          ])

  -- The answer to the first check after a start follows the configuration: an error with the model,
  -- the header and the tokens exactly if a limit applies to the header and an unused limiter of it
  -- does not allow the tokens, whether for now or at all.
  pub check_limit-verdict :
      (configs : List Ratelimit) (made : Datastore g) (now : ℕ) (model : String) (h : Header)
      (tokens : ℕ)
      → new g configs ≡ some made
      → (check_limit g now made model h tokens).0
        ≡ verdict now model h tokens (applicable configs model h)
  check_limit-verdict configs made now model h tokens start =
      check_limit-answered configs made now model h tokens start
      ∙ answered-verdict now model h tokens (applicable configs model h)
