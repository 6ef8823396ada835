-- ===== src/Signals/Loops/Kinds.antt =====
-- The different arguments of a run, counted.
use plano.Prelude.{
  ℕ, ◌+◌, ◌≤◌, Bool, true, false, ◌||◌, List, [], ◌∷◌, ◌++◌, ◌≡◌, ◌∙◌, append-nil, refl, ap, arith,
  length, length-append, any, String, str_eq, eq_iff, Bool-cases, inl, inr, sym,
}
use plano.Signals.Loops.{ToolCall, unique_args}

abbrev pub has : List String → String → Bool
has texts t = any (λ a. str_eq a t) texts

abbrev pub Distinct : List String → Type 0
Distinct [] = Unit
Distinct (t ∷ texts) = (has texts t ≡ false) × Distinct texts

abbrev pub arguments : {D : Type 0} → List (ToolCall D) → List String
arguments [] = []
arguments (c ∷ cs) = c.args ∷ arguments cs

-- The texts, each once, and their number.
pub record Kinds (texts : List String) (count : ℕ) : Type 0 where
  pub kinds : List String
  pub distinct : Distinct kinds
  pub same : (t : String) → has kinds t ≡ has texts t
  pub counted : length kinds ≡ count

str_eq_comm : (s t : String) → str_eq s t ≡ str_eq t s
str_eq_comm s t = elim (Bool-cases (str_eq s t)) [
  | inl e ↦ elim (Bool-cases (str_eq t s)) [
    | inl f ↦ e ∙ sym f
    | inr f ↦ e ∙ sym ((eq_iff t s).1 (sym ((eq_iff s t).0 e)))
  ]
  | inr e ↦ elim (Bool-cases (str_eq t s)) [
    | inl f ↦ sym (f ∙ sym ((eq_iff s t).1 (sym ((eq_iff t s).0 f))))
    | inr f ↦ e ∙ sym f
  ]
]

has-append : (xs ys : List String) (t : String) → has (xs ++ ys) t ≡ has xs t || has ys t
has-append [] ys t = refl
has-append (x ∷ xs) ys t = ground (arith, has-append xs ys t)

append-cons :
    (xs : List String) (y : String) (zs : List String) → xs ++ y ∷ zs ≡ (xs ++ y ∷ []) ++ zs
append-cons [] y zs = refl
append-cons (x ∷ xs) y zs = ap (λ l. x ∷ l) (append-cons xs y zs)

has-old : (xs : List String) (a t : String) → has xs a ≡ true → has xs t ≡ has (xs ++ a ∷ []) t
has-old xs a t h = elim (Bool-cases (str_eq a t)) [
  | inl same ↦ ground (arith, has-append xs (a ∷ []) t, h, same, ap (has xs) ((eq_iff a t).0 same))
  | inr other ↦ ground (arith, has-append xs (a ∷ []) t, other)
]

Distinct-snoc :
    (texts : List String) (t : String)
    → Distinct texts
    → has texts t ≡ false
    → Distinct (texts ++ t ∷ [])
Distinct-snoc [] t h p = (refl, tt)
Distinct-snoc (s ∷ texts) t (h, hs) p = (
  ground (arith, has-append texts (t ∷ []) s, str_eq_comm s t, h, p),
  Distinct-snoc texts t hs (ground (arith, p)),
)

pub unique_args-Kinds :
    {D : Type 0} (seen texts : List String) (count : ℕ) (run : List (ToolCall D))
    → Distinct seen
    → ((t : String) → has seen t ≡ has texts t)
    → length seen ≡ count
    → Kinds (texts ++ arguments run) (unique_args seen count run)
unfolding unique_args
unique_args-Kinds seen texts count [] h e n = record {
  kinds = seen;
  distinct = h;
  same = λ t. e t ∙ ap (λ l. has l t) (sym (append-nil texts));
  counted = n;
}
unique_args-Kinds seen texts count (c ∷ run) h e n = elim (Bool-cases (has seen c.args)) [
  | inl old ↦
      rw (old, append-cons texts c.args (arguments run))
        (unique_args-Kinds seen (texts ++ c.args ∷ []) count run h
          (λ t. e t ∙ has-old texts c.args t (sym (e c.args) ∙ old)) n)
  | inr new ↦
      rw (new, append-cons texts c.args (arguments run))
        (unique_args-Kinds (seen ++ c.args ∷ []) (texts ++ c.args ∷ []) (count + 1) run
          (Distinct-snoc seen c.args h new)
          (λ t.
            ground (arith, has-append seen (c.args ∷ []) t, has-append texts (c.args ∷ []) t, e t))
          (ground (arith, length-append seen (c.args ∷ []), n)))
]

pub unique_args-grows :
    {D : Type 0} (seen : List String) (count : ℕ) (run : List (ToolCall D))
    → count ≤ unique_args seen count run
unfolding unique_args
unique_args-grows seen count [] = omega arith
unique_args-grows seen count (c ∷ run) = ground (
  arith,
  unique_args-grows seen count run,
  unique_args-grows (seen ++ c.args ∷ []) (count + 1) run,
)
