-- ===== src/Prelude/Splits.antt =====
-- Texts that are put together, under the tests and the cuts of `str`.
use Prim.Native.Nat.{ℕ}
use Prim.Native.String.{String}
use Prim.Native.Char.{Char, code}
use mathlib.Core.Path.{◌≡◌, refl, sym, ap, ◌∙◌, subst}
use mathlib.Core.Logic.{inl, inr}
use mathlib.Core.Bool.{true}
use mathlib.Core.Option.{Option, none, some}
use text.Mathlib.TextLemmas.{nil-append, cons-append, append-nil}
use plano.Prelude.Tests.{◌==◌, ==_iff, Bool-cases}
use plano.Prelude.Text.{◌<>◌, strip_prefix, starts_with, contains, cut_behind, split_once}

pub strip_prefix-append : (t s : String) → strip_prefix (t <> s) t ≡ some s
unfolding strip_prefix
strip_prefix-append String.[] s = rw (nil-append s) refl
strip_prefix-append (String.◌∷◌ c t) s =
    rw (cons-append c t s, (==_iff (code c) (code c)).1 refl) (strip_prefix-append t s)

pub starts_with-append : (t s : String) → starts_with (t <> s) t ≡ true
starts_with-append t s = rw (strip_prefix-append t s, starts_with) refl

pub contains_prefix : (u t : String) → starts_with u t ≡ true → contains u t ≡ true
unfolding contains
contains_prefix String.[] t h = h
contains_prefix (String.◌∷◌ c u) t h = rw h refl

pub contains_self : (t : String) → contains t t ≡ true
contains_self t =
    subst (λ u. contains u t ≡ true) (append-nil t)
      (contains_prefix (t <> "") t (starts_with-append t ""))

-- The cut of two texts is that of the first, if it has one.
abbrev pub rejoin :
    String → String → Option (String × String) → Option (String × String) → Option (String × String)
rejoin m s (some (before, after)) cut = some (before, after <> s)
rejoin m s none none = none
rejoin m s none (some (before, after)) = some (m <> before, after)

rejoin-nil : (s : String) (cut : Option (String × String)) → cut ≡ rejoin "" s none cut
rejoin-nil s none = refl
rejoin-nil s (some (before, after)) = ap (λ t. some (t, after)) (sym (nil-append before))

rejoin-cons :
    (c : Char) (m s : String) (first second : Option (String × String))
    → cut_behind c (rejoin m s first second) ≡ rejoin (String.◌∷◌ c m) s (cut_behind c first) second
rejoin-cons c m s (some (before, after)) second = refl
rejoin-cons c m s none none = refl
rejoin-cons c m s none (some (before, after)) =
    ap (λ t. some (t, after)) (sym (cons-append c m before))

pub split_once-append :
    (d : ℕ) (m s : String) → split_once d (m <> s) ≡ rejoin m s (split_once d m) (split_once d s)
unfolding split_once
split_once-append d String.[] s = ap (split_once d) (nil-append s) ∙ rejoin-nil s (split_once d s)
split_once-append d (String.◌∷◌ c m) s =
    ap (split_once d) (cons-append c m s) ∙ elim (Bool-cases (code c == d)) [
      | inl here ↦ rw here refl
      | inr later ↦ rw later (
          ap (cut_behind c) (split_once-append d m s)
          ∙ rejoin-cons c m s (split_once d m) (split_once d s))
    ]
