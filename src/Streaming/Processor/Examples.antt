-- ===== src/Streaming/Processor/Examples.antt =====
-- The processor at concrete chunks, with an encoding that has one unit for a character.
use Prim.Native.Nat.{Ordering, compare}
use Prim.Native.Char.{char, code, IsLt}
use text.Mathlib.TextLemmas.{cons-append, nil-append}
use plano.Prelude.{
  ℕ, Option, none, some, List, [], ◌∷◌, ◌++◌, String, ◌<>◌, ◌≡◌, refl, ap, contains, strip_prefix,
  trim, trim_start, trim_end, if◌then◌else◌,
}
use plano.State.{Result, ok, err}
use plano.Streaming.Sse.{SseEvent, is_done, should_skip}
use plano.Streaming.Lines.{from_str, lines}
use plano.Streaming.Lines.Cuts.{is_whole}
use plano.Streaming.Processor.{Encoding, is_incomplete_json}
use plano.Streaming.Processor.Chunks.{
  IsUtf8, IsHeld, cut, process, holding, then_process, process-Agree,
}

abbrev BothLt : Ordering → Ordering → Type 0
BothLt Ordering.lt o = IsLt o
BothLt Ordering.eq _ = ⊥
BothLt Ordering.gt _ = ⊥

-- The native `IsScalar`, of its three comparisons.
abbrev Scalar : Ordering → Ordering → Ordering → Type 0
Scalar Ordering.lt _ _ = Unit
Scalar Ordering.eq o p = BothLt o p
Scalar Ordering.gt o p = BothLt o p

abbrev lt? : (o : Ordering) → Option (IsLt o)
lt? Ordering.lt = some tt
lt? Ordering.eq = none
lt? Ordering.gt = none

abbrev both? : (o p : Ordering) → Option (BothLt o p)
both? Ordering.lt p = lt? p
both? Ordering.eq p = none
both? Ordering.gt p = none

abbrev scalar? : (o p q : Ordering) → Option (Scalar o p q)
scalar? Ordering.lt p q = some tt
scalar? Ordering.eq p q = both? p q
scalar? Ordering.gt p q = both? p q

lt?-some : (o : Ordering) (h : IsLt o) → lt? o ≡ some h
lt?-some Ordering.lt h = refl
lt?-some Ordering.eq h = elim h [ ]
lt?-some Ordering.gt h = elim h [ ]

both?-some : (o p : Ordering) (h : BothLt o p) → both? o p ≡ some h
both?-some Ordering.lt p h = lt?-some p h
both?-some Ordering.eq p h = elim h [ ]
both?-some Ordering.gt p h = elim h [ ]

scalar?-some : (o p q : Ordering) (h : Scalar o p q) → scalar? o p q ≡ some h
scalar?-some Ordering.lt p q h = refl
scalar?-some Ordering.eq p q h = both?-some p q h
scalar?-some Ordering.gt p q h = both?-some p q h

abbrev pushed :
    (n : ℕ)
    → Option (Scalar (compare n 55296) (compare 57343 n) (compare n 1114112))
    → Result String String
    → Result String String
pushed n (some h) (ok s) = ok (String.◌∷◌ (char n h) s)
pushed n (some h) (err e) = err e
pushed n none r = err "invalid utf-8 sequence"

abbrev decoded : List ℕ → Result String String
decoded [] = ok ""
decoded (n ∷ l) =
    pushed n (scalar? (compare n 55296) (compare 57343 n) (compare n 1114112)) (decoded l)

abbrev codes : String → List ℕ
codes String.[] = []
codes (String.◌∷◌ c s) = code c ∷ codes s

abbrev characters : Encoding
characters = record { from_utf8 = decoded; as_bytes = codes; to_lowercase = λ s. s }

codes-append : (s t : String) → codes (s <> t) ≡ codes s ++ codes t
codes-append String.[] t = rw (nil-append t) refl
codes-append (String.◌∷◌ c s) t = rw (cons-append c s t) (ap (λ l. code c ∷ l) (codes-append s t))

decoded-codes : (s : String) → decoded (codes s) ≡ ok s
decoded-codes String.[] = refl
decoded-codes (String.◌∷◌ (char n h) s) =
    rw (decoded-codes s, scalar?-some (compare n 55296) (compare 57343 n) (compare n 1114112) h)
      refl

characters-IsUtf8 : IsUtf8 characters
characters-IsUtf8 = record { empty = refl; append = codes-append; decode = decoded-codes }

-- A transform that fails on data without its end, and else leaves the event as it is.
abbrev transform : SseEvent → Result String SseEvent
transform e = elim e.data_field [
  | none ↦ ok e
  | some d ↦ if contains d "}" then ok e else err "eof while parsing a value"
]

abbrev whole_line : String
whole_line = "data: {1}\n"

abbrev first_chunk : String
first_chunk = "data: {1}\ndata: {2"

abbrev second_chunk : String
second_chunk = "}\n"

second_line-IsHeld : IsHeld characters transform "data: {2"
unfolding lines from_str trim trim_start trim_end strip_prefix is_done should_skip contains
    is_incomplete_json
second_line-IsHeld = cut refl refl refl refl refl refl

process-Agree_example :
    process characters transform (first_chunk <> second_chunk) (holding characters transform "")
    ≡ then_process characters transform second_chunk
        (process characters transform first_chunk (holding characters transform ""))
unfolding lines from_str trim trim_start trim_end strip_prefix is_done should_skip contains
    is_incomplete_json is_whole
process-Agree_example =
    process-Agree characters transform characters-IsUtf8 "" first_chunk second_chunk whole_line
      "data: {2" refl refl refl second_line-IsHeld
