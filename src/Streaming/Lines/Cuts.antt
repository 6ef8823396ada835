-- ===== src/Streaming/Lines/Cuts.antt =====
-- The lines of a text that is cut behind a line's end are those of its parts.
use Prim.Native.Char.{Char, code}
use plano.Prelude.{
  ◌==◌, Bool, true, false, not, ◌&&◌, List, [], ◌∷◌, ◌++◌, String, ◌<>◌, is_empty, null, ◌≡◌, refl,
  ap, arith, Bool-cases, inl, inr, if◌then◌else◌,
}
use text.Mathlib.TextLemmas.{nil-append, cons-append}
use plano.Streaming.Lines.{lines, starts_line, in_front}

-- A text that is empty or ends with a line feed.
unfoldable pub is_whole : String → Bool
is_whole String.[] = true
is_whole (String.◌∷◌ c s) =
    let rest = is_whole s in if code c == 10 then rest else not (is_empty s) && rest

and_left : (a b : Bool) → a && b ≡ true → a ≡ true
and_left a b h = ground arith

and_right : (a b : Bool) → a && b ≡ true → b ≡ true
and_right a b h = ground arith

starts_line-nonempty : (s : String) → starts_line s ≡ true → is_empty s ≡ false
starts_line-nonempty String.[] h = ground arith
starts_line-nonempty (String.◌∷◌ c s) h = refl

not-true : (b : Bool) → not b ≡ true → b ≡ false
not-true b h = ground arith

rest_of :
    (c : Char) (s : String)
    → (code c == 10) ≡ true
    → is_whole (String.◌∷◌ c s) ≡ true
    → is_whole s ≡ true
unfolding is_whole
rest_of c s feed = rw feed (λ h. h)

plain_whole :
    (c : Char) (s : String)
    → (code c == 10) ≡ false
    → is_whole (String.◌∷◌ c s) ≡ true
    → not (is_empty s) && is_whole s ≡ true
unfolding is_whole
plain_whole c s plain = rw plain (λ h. h)

plain_nonempty :
    (c : Char) (s : String)
    → (code c == 10) ≡ false
    → is_whole (String.◌∷◌ c s) ≡ true
    → is_empty s ≡ false
plain_nonempty c s plain whole = not-true _ (and_left _ _ (plain_whole c s plain whole))

plain_rest :
    (c : Char) (s : String)
    → (code c == 10) ≡ false
    → is_whole (String.◌∷◌ c s) ≡ true
    → is_whole s ≡ true
plain_rest c s plain whole = and_right _ _ (plain_whole c s plain whole)

starts_line-append : (s t : String) → is_empty s ≡ false → starts_line (s <> t) ≡ starts_line s
starts_line-append String.[] t h = ground arith
starts_line-append (String.◌∷◌ c s) t h = rw (cons-append c s t) refl

null-in_front : (c : Char) (l : List String) → null (in_front c l) ≡ false
null-in_front c [] = refl
null-in_front c (line ∷ l) = refl

-- A text that is not empty has a line.
null-lines : (s : String) → is_empty s ≡ false → null (lines s) ≡ false
unfolding lines
null-lines String.[] h = ground arith
null-lines (String.◌∷◌ c s) h = elim (Bool-cases (code c == 10)) [
  | inl feed ↦ rw feed refl
  | inr plain ↦ elim (Bool-cases ((code c == 13) && starts_line s)) [
    | inl return ↦ rw (plain, return) (null-lines s (starts_line-nonempty s (and_right _ _ return)))
    | inr other ↦ rw (plain, other) (null-in_front c (lines s))
  ]
]

in_front-append :
    (c : Char) (l m : List String) → null l ≡ false → in_front c (l ++ m) ≡ in_front c l ++ m
in_front-append c [] m h = ground arith
in_front-append c (line ∷ l) m h = refl

pub lines-append : (s t : String) → is_whole s ≡ true → lines (s <> t) ≡ lines s ++ lines t
unfolding lines is_whole
lines-append String.[] t whole = rw (nil-append t) refl
lines-append (String.◌∷◌ c s) t whole = elim (Bool-cases (code c == 10)) [
  | inl feed ↦
      rw (cons-append c s t, feed) (ap (λ l. "" ∷ l) (lines-append s t (rest_of c s feed whole)))
  | inr plain ↦
      let some_text = plain_nonempty c s plain whole in
      let same = lines-append s t (plain_rest c s plain whole) in
      rw (cons-append c s t, plain, starts_line-append s t some_text)
        (elim (Bool-cases ((code c == 13) && starts_line s)) [
          | inl return ↦ rw return same
          | inr other ↦
              rw (other, same) (in_front-append c (lines s) (lines t) (null-lines s some_text))
        ])
]
