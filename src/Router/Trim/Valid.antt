-- ===== src/Router/Trim/Valid.antt =====
-- Cuts at character boundaries keep a text a text.
use plano.Prelude.{
  ℕ, zero, suc, ◌+◌, ◌-◌, ◌*◌, ◌/◌, ◌≤◌, ltb, ◌==◌, Bool, true, false, not, ◌&&◌, ◌||◌, Option,
  none, some, List, [], ◌∷◌, ◌++◌, ◌≡◌, refl, arith, get_elem?, get_elem?-length, length, take,
  drop, if◌then◌else◌, ◌⊎◌, inl, inr,
}
use plano.Router.Trim.{
  trim_marker, is_continuation, is_char_boundary, back_to_boundary, on_to_boundary, head_end,
  tail_start, trim_middle_utf8,
}
use plano.Router.Trim.Length.{back_to_boundary-le, tail_start-le, head_end-le}

-- The continuation bytes that a leading byte announces; `none` where no character starts so.
abbrev pub announced : ℕ → Option ℕ
announced b =
    if ltb b 0x80
    then some 0
    else if ltb b 0xc0
    then none
    else if ltb b 0xe0
    then some 1
    else if ltb b 0xf0
    then some 2
    else if ltb b 0xf8
    then some 3
    else none

-- Characters of the announced lengths, the first of them lacking `pending` bytes at its front.
-- Overlong forms and surrogates are not told apart.
unfoldable pub is_utf8_from : ℕ → List ℕ → Bool
is_utf8_from zero [] = true
is_utf8_from (suc pending) [] = false
is_utf8_from zero (b ∷ bs) = elim (announced b) [ none ↦ false | some n ↦ is_utf8_from n bs ]
is_utf8_from (suc pending) (b ∷ bs) = is_continuation b && is_utf8_from pending bs

abbrev pub is_utf8 : List ℕ → Bool
is_utf8 s = is_utf8_from 0 s

-- No continuation byte stands at `i`.
abbrev cuttable : Option ℕ → Bool
cuttable none = true
cuttable (some b) = not (is_continuation b)

is_utf8_from-cut :
    (i pending : ℕ) (s : List ℕ)
    → is_utf8_from pending s ≡ true
    → i ≤ length s
    → cuttable (get_elem? s i) ≡ true
    → (is_utf8_from pending (take i s) ≡ true) × (is_utf8 (drop i s) ≡ true)
unfolding is_utf8_from
is_utf8_from-cut zero zero s v h c = (refl, v)
is_utf8_from-cut zero (suc p) [] v h c = absurd (ground arith)
is_utf8_from-cut zero (suc p) (b ∷ bs) v h c = absurd (ground arith)
is_utf8_from-cut (suc i) p [] v h c = absurd (omega arith)
is_utf8_from-cut (suc i) zero (b ∷ bs) v h c = ground (
  arith,
  is_utf8_from-cut i 0 bs,
  is_utf8_from-cut i 1 bs,
  is_utf8_from-cut i 2 bs,
  is_utf8_from-cut i 3 bs,
)
is_utf8_from-cut (suc i) (suc p) (b ∷ bs) v h c = ground (arith, is_utf8_from-cut i p bs)

is_utf8_from-append :
    (pending : ℕ) (s t : List ℕ)
    → is_utf8_from pending s ≡ true
    → is_utf8 t ≡ true
    → is_utf8_from pending (s ++ t) ≡ true
unfolding is_utf8_from
is_utf8_from-append zero [] t h k = k
is_utf8_from-append (suc p) [] t h k = absurd (ground arith)
is_utf8_from-append zero (b ∷ bs) t h k = ground (
  arith,
  is_utf8_from-append 0 bs t,
  is_utf8_from-append 1 bs t,
  is_utf8_from-append 2 bs t,
  is_utf8_from-append 3 bs t,
)
is_utf8_from-append (suc p) (b ∷ bs) t h k = ground (arith, is_utf8_from-append p bs t)

-- The loops stop at boundaries.
back_to_boundary-stops :
    (s : List ℕ) (end : ℕ)
    → (back_to_boundary s end ≡ 0) ⊎ (is_char_boundary s (back_to_boundary s end) ≡ true)
unfolding back_to_boundary
back_to_boundary-stops s zero = inl refl
back_to_boundary-stops s (suc end) = ground (arith, back_to_boundary-stops s end)

on_to_boundary-stops :
    (s : List ℕ) (left start : ℕ)
    → (on_to_boundary s left start ≡ start + left)
      ⊎ (is_char_boundary s (on_to_boundary s left start) ≡ true)
unfolding on_to_boundary
on_to_boundary-stops s zero start = inl (omega arith)
on_to_boundary-stops s (suc left) start = ground (arith, on_to_boundary-stops s left (start + 1))

cuttable_of_boundary :
    (o : Option ℕ) (i n : ℕ)
    → (elim o [ none ↦ suc i == n | some b ↦ (suc i == 0) || not (is_continuation b) ]) ≡ true
    → cuttable o ≡ true
cuttable_of_boundary none i n h = refl
cuttable_of_boundary (some b) i n h = ground arith

marker_valid : is_utf8 trim_marker ≡ true
unfolding is_utf8_from
marker_valid = refl

-- A text may be cut where it is 0 or a boundary.
cut_at_boundary :
    (s : List ℕ) (i : ℕ)
    → is_utf8 s ≡ true
    → i ≤ length s
    → (i ≡ 0) ⊎ (is_char_boundary s i ≡ true)
    → (is_utf8 (take i s) ≡ true) × (is_utf8 (drop i s) ≡ true)
unfolding is_char_boundary is_utf8_from
cut_at_boundary s zero v h b = (refl, v)
cut_at_boundary s (suc i) v h (inl e) = absurd (omega arith)
cut_at_boundary s (suc i) v h (inr b) =
    is_utf8_from-cut (suc i) 0 s v h (cuttable_of_boundary (get_elem? s (suc i)) i (length s) b)

head_end-cut :
    (s : List ℕ) (available : ℕ)
    → (head_end s available ≡ 0) ⊎ (is_char_boundary s (head_end s available) ≡ true)
unfolding head_end
head_end-cut s available = back_to_boundary-stops s (available * 3 / 5)

is_char_boundary-length : (s : List ℕ) → is_char_boundary s (length s) ≡ true
unfolding is_char_boundary
is_char_boundary-length s = rw (get_elem?-length s, is_char_boundary) (ground arith)

tail_start-cut : (s : List ℕ) (available : ℕ) → is_char_boundary s (tail_start s available) ≡ true
unfolding tail_start
tail_start-cut s available =
    let start = length s - (available - head_end s available) in
    elim (on_to_boundary-stops s (length s - start) start) [
      | inl ran_out ↦
          let e : on_to_boundary s (length s - start) start ≡ length s = omega arith in
          rw e (is_char_boundary-length s)
      | inr stopped ↦ stopped
    ]

is_utf8-middle_cut :
    (s : List ℕ) (available : ℕ)
    → is_utf8 s ≡ true
    → available ≤ length s
    → is_utf8 (take (head_end s available) s ++ (trim_marker ++ drop (tail_start s available) s))
      ≡ true
is_utf8-middle_cut s available v h =
    let (head, _) =
      cut_at_boundary s (head_end s available) v (omega (arith, head_end-le s available))
        (head_end-cut s available) in
    let (_, tail) =
      cut_at_boundary s (tail_start s available) v (tail_start-le s available)
        (inr (tail_start-cut s available)) in
    is_utf8_from-append 0 (take (head_end s available) s) _ head
      (is_utf8_from-append 0 trim_marker (drop (tail_start s available) s) marker_valid tail)

-- A trimmed text is valid UTF-8 if the text is, whatever the limit: no character is cut.
pub is_utf8-trim_middle_utf8 :
    (s : List ℕ) (max_bytes : ℕ) → is_utf8 s ≡ true → is_utf8 (trim_middle_utf8 s max_bytes) ≡ true
unfolding trim_middle_utf8
is_utf8-trim_middle_utf8 s max_bytes v =
    let head = cut_at_boundary s (back_to_boundary s max_bytes) v in
    ground (
      arith,
      head,
      back_to_boundary-le s max_bytes,
      back_to_boundary-stops s max_bytes,
      is_utf8-middle_cut s (max_bytes - 3) v,
    )
