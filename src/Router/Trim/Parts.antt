-- ===== src/Router/Trim/Parts.antt =====
-- Which parts of a text a trimmed text keeps.
use plano.Prelude.{
  ℕ, zero, suc, ◌+◌, ◌-◌, ◌*◌, ◌/◌, ◌≤◌, ◌<◌, leb, true, false, List, ◌++◌, ◌≡◌, arith, length,
  take, drop, Bool-cases, inl, inr,
}
use plano.Router.Trim.{
  trim_marker, is_char_boundary, back_to_boundary, on_to_boundary, head_end, tail_start,
  trim_middle_utf8,
}
use plano.Router.Trim.Length.{tail_start-le, tail_start-ge, head_end-le}

-- The last boundary of the characters at a position or before it, and the start of the text if none.
pub data LastBoundary (s : List ℕ) : ℕ → ℕ → Type 0 where
  start_of_text : LastBoundary s 0 0
  last_here : {i : ℕ} → is_char_boundary s (suc i) ≡ true → LastBoundary s (suc i) (suc i)
  before :
      {i j : ℕ} → is_char_boundary s (suc i) ≡ false → LastBoundary s i j → LastBoundary s (suc i) j

-- The first boundary at a position or behind it, and the end of the text if none.
pub data NextBoundary (s : List ℕ) : ℕ → ℕ → Type 0 where
  end_of_text : {i : ℕ} → i ≡ length s → NextBoundary s i i
  next_here : {i : ℕ} → is_char_boundary s i ≡ true → NextBoundary s i i
  behind : {i j : ℕ} → is_char_boundary s i ≡ false → NextBoundary s (i + 1) j → NextBoundary s i j

-- What is kept of a text: all of it where it fits, its start alone where there is no room behind a
-- marker, and else a start and an end.
pub data IsTrimmed (s : List ℕ) (max_bytes : ℕ) : List ℕ → Type 0 where
  whole : length s ≤ max_bytes → IsTrimmed s max_bytes s
  cut_off :
      (i : ℕ)
      → max_bytes < length s
      → max_bytes ≤ 3
      → LastBoundary s max_bytes i
      → IsTrimmed s max_bytes (take i s)
  middle_cut :
      (i j : ℕ)
      → max_bytes < length s
      → 3 < max_bytes
      → LastBoundary s ((max_bytes - 3) * 3 / 5) i
      → NextBoundary s (length s - ((max_bytes - 3) - i)) j
      → i < j
      → j ≤ length s
      → IsTrimmed s max_bytes (take i s ++ (trim_marker ++ drop j s))

back_to_boundary_lem : (s : List ℕ) (end : ℕ) → LastBoundary s end (back_to_boundary s end)
unfolding back_to_boundary
back_to_boundary_lem s zero = start_of_text
back_to_boundary_lem s (suc end) = elim (Bool-cases (is_char_boundary s (suc end))) [
  | inl stop ↦ rw stop (last_here stop)
  | inr more ↦ rw more (before more (back_to_boundary_lem s end))
]

on_to_boundary_lem :
    (s : List ℕ) (left start : ℕ)
    → start + left ≡ length s
    → NextBoundary s start (on_to_boundary s left start)
unfolding on_to_boundary
on_to_boundary_lem s zero start h = end_of_text (omega (arith, h))
on_to_boundary_lem s (suc left) start h = elim (Bool-cases (is_char_boundary s start)) [
  | inl stop ↦ rw stop (next_here stop)
  | inr more ↦ rw more (behind more (on_to_boundary_lem s left (start + 1) (omega (arith, h))))
]

head_end_lem :
    (s : List ℕ) (available : ℕ) → LastBoundary s (available * 3 / 5) (head_end s available)
unfolding head_end
head_end_lem s available = back_to_boundary_lem s (available * 3 / 5)

tail_start_lem :
    (s : List ℕ) (available : ℕ)
    → NextBoundary s (length s - (available - head_end s available)) (tail_start s available)
unfolding tail_start
tail_start_lem s available = on_to_boundary_lem s _ _ (omega arith)

-- A text that fits is left as it is. Of a longer one, a limit of three bytes or less leaves the start,
-- up to the last character boundary within the limit; a higher limit leaves a start up to the last
-- boundary within three fifths of the bytes that the marker leaves, the marker, and the end from the
-- first boundary on at which it fits in the rest, and the two do not overlap.
pub trim_middle_utf8-IsTrimmed :
    (s : List ℕ) (max_bytes : ℕ) → IsTrimmed s max_bytes (trim_middle_utf8 s max_bytes)
unfolding trim_middle_utf8
trim_middle_utf8-IsTrimmed s max_bytes = elim (Bool-cases (leb (length s) max_bytes)) [
  | inl fits ↦ rw fits (whole (ground (arith, fits)))
  | inr long ↦ elim (Bool-cases (leb max_bytes 3)) [
    | inl tight ↦
        rw (long, tight)
          (cut_off (back_to_boundary s max_bytes) (ground (arith, long)) (ground (arith, tight))
            (back_to_boundary_lem s max_bytes))
    | inr wide ↦
        let available = max_bytes - 3 in
        let room : max_bytes < length s = ground (arith, long) in
        let marked : 3 < max_bytes = ground (arith, wide) in
        rw (long, wide)
          (middle_cut (head_end s available) (tail_start s available) room marked
            (head_end_lem s available) (tail_start_lem s available)
            (omega (arith, tail_start-ge s available, head_end-le s available))
            (tail_start-le s available))
  ]
]
