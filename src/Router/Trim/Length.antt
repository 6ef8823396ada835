-- ===== src/Router/Trim/Length.antt =====
-- A trimmed text fits its limit.
use plano.Prelude.{
  ℕ, zero, suc, ◌+◌, ◌-◌, ◌*◌, ◌/◌, ◌≤◌, List, ◌++◌, arith, length, take, drop, length-append,
  length-take, length-drop,
}
use plano.Router.Trim.{
  trim_marker, back_to_boundary, on_to_boundary, head_end, tail_start, trim_middle_utf8,
}

pub back_to_boundary-le : (s : List ℕ) (end : ℕ) → back_to_boundary s end ≤ end
unfolding back_to_boundary
back_to_boundary-le s zero = omega arith
back_to_boundary-le s (suc end) = ground (arith, back_to_boundary-le s end)

pub le-on_to_boundary : (s : List ℕ) (left start : ℕ) → start ≤ on_to_boundary s left start
unfolding on_to_boundary
le-on_to_boundary s zero start = omega arith
le-on_to_boundary s (suc left) start = ground (arith, le-on_to_boundary s left (start + 1))

pub on_to_boundary-le : (s : List ℕ) (left start : ℕ) → on_to_boundary s left start ≤ start + left
unfolding on_to_boundary
on_to_boundary-le s zero start = omega arith
on_to_boundary-le s (suc left) start = ground (arith, on_to_boundary-le s left (start + 1))

-- The head takes at most three fifths of the room, and the tail what the head leaves.
pub head_end-le : (s : List ℕ) (available : ℕ) → head_end s available ≤ available
unfolding head_end
head_end-le s available = omega (arith, back_to_boundary-le s (available * 3 / 5))

pub tail_start-ge :
    (s : List ℕ) (available : ℕ)
    → length s ≤ tail_start s available + (available - head_end s available)
unfolding tail_start
tail_start-ge s available = omega (
  arith,
  le-on_to_boundary s (length s - (length s - (available - head_end s available)))
      (length s - (available - head_end s available)),
)

pub tail_start-le : (s : List ℕ) (available : ℕ) → tail_start s available ≤ length s
unfolding tail_start
tail_start-le s available = omega (
  arith,
  on_to_boundary-le s (length s - (length s - (available - head_end s available)))
      (length s - (available - head_end s available)),
)

-- The middle cut has the head, the marker and the tail.
length-middle_cut :
    (s : List ℕ) (available : ℕ)
    → length (take (head_end s available) s ++ (trim_marker ++ drop (tail_start s available) s))
      ≤ available + 3
length-middle_cut s available = omega (
  arith,
  length-append {0},
  length-take {0},
  length-drop {0},
  head_end-le s available,
  tail_start-ge s available,
)

-- A trimmed text has at most the given number of bytes, whatever the text and the limit.
pub length-trim_middle_utf8 :
    (s : List ℕ) (max_bytes : ℕ) → length (trim_middle_utf8 s max_bytes) ≤ max_bytes
unfolding trim_middle_utf8
length-trim_middle_utf8 s max_bytes = ground (
  arith,
  length-take (back_to_boundary s max_bytes) s,
  back_to_boundary-le s max_bytes,
  length-middle_cut s (max_bytes - 3),
)
