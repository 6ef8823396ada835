-- ===== src/Router/Trim.antt =====
-- `trim_middle_utf8` of router/orchestrator_model_v1.rs, over the bytes of the text.
pub mod Length
pub mod Valid
pub mod Parts
use plano.Prelude.{
  ℕ, zero, suc, ◌+◌, ◌-◌, ◌*◌, ◌/◌, ltb, leb, ◌==◌, Bool, true, false, not, ◌&&◌, ◌||◌, none, some,
  List, [], ◌∷◌, ◌++◌, get_elem?, length, take, drop, if◌then◌else◌,
}

-- "…" in UTF-8.
abbrev pub trim_marker : List ℕ
trim_marker = 0xe2 ∷ 0x80 ∷ 0xa6 ∷ []

-- A byte that continues a character.
abbrev pub is_continuation : ℕ → Bool
is_continuation b = leb 128 b && ltb b 192

-- `s.is_char_boundary(i)`
unfoldable pub is_char_boundary : List ℕ → ℕ → Bool
is_char_boundary s i = elim (get_elem? s i) [
  | none ↦ i == length s
  | some b ↦ i == 0 || not (is_continuation b)
]

-- `while end > 0 && !s.is_char_boundary(end) { end -= 1; }`
unfoldable pub back_to_boundary : List ℕ → ℕ → ℕ
back_to_boundary s zero = zero
back_to_boundary s (suc end) =
    if is_char_boundary s (suc end) then suc end else back_to_boundary s end

-- `while start < s.len() && !s.is_char_boundary(start) { start += 1; }`, by the rounds that are
-- left, `s.len() - start`.
unfoldable pub on_to_boundary : List ℕ → ℕ → ℕ → ℕ
on_to_boundary s zero start = start
on_to_boundary s (suc left) start =
    if is_char_boundary s start then start else on_to_boundary s left (start + 1)

-- Where the kept head ends and the kept tail starts.
unfoldable pub head_end : List ℕ → ℕ → ℕ
head_end s available = back_to_boundary s (available * 3 / 5)

unfoldable pub tail_start : List ℕ → ℕ → ℕ
tail_start s available =
    let end_len = available - head_end s available in
    let start = length s - end_len in on_to_boundary s (length s - start) start

unfoldable pub trim_middle_utf8 : List ℕ → ℕ → List ℕ
trim_middle_utf8 s max_bytes =
    if leb (length s) max_bytes
    then s
    else if leb max_bytes (length trim_marker)
    then take (back_to_boundary s max_bytes) s
    else let available = max_bytes - length trim_marker in
      take (head_end s available) s ++ (trim_marker ++ drop (tail_start s available) s)
