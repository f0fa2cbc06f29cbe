-- ===== src/Midi/Pattern/Convert.antt =====
-- How a receiver maps the values of a pattern to 0 to 127.
use native.Mathlib.Nat.{
  le-div_iff_mul-le, div-mul-le_self, div-eq_of_lt, div-eq_of_lt-le, le_trans, min-eq_left,
  min-eq_right, zero-min,
}
use grandorgue.Prelude.{
  ℕ, ◌+◌, ◌-◌, ◌*◌, ◌/◌, ◌≤◌, ◌<◌, min, true, false, ltb, leb, ltb→lt, leb→le, ◌≡◌, refl, ap, ◌∙◌,
  inl, inr, Bool-cases, arith,
}
use grandorgue.Prelude.Int.{ℤ, pos, negsuc, pos_part, ◌+ℤ◌, ◌-ℤ◌, eq_ℤ, ◌≤ℤ◌}
use grandorgue.Midi.Pattern.{
  Pattern, to_i8, round_quotient, interpolate, convert_value_between_ranges,
  convert_src_value_to_int, negate, magnitude, is_negative, times, clamp,
}

to_i8-pos : (n : ℕ) → n < 128 → to_i8 (pos n) ≡ pos n
unfolding to_i8
to_i8-pos n h = ground arith

-- The position of a value in a range, from 0 on.
abbrev pub rounded : ℕ → ℕ → ℕ
rounded n d = (2 * (n * 127) + d) / (2 * d)

interpolate-above :
    (n low high : ℕ)
    → low < high
    → low ≤ n
    → interpolate (pos n) (pos low) (pos high) (pos 0) (pos 127)
      ≡ pos (rounded (n - low) (high - low))
unfolding interpolate round_quotient
interpolate-above n low high h k = ground arith

negate-pos : (q : ℕ) → pos_part (pos 0 +ℤ negate (pos q)) ≡ 0
negate-pos q = ground arith

quotient_below :
    (m d : ℕ) → 0 < d → pos_part (pos 0 +ℤ round_quotient (times (negsuc m) (pos 127)) (pos d)) ≡ 0
unfolding round_quotient
quotient_below m d h =
    let q : ℕ = (2 * magnitude (times (negsuc m) (pos 127)) + d) / (2 * d) in
    let negative : is_negative (times (negsuc m) (pos 127)) ≡ true = ground arith in
    let positive : is_negative (pos d) ≡ false = ground arith in
    rw (negative, positive) (negate-pos _)

interpolate-below :
    (src : ℤ) (m low high : ℕ)
    → low < high
    → src -ℤ pos low ≡ negsuc m
    → pos_part (interpolate src (pos low) (pos high) (pos 0) (pos 127)) ≡ 0
unfolding interpolate
interpolate-below src m low high h k =
    let differ : eq_ℤ (pos high) (pos low) ≡ false = ground arith in
    let width : pos high -ℤ pos low ≡ pos (high - low) = ground arith in
    rw (differ, k, width) (quotient_below m (high - low) (omega arith))

clamp-min : (n : ℕ) → clamp (pos n) (pos 0) (pos 127) ≡ pos (min n 127)
clamp-min n = elim (Bool-cases (ltb 127 n)) [
  | inl h ↦ ground (arith, min-eq_right {n = 127} {m = n} (omega (arith, ltb→lt 127 n h)))
  | inr h ↦ ground (arith, min-eq_left {n = n} {m = 127} (ground arith))
]

clamp-zero : (z : ℤ) → pos_part z ≡ 0 → clamp z (pos 0) (pos 127) ≡ pos 0
clamp-zero (pos n) h = ground arith
clamp-zero (negsuc n) h = ground arith

rounded_mono : (x y d : ℕ) → 0 < d → x ≤ y → rounded x d ≤ rounded y d
rounded_mono x y d h k =
    (le-div_iff_mul-le {k = 2 * d} {x = rounded x d} {y = 2 * (y * 127) + d} (omega arith)).1
      (le_trans (div-mul-le_self (2 * (x * 127) + d) (2 * d)) (omega arith))

rounded_zero : (d : ℕ) → 0 < d → rounded 0 d ≡ 0
rounded_zero d h = div-eq_of_lt (omega arith)

rounded_whole : (d : ℕ) → 0 < d → rounded d d ≡ 127
rounded_whole d h = div-eq_of_lt-le (2 * d) (omega arith) (omega arith)

-- The result of a receiver's conversion lies between 0 and 127 for every pattern and value.
pub convert_src_value_to_int_bounds :
    (p : Pattern) (src : ℤ)
    → (pos 0 ≤ℤ convert_src_value_to_int p src) × (convert_src_value_to_int p src ≤ℤ pos 127)
unfolding convert_src_value_to_int convert_value_between_ranges
convert_src_value_to_int_bounds p src =
    let v = interpolate (to_i8 src) (to_i8 p.low_value) (to_i8 p.high_value) (pos 0) (pos 127) in
    ground arith

-- A pattern whose range goes upwards from `low` to `high`.
module _ (p : Pattern) (low high : ℕ) (l : p.low_value ≡ pos low) (g : p.high_value ≡ pos high)
    (lt : low < high) (small : high < 128) where
  low_i8 : to_i8 p.low_value ≡ pos low
  low_i8 = ap to_i8 l ∙ to_i8-pos low (omega arith)

  high_i8 : to_i8 p.high_value ≡ pos high
  high_i8 = ap to_i8 g ∙ to_i8-pos high small

  converted :
      (src : ℤ)
      → convert_src_value_to_int p src
        ≡ clamp (interpolate (to_i8 src) (pos low) (pos high) (pos 0) (pos 127)) (pos 0) (pos 127)
  unfolding convert_src_value_to_int convert_value_between_ranges
  converted src = rw (low_i8, high_i8)

  convert-above :
      (n : ℕ)
      → low ≤ n
      → n < 128
      → convert_src_value_to_int p (pos n) ≡ pos (min (rounded (n - low) (high - low)) 127)
  convert-above n k n_lt =
      converted (pos n)
      ∙ ap (λ z. clamp (interpolate z (pos low) (pos high) (pos 0) (pos 127)) (pos 0) (pos 127))
          (to_i8-pos n n_lt)
      ∙ ap (λ z. clamp z (pos 0) (pos 127)) (interpolate-above n low high lt k)
      ∙ clamp-min (rounded (n - low) (high - low))

  pub convert-below :
      (src : ℤ) (m : ℕ) → to_i8 src -ℤ pos low ≡ negsuc m → convert_src_value_to_int p src ≡ pos 0
  convert-below src m k =
      converted src
      ∙ clamp-zero (interpolate (to_i8 src) (pos low) (pos high) (pos 0) (pos 127))
          (interpolate-below (to_i8 src) m low high lt k)

  convert-low : (n : ℕ) → n < low → convert_src_value_to_int p (pos n) ≡ pos 0
  convert-low n k =
      convert-below (pos n) (low - n - 1)
        (ap (λ z. z -ℤ pos low) (to_i8-pos n (omega arith)) ∙ ground arith)

  convert-mono :
      (a b : ℕ)
      → a ≤ b
      → b < 128
      → convert_src_value_to_int p (pos a) ≤ℤ convert_src_value_to_int p (pos b)
  convert-mono a b le b_lt = elim (Bool-cases (leb low a)) [
    | inl k ↦
        let k' : low ≤ a = leb→le low a k in
        let more : rounded (a - low) (high - low) ≤ rounded (b - low) (high - low) =
          rounded_mono (a - low) (b - low) (high - low) (omega arith) (omega arith) in
        rw (convert-above a k' (omega arith), convert-above b (omega arith) b_lt) (omega arith)
    | inr k ↦
        rw (convert-low a (ground arith))
          (omega (arith, (convert_src_value_to_int_bounds p (pos b)).0))
  ]

  -- A receiver's conversion, for a pattern with a lower value below its upper one and both at most 127:
  -- it takes the lower value to 0, the upper one to 127, and never takes the greater of two values from
  -- 0 to 127 to the lesser result.
  pub convert_src_value_to_int_lem :
      (a b : ℕ)
      → a ≤ b
      → b < 128
      → (convert_src_value_to_int p (pos low) ≡ pos 0)
        × (convert_src_value_to_int p (pos high) ≡ pos 127)
        × (convert_src_value_to_int p (pos a) ≤ℤ convert_src_value_to_int p (pos b))
  convert_src_value_to_int_lem a b le b_lt =
      let nothing : low - low ≡ 0 = omega arith in
      (
        convert-above low (omega arith) (omega arith)
            ∙ rw (nothing, rounded_zero (high - low) (omega arith), zero-min 127) refl,
        convert-above high (omega arith) small ∙ rw (rounded_whole (high - low) (omega arith)) refl,
        convert-mono a b le b_lt,
      )
