-- ===== src/Prelude/Bits.antt =====
-- Shifts, low bits, and `|` of disjoint fields as arithmetic, at every width.
use Prim.Native.Nat.{
  ℕ, zero, suc, ◌+◌, ◌*◌, ◌/◌, ◌%◌, ◌^◌, ◌≤◌, ◌<◌, max, bit_or, digits, bitwise, bit_or-bitwise,
}
use mathlib.Core.Path.{◌≡◌, refl, ap, sym, ◌∙◌}
use native.Mathlib.Nat.{pow-suc}
use native.Mathlib.Omega.{arith}

-- x << k, x >> k and x & (2^k - 1) on unsigned values.
infixl 75 ◌<<<◌ ◌>>>◌
abbrev pub ◌<<<◌ : ℕ → ℕ → ℕ
x <<< k = x * 2 ^ k

abbrev pub ◌>>>◌ : ℕ → ℕ → ℕ
x >>> k = x / 2 ^ k

abbrev pub low_bits : ℕ → ℕ → ℕ
low_bits x k = x % 2 ^ k

-- The native operations take the count of digits from the first number; any larger count does as
-- well. `end` is the result past the first number's digits, `join` that of two digits.
module _ (end : ℕ → ℕ) (join : ℕ → ℕ → ℕ) where
  digits_exact :
      (bound x y count : ℕ)
      → count ≤ bound
      → x ≤ count
      → digits end join count x y ≡ bitwise end join x y
  digits_exact bound zero y zero h k = refl
  digits_exact bound zero y (suc count) h k = refl
  digits_exact zero (suc x) y count h k = absurd (omega (arith, h, k))
  digits_exact (suc bound) (suc x) y zero h k = absurd (omega (arith, k))
  digits_exact (suc bound) (suc x) y (suc count) h k =
      let by_count = digits_exact bound (suc x / 2) (y / 2) count (omega arith) (omega arith) in
      let by_number = digits_exact bound (suc x / 2) (y / 2) x (omega arith) (omega arith) in
      ap (λ d. d * 2 + join (suc x % 2) (y % 2)) (by_count ∙ sym by_number)

  -- One equation for the lowest digit, if the end obeys it.
  bitwise_digit :
      ((y : ℕ) → end y ≡ end (y / 2) * 2 + join 0 (y % 2))
      → (x y : ℕ)
      → bitwise end join x y ≡ bitwise end join (x / 2) (y / 2) * 2 + join (x % 2) (y % 2)
  bitwise_digit h zero y = h y
  bitwise_digit h (suc x) y =
      ap (λ d. d * 2 + join (suc x % 2) (y % 2))
        (digits_exact x (suc x / 2) (y / 2) x (omega arith) (omega arith))

  -- What is left when the second number has run out.
  bitwise_past :
      (rest : ℕ → ℕ)
      → end 0 ≡ rest 0
      → ((x : ℕ) → rest (x / 2) * 2 + join (x % 2) 0 ≡ rest x)
      → (bound x : ℕ) → x ≤ bound
      → bitwise end join x 0 ≡ rest x
  bitwise_past rest h k bound zero le = h
  bitwise_past rest h k zero (suc x) le = absurd (omega arith)
  bitwise_past rest h k (suc bound) (suc x) le =
      ap (λ d. d * 2 + join (suc x % 2) 0)
        (digits_exact x (suc x / 2) 0 x (omega arith) (omega arith)
          ∙ bitwise_past rest h k bound (suc x / 2) (omega arith))
      ∙ k (suc x)

pub bit_or_step : (x y : ℕ) → bit_or x y ≡ bit_or (x / 2) (y / 2) * 2 + max (x % 2) (y % 2)
bit_or_step x y =
    bit_or-bitwise x y
    ∙ bitwise_digit (λ d. d) max (λ d. omega arith) x y
    ∙ ap (λ d. d * 2 + max (x % 2) (y % 2)) (sym (bit_or-bitwise (x / 2) (y / 2)))

pub bit_or-zero : (x : ℕ) → bit_or x 0 ≡ x
bit_or-zero x =
    bit_or-bitwise x 0
    ∙ bitwise_past (λ d. d) max (λ d. d) refl (λ d. omega arith) x x (omega arith)

shifted_suc : (field width : ℕ) → field <<< suc width ≡ (field <<< width) * 2
shifted_suc field width = omega (arith, ap (λ (power : ℕ). field * power) (pow-suc 2 width))

-- A field above `width` bits and one inside them: `|` is their sum, in either order.
bit_or_two_fields :
    (width high low : ℕ)
    → low < 2 ^ width
    → (bit_or (high <<< width) low ≡ high * 2 ^ width + low)
      × (bit_or low (high <<< width) ≡ high * 2 ^ width + low)
bit_or_two_fields zero high low fits =
    let none_low : low ≡ 0 = omega arith in
    (ground (arith, bit_or-zero high), ground (arith, none_low, bit_or-bitwise 0 high))
bit_or_two_fields (suc width) high low fits =
    let (above, below) = bit_or_two_fields width high (low / 2) (omega arith) in
    let twice = shifted_suc high width in
    (
      ground (arith, above, twice, bit_or_step (high <<< suc width) low),
      ground (arith, below, twice, bit_or_step low (high <<< suc width)),
    )

pub bit_or_high_low : (k q r : ℕ) → r < 2 ^ k → bit_or (q <<< k) r ≡ q * 2 ^ k + r
bit_or_high_low k q r h = (bit_or_two_fields k q r h).0

pub bit_or_low_high : (k q r : ℕ) → r < 2 ^ k → bit_or r (q <<< k) ≡ q * 2 ^ k + r
bit_or_low_high k q r h = (bit_or_two_fields k q r h).1
