-- ===== src/Midi/Pattern.antt =====
-- src/grandorgue/midi/events/GOMidiEventPattern.h and GOMidiEventPattern.cpp, and
-- GOMidiReceiverEventPattern.h beside them: what a receiver listens for.
pub mod Convert
use grandorgue.Prelude.{
  ℕ, suc, ◌+◌, ◌-◌, ◌*◌, ◌/◌, ◌%◌, ◌^◌, Bool, true, false, ltb, leb, ◌==◌, ◌&&◌, if◌then◌else◌,
}
use grandorgue.Prelude.Int.{
  ℤ, pos, negsuc, pos_part, neg_part, ◌+ℤ◌, ◌-ℤ◌, ltb_ℤ, leb_ℤ, eq_ℤ, int_bits,
}
use grandorgue.Midi.MessageType.{MessageType}

pub record Pattern : Type 0 where
  pub message_type : MessageType
  pub device_id : ℕ
  pub channel : ℤ
  pub key : ℤ
  pub low_key : ℤ
  pub high_key : ℤ
  pub low_value : ℤ
  pub high_value : ℤ
  pub debounce_time : ℕ

-- The conversion to `int_fast8_t`, which has 8 bits.
unfoldable pub to_i8 : ℤ → ℤ
to_i8 z = let low = int_bits z 8 in if ltb low 128 then pos low else negsuc (255 - low)

abbrev pub negate : ℤ → ℤ
negate z = pos 0 -ℤ z

abbrev pub magnitude : ℤ → ℕ
magnitude z = pos_part z + neg_part z

abbrev pub is_negative : ℤ → Bool
is_negative z = ltb_ℤ z (pos 0)

-- `round` of n / d, for d other than 0: to the nearest, and from the middle away from 0. The code divides
-- in single precision, which keeps every quotient of these small numbers on its side of the middle.
unfoldable pub round_quotient : ℤ → ℤ → ℤ
round_quotient n d =
    let q = (2 * magnitude n + magnitude d) / (2 * magnitude d) in
    if is_negative n
    then (if is_negative d then pos q else negate (pos q))
    else if is_negative d
    then negate (pos q)
    else pos q

abbrev pub min_ℤ : ℤ → ℤ → ℤ
min_ℤ a b = if ltb_ℤ b a then b else a

abbrev pub max_ℤ : ℤ → ℤ → ℤ
max_ℤ a b = if ltb_ℤ a b then b else a

-- `std::clamp`.
abbrev pub clamp : ℤ → ℤ → ℤ → ℤ
clamp v lo hi = if ltb_ℤ v lo then lo else if ltb_ℤ hi v then hi else v

abbrev pub times : ℤ → ℤ → ℤ
times a b =
    if is_negative a
    then (if is_negative b
        then pos (magnitude a * magnitude b)
        else negate (pos (magnitude a * magnitude b)))
    else if is_negative b
    then negate (pos (magnitude a * magnitude b))
    else pos (magnitude a * magnitude b)

-- `convertValueBetweenRanges`, whose arguments are already 8-bit.
unfoldable pub interpolate : ℤ → ℤ → ℤ → ℤ → ℤ → ℤ
interpolate src src_low src_high dst_low dst_high =
    if eq_ℤ src_high src_low
    then dst_low
    else dst_low
      +ℤ round_quotient (times (src -ℤ src_low) (dst_high -ℤ dst_low)) (src_high -ℤ src_low)

unfoldable pub convert_value_between_ranges : ℤ → ℤ → ℤ → ℤ → ℤ → ℤ
convert_value_between_ranges src src_low src_high dst_low dst_high =
    clamp (interpolate src src_low src_high dst_low dst_high) (min_ℤ dst_low dst_high)
      (max_ℤ dst_low dst_high)

unfoldable pub convert_src_value_to_int : Pattern → ℤ → ℤ
convert_src_value_to_int p src =
    convert_value_between_ranges (to_i8 src) (to_i8 p.low_value) (to_i8 p.high_value) (pos 0)
      (pos 127)
