-- ===== src/Midi/Rodgers.antt =====
-- src/grandorgue/midi/events/GORodgers.h and GORodgers.cpp: stop bits, seven to a byte.
pub mod Laws
use grandorgue.Prelude.{
  ℕ, zero, suc, ◌+◌, ◌-◌, ◌*◌, ◌/◌, ◌%◌, ◌^◌, Bool, true, false, List, [], ◌∷◌, length, get_or, set,
  resize, bit_and, bit_or, ltb, leb, ◌==◌, if◌then◌else◌,
}
use grandorgue.Prelude.Int.{ℤ, pos, ◌-ℤ◌, int_bits}

pub data BitState : Type 0 where
  bit_clear bit_set bit_not_present : BitState

-- The loop of the checksum over `len` bytes from `start` on; `sum` is an 8-bit word.
unfoldable pub sum_bytes : List ℕ → ℕ → ℕ → ℕ → ℕ
sum_bytes msg start zero sum = sum
sum_bytes msg start (suc len) sum =
    sum_bytes msg (suc start) len ((sum + get_or msg start 0) % 2 ^ 8)

unfoldable pub checksum : List ℕ → ℕ → ℕ → ℕ
checksum msg start len = int_bits (pos 0 -ℤ pos (sum_bytes msg start len 0)) 7

-- The offset is a byte of a message, so `offset * 7` is far from the end of its `unsigned`.
unfoldable pub get_bit : ℕ → ℕ → List ℕ → BitState
get_bit stop offset bytes =
    let start = offset * 7 in
    let stop' = stop - start in
    let at = stop' / 7 in
    let bit = stop' - at * 7 in
    if ltb stop start
    then bit_not_present
    else if leb (length bytes) at
    then bit_not_present
    else if bit_and (get_or bytes at 0) (2 ^ bit) == 0
    then bit_clear
    else bit_set

-- `|= 1 << bit` and `&= ~(1 << bit)` on a byte.
abbrev pub with_bit : ℕ → ℕ → Bool → ℕ
with_bit byte bit state = if state then bit_or byte (2 ^ bit) else bit_and byte (255 - 2 ^ bit)

-- The offset of the changed byte, and the data.
unfoldable pub set_stop_bit : ℕ → Bool → List ℕ → ℕ × List ℕ
set_stop_bit stop state bytes =
    let offset = stop / 7 in
    let bit = stop - offset * 7 in
    let room = if leb (length bytes) offset then resize (suc offset) 0 bytes else bytes in
    (offset, set room offset (with_bit (get_or room offset 0) bit state))
