-- ===== src/Midi/Rodgers/Laws.antt =====
-- A stop bit that is set reads back, and the others stay.
use grandorgue.Prelude.{
  ℕ, zero, suc, ◌-◌, ◌*◌, ◌/◌, ◌%◌, ◌^◌, ◌≤◌, ◌<◌, ◌≡◌, refl, ap, ◌∙◌, ◌≢◌, Bool, true, false, ◌&&◌,
  not, List, [], ◌∷◌, arith, length, get_or, set, resize, All, length-set, length-resize,
  get_or-set_self, get_or-set_ne, bit_and, ltb, leb, ◌==◌, if◌then◌else◌, ℕ_discrete,
}
use grandorgue.Midi.Rodgers.{
  BitState, bit_clear, bit_set, bit_not_present, get_bit, with_bit, set_stop_bit,
}

-- Does a test hold at each number under a bound?
holds_under : (ℕ → Bool) → ℕ → Bool
holds_under test zero = true
holds_under test (suc bound) = if holds_under test bound then test bound else false

holds_under-at :
    (test : ℕ → Bool) (bound i : ℕ) → i < bound → holds_under test bound ≡ true → test i ≡ true
unfolding holds_under
holds_under-at test zero i inside all = absurd (omega (arith, inside))
holds_under-at test (suc bound) i inside all =
    ground (arith, all, inside, holds_under-at test bound i)

abbrev has_bit : ℕ → ℕ → Bool
has_bit byte bit = not (bit_and byte (2 ^ bit) == 0)

abbrev same_bool : Bool → Bool → Bool
same_bool true b = b
same_bool false b = not b

-- The laws of one byte, at every byte and every pair of its seven bits.
abbrev byte_laws : Bool → ℕ → ℕ → ℕ → Bool
byte_laws on byte bit other =
    ltb (with_bit byte bit on) 256
    && same_bool (has_bit (with_bit byte bit on) bit) on
    && (if bit == other
        then true
        else same_bool (has_bit (with_bit byte bit on) other) (has_bit byte other))

byte_table : Bool → Bool
byte_table on =
    holds_under (λ byte. holds_under (λ bit. holds_under (byte_laws on byte bit) 7) 7) 256

byte_table-holds : (on : Bool) → byte_table on ≡ true
unfolding byte_table holds_under
byte_table-holds true = refl
byte_table-holds false = refl

byte_laws_hold :
    (on : Bool) (byte bit other : ℕ)
    → byte < 256
    → bit < 7
    → other < 7
    → byte_laws on byte bit other ≡ true
unfolding byte_table
byte_laws_hold on byte bit other h k l =
    let at_byte =
      holds_under-at (λ y. holds_under (λ b. holds_under (byte_laws on y b) 7) 7) 256 byte h
        (byte_table-holds on) in
    let at_bit = holds_under-at (λ b. holds_under (byte_laws on byte b) 7) 7 bit k at_byte in
    holds_under-at (byte_laws on byte bit) 7 other l at_bit

with_bit-lt : (on : Bool) (byte bit : ℕ) → byte < 256 → bit < 7 → with_bit byte bit on < 256
with_bit-lt on byte bit h k = ground (arith, byte_laws_hold on byte bit bit h k k)

has_bit_self :
    (on : Bool) (byte bit : ℕ) → byte < 256 → bit < 7 → has_bit (with_bit byte bit on) bit ≡ on
has_bit_self on byte bit h k = ground (arith, byte_laws_hold on byte bit bit h k k)

has_bit_other :
    (on : Bool) (byte bit other : ℕ)
    → byte < 256
    → bit < 7
    → other < 7
    → bit ≢ other
    → has_bit (with_bit byte bit on) other ≡ has_bit byte other
has_bit_other on byte bit other h k l ne = ground (arith, byte_laws_hold on byte bit other h k l)

abbrev pub IsBytes : List ℕ → Type 0
IsBytes l = All (λ b. b < 256) l

abbrev state_of : Bool → BitState
state_of true = bit_set
state_of false = bit_clear

-- The state of a bit of a byte of the data.
abbrev state_at : List ℕ → ℕ → ℕ → BitState
state_at bytes i bit =
    if leb (length bytes) i then bit_not_present else state_of (has_bit (get_or bytes i 0) bit)

get_bit_lem :
    (stop offset : ℕ) (bytes : List ℕ)
    → offset * 7 ≤ stop
    → get_bit stop offset bytes ≡ state_at bytes ((stop - offset * 7) / 7) ((stop - offset * 7) % 7)
unfolding get_bit
get_bit_lem stop offset bytes h =
    let r = stop - offset * 7 in let e : r - r / 7 * 7 ≡ r % 7 = omega arith in rw e (ground arith)

get_or-lt : (l : List ℕ) (i : ℕ) → IsBytes l → get_or l i 0 < 256
get_or-lt [] i h = omega arith
get_or-lt (x ∷ l) zero h = h.0
get_or-lt (x ∷ l) (suc i) h = get_or-lt l i h.1

get_or-resize : (n i : ℕ) (l : List ℕ) → length l ≤ n → get_or (resize n 0 l) i 0 ≡ get_or l i 0
get_or-resize zero i [] h = refl
get_or-resize zero i (x ∷ l) h = absurd (omega arith)
get_or-resize (suc n) zero [] h = refl
get_or-resize (suc n) (suc i) [] h = get_or-resize n i [] (omega arith)
get_or-resize (suc n) zero (x ∷ l) h = refl
get_or-resize (suc n) (suc i) (x ∷ l) h = get_or-resize n i l (omega arith)

module _ (stop : ℕ) (on : Bool) (bytes : List ℕ) where
  abbrev offset : ℕ
  offset = stop / 7

  abbrev room : List ℕ
  room = if leb (length bytes) offset then resize (suc offset) 0 bytes else bytes

  -- The byte that is written.
  abbrev written : ℕ
  written = with_bit (get_or bytes offset 0) (stop % 7) on

  room-get_or : (i : ℕ) → get_or room i 0 ≡ get_or bytes i 0
  room-get_or i = ground (arith, get_or-resize (suc offset) i bytes)

  offset-lt : offset < length room
  offset-lt = ground (arith, length-resize (suc offset) 0 bytes)

  length-room : length bytes ≤ length room
  length-room = ground (arith, length-resize (suc offset) 0 bytes)

  set_stop_bit_lem : set_stop_bit stop on bytes ≡ (offset, set room offset written)
  unfolding set_stop_bit
  set_stop_bit_lem =
      let e : stop - stop / 7 * 7 ≡ stop % 7 = omega arith in rw (e, room-get_or offset)

  get_or-written : get_or (set room offset written) offset 0 ≡ written
  get_or-written = get_or-set_self room offset written 0 offset-lt

  length-written : length (set room offset written) ≡ length room
  length-written = length-set room offset written

  module _ (small : IsBytes bytes) where
    -- The stop that was written has the state that was asked for, whether its byte was there before
    -- or the data was too short.
    pub get_bit-set_stop_bit : get_bit stop 0 (set_stop_bit stop on bytes).1 ≡ state_of on
    get_bit-set_stop_bit =
        let e : stop - 0 ≡ stop = omega arith in
        rw (set_stop_bit_lem, get_bit_lem stop 0 (set room offset written) (omega arith))
          (rw
            (
              e,
              get_or-written,
              has_bit_self on (get_or bytes offset 0) (stop % 7) (get_or-lt bytes offset small)
                  (omega arith),
            )
            (ground (arith, length-written, offset-lt)))

    other_bit :
        (other : ℕ)
        → other ≢ stop
        → has_bit (get_or (set room offset written) (other / 7) 0) (other % 7)
          ≡ has_bit (get_or bytes (other / 7) 0) (other % 7)
    other_bit other ne = elim (ℕ_discrete offset (other / 7)) [
      | yes e ↦ rw (← e) (
          rw get_or-written (
            has_bit_other on (get_or bytes offset 0) (stop % 7) (other % 7)
              (get_or-lt bytes offset small) (omega arith) (omega arith) (λ q. ne (omega arith))))
      | no apart ↦
          ap (λ b. has_bit b (other % 7))
            (get_or-set_ne room offset (other / 7) written 0 apart ∙ room-get_or (other / 7))
    ]

    -- Every other stop that the data held keeps its state.
    pub get_bit-set_stop_bit_ne :
        (other : ℕ)
        → other ≢ stop
        → get_bit other 0 bytes ≢ bit_not_present
        → get_bit other 0 (set_stop_bit stop on bytes).1 ≡ get_bit other 0 bytes
    get_bit-set_stop_bit_ne other ne present =
        let e : other - 0 ≡ other = omega arith in
        let old : get_bit other 0 bytes ≡ state_at bytes (other / 7) (other % 7) =
          get_bit_lem other 0 bytes (omega arith) ∙ rw e in
        let new : get_bit other 0 (set room offset written)
            ≡ state_at (set room offset written) (other / 7) (other % 7) =
          get_bit_lem other 0 (set room offset written) (omega arith) ∙ rw e in
        rw set_stop_bit_lem
          (ground (arith, old, new, other_bit other ne, length-written, length-room))

    -- The byte that is sent, read at the offset that is sent, shows the state of the stop.
    pub get_bit_sent :
        get_bit stop
          (set_stop_bit stop on bytes).0
          (get_or (set_stop_bit stop on bytes).1 (set_stop_bit stop on bytes).0 0 ∷ [])
        ≡ state_of on
    get_bit_sent =
        let at : (stop - stop / 7 * 7) / 7 ≡ 0 = omega arith in
        let bit : (stop - stop / 7 * 7) % 7 ≡ stop % 7 = omega arith in
        rw
          (
            set_stop_bit_lem,
            get_or-written,
            get_bit_lem stop (stop / 7) (written ∷ []) (omega arith),
          )
          (rw (at, bit)
            (ap state_of (
              has_bit_self on (get_or bytes offset 0) (stop % 7) (get_or-lt bytes offset small)
                (omega arith))))
