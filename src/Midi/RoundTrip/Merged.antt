-- ===== src/Midi/RoundTrip/Merged.antt =====
-- Bank selects and parameter numbers, which the merger of a port keeps, and messages that a port hears
-- one after the other.
use grandorgue.Prelude.{
  ℕ, ◌+◌, ◌-◌, ◌*◌, ◌%◌, ◌^◌, ◌≤◌, ◌<◌, ◌≡◌, refl, ◌∙◌, true, false, some, List, [], ◌∷◌, ◌++◌,
  arith, length, set, bit_or,
}
use grandorgue.Prelude.Int.{pos}
use grandorgue.Prelude.Bits.{bit_or_low_high, ◌<<<◌}
use grandorgue.Midi.NameMap.{MidiMap}
use grandorgue.Midi.Event.{midi_ctrl_change, Event, new_event}
use grandorgue.Midi.Receive.{Ascii, cleared}
use grandorgue.Midi.Send.{Messages}
use grandorgue.Midi.InputMerger.{Merger, process, process_at, uses_channel, channel_index}
use grandorgue.Midi.Ports.{InPort, receive, receive_event, receive_all, deliver}
use grandorgue.Midi.RoundTrip.Channel.{message, hears_control}

-- The arrays have their 16 entries.
pub record IsMerger (m : Merger) : Type 0 where
  pub bank_lsb_16 : length m.bank_lsb ≡ 16
  pub bank_msb_16 : length m.bank_msb ≡ 16
  pub rpn_lsb_16 : length m.rpn_lsb ≡ 16
  pub rpn_msb_16 : length m.rpn_msb ≡ 16
  pub nrpn_lsb_16 : length m.nrpn_lsb ≡ 16
  pub nrpn_msb_16 : length m.nrpn_msb ≡ 16

-- The event that a control change is heard as.
abbrev pub control : Event → ℕ → ℕ → ℕ → Event
control e channel key value = record e {
  midi_type = midi_ctrl_change;
  channel = pos channel;
  key = pos key;
  value = pos value;
}

module _ (m : Merger) (e : Event) (channel value : ℕ) (h : 0 < channel) (k : channel ≤ 16)
    (lt : value < 128) where
  pub process_bank_msb :
      process m (control e channel 0 value)
      ≡ some (
        record m { bank_msb = set m.bank_msb (channel - 1) value },
        control e channel 0 value,
        false,
      )
  unfolding process process_at uses_channel channel_index
  process_bank_msb = ground arith

  pub process_bank_lsb :
      process m (control e channel 32 value)
      ≡ some (
        record m { bank_lsb = set m.bank_lsb (channel - 1) value },
        control e channel 32 value,
        false,
      )
  unfolding process process_at uses_channel channel_index
  process_bank_lsb = ground arith

  pub process_rpn_lsb :
      process m (control e channel 100 value)
      ≡ some (
        record m { rpn_lsb = set m.rpn_lsb (channel - 1) value; is_rpn = true },
        control e channel 100 value,
        false,
      )
  unfolding process process_at uses_channel channel_index
  process_rpn_lsb = ground arith

  pub process_rpn_msb :
      process m (control e channel 101 value)
      ≡ some (
        record m { rpn_msb = set m.rpn_msb (channel - 1) value; is_rpn = true },
        control e channel 101 value,
        false,
      )
  unfolding process process_at uses_channel channel_index
  process_rpn_msb = ground arith

  pub process_nrpn_lsb :
      process m (control e channel 98 value)
      ≡ some (
        record m { nrpn_lsb = set m.nrpn_lsb (channel - 1) value; is_rpn = false },
        control e channel 98 value,
        false,
      )
  unfolding process process_at uses_channel channel_index
  process_nrpn_lsb = ground arith

  pub process_nrpn_msb :
      process m (control e channel 99 value)
      ≡ some (
        record m { nrpn_msb = set m.nrpn_msb (channel - 1) value; is_rpn = false },
        control e channel 99 value,
        false,
      )
  unfolding process process_at uses_channel channel_index
  process_nrpn_msb = ground arith

abbrev u32 : ℕ → ℕ
u32 n = n % 2 ^ 32

-- Seven bits each, put side by side.
pub join_two : (a b : ℕ) → a < 128 → b < 128 → bit_or a (u32 (b <<< 7)) ≡ b * 128 + a
join_two a b h k =
    let e : u32 (b <<< 7) ≡ b <<< 7 = omega arith in rw e (bit_or_low_high 7 b a (omega arith))

pub join_three :
    (a b c : ℕ)
    → a < 128
    → b < 128
    → c < 128
    → bit_or (bit_or a (u32 (b <<< 7))) (u32 (c <<< 14)) ≡ c * 16384 + b * 128 + a
join_three a b c h k l =
    let e : u32 (c <<< 14) ≡ c <<< 14 = omega arith in
    rw (join_two a b h k, e) (bit_or_low_high 14 c (b * 128 + a) (omega arith) ∙ omega arith)

-- A new event with the id of the port and the time of arrival.
abbrev pub stamped : Ascii → InPort → ℕ → Event
stamped wx p now = record (cleared wx (new_event 0)) { device = p.id; time = now }

module _ (wx : Ascii) (p : InPort) (map : MidiMap) (now : ℕ) (active : p.is_active ≡ true)
    (channel key value : ℕ) (h : 0 < channel) (k : channel ≤ 16) (key_lt : key < 128)
    (lt : value < 128) where
  -- A control change that the merger keeps.
  pub receive_kept :
      (m : Merger)
      → process p.merger (control (stamped wx p now) channel key value)
        ≡ some (m, control (stamped wx p now) channel key value, false)
      → receive wx p map now (message 11 channel key value)
        ≡ some (record p { merger = m }, map, [])
  unfolding receive receive_event
  receive_kept m e =
      simp (active, hears_control wx map (new_event 0) channel key value h k key_lt lt, e)

  -- One that it turns into another event.
  pub receive_passed :
      (m : Merger) (e' : Event)
      → process p.merger (control (stamped wx p now) channel key value) ≡ some (m, e', true)
      → receive wx p map now (message 11 channel key value)
        ≡ some (record p { merger = m }, map, deliver p e' ∷ [])
  unfolding receive receive_event
  receive_passed m e' e =
      simp (active, hears_control wx map (new_event 0) channel key value h k key_lt lt, e)

receive_all-cons :
    (wx : Ascii) (p q r : InPort) (map : MidiMap) (now : ℕ) (a : List ℕ) (as' : Messages)
    (events more : List Event)
    → receive wx p map now a ≡ some (q, map, events)
    → receive_all wx q map now as' ≡ some (r, map, more)
    → receive_all wx p map now (a ∷ as') ≡ some (r, map, events ++ more)
unfolding receive_all
receive_all-cons wx p q r map now a as' events more h k = rw (h, receive_all) (rw (k, receive_all))

-- Two quiet messages and one that is heard.
pub receive_three :
    (wx : Ascii) (p q r s : InPort) (map : MidiMap) (now : ℕ) (a b c : List ℕ) (e : Event)
    → receive wx p map now a ≡ some (q, map, [])
    → receive wx q map now b ≡ some (r, map, [])
    → receive wx r map now c ≡ some (s, map, e ∷ [])
    → receive_all wx p map now (a ∷ b ∷ c ∷ []) ≡ some (s, map, e ∷ [])
receive_three wx p q r s map now a b c e h k l =
    receive_all-cons wx p q s map now a (b ∷ c ∷ []) [] (e ∷ []) h (
      receive_all-cons wx q r s map now b (c ∷ []) [] (e ∷ []) k
        (receive_all-cons wx r s s map now c [] (e ∷ []) [] l (unfold receive_all in refl)))
