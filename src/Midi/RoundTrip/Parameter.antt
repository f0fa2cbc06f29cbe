-- ===== src/Midi/RoundTrip/Parameter.antt =====
-- Registered and non-registered parameter numbers through the merger.
use grandorgue.Prelude.{
  ℕ, ◌+◌, ◌-◌, ◌*◌, ◌/◌, ◌%◌, ◌^◌, ◌≤◌, ◌<◌, ◌≡◌, refl, ◌∙◌, Bool, true, false, some, [], ◌∷◌,
  arith, get_or, set, get_or-set_self,
}
use grandorgue.Prelude.Int.{pos}
use grandorgue.Midi.NameMap.{MidiMap}
use grandorgue.Midi.Event.{MidiType, midi_rpn, midi_nrpn, Event}
use grandorgue.Midi.Receive.{Ascii}
use grandorgue.Midi.Send.{to_midi, control_change, send_parameter}
use grandorgue.Midi.InputMerger.{Merger, process, process_at, uses_channel, channel_index}
use grandorgue.Midi.Ports.{InPort, receive_all, deliver}
use grandorgue.Midi.RoundTrip.Channel.{message, on_channel-eq}
use grandorgue.Midi.RoundTrip.Merged.{
  IsMerger, control, stamped, join_two, receive_kept, receive_passed, receive_three,
  process_rpn_lsb, process_rpn_msb, process_nrpn_lsb, process_nrpn_msb,
}

abbrev pub parameter_type : Bool → MidiType
parameter_type true = midi_rpn
parameter_type false = midi_nrpn

abbrev msb_controller : Bool → ℕ
msb_controller true = 101
msb_controller false = 99

abbrev lsb_controller : Bool → ℕ
lsb_controller true = 100
lsb_controller false = 98

-- The merger after the upper and after the lower seven bits of a number.
abbrev with_msb : Bool → Merger → ℕ → ℕ → Merger
with_msb true m i v = record m { rpn_msb = set m.rpn_msb i v; is_rpn = true }
with_msb false m i v = record m { nrpn_msb = set m.nrpn_msb i v; is_rpn = false }

abbrev with_lsb : Bool → Merger → ℕ → ℕ → Merger
with_lsb true m i v = record m { rpn_lsb = set m.rpn_lsb i v; is_rpn = true }
with_lsb false m i v = record m { nrpn_lsb = set m.nrpn_lsb i v; is_rpn = false }

module _ (registered : Bool) (m : Merger) (e : Event) (channel value : ℕ) (h : 0 < channel)
    (k : channel ≤ 16) (lt : value < 128) where
  process_msb :
      process m (control e channel (msb_controller registered) value)
      ≡ some (
        with_msb registered m (channel - 1) value,
        control e channel (msb_controller registered) value,
        false,
      )
  process_msb =
      elim registered
        as (λ b.
          process m (control e channel (msb_controller b) value)
          ≡ some (
            with_msb b m (channel - 1) value,
            control e channel (msb_controller b) value,
            false,
          )) [
            | true ↦ process_rpn_msb m e channel value h k lt
            | false ↦ process_nrpn_msb m e channel value h k lt
          ]

  process_lsb :
      process m (control e channel (lsb_controller registered) value)
      ≡ some (
        with_lsb registered m (channel - 1) value,
        control e channel (lsb_controller registered) value,
        false,
      )
  process_lsb =
      elim registered
        as (λ b.
          process m (control e channel (lsb_controller b) value)
          ≡ some (
            with_lsb b m (channel - 1) value,
            control e channel (lsb_controller b) value,
            false,
          )) [
            | true ↦ process_rpn_lsb m e channel value h k lt
            | false ↦ process_nrpn_lsb m e channel value h k lt
          ]

abbrev parameter : Bool → Event → ℕ → ℕ → ℕ → Event
parameter registered e channel key value = record e {
  midi_type = parameter_type registered;
  channel = pos channel;
  key = pos key;
  value = pos value;
}

module _ (m : Merger) (e : Event) (channel a b value : ℕ) (h : 0 < channel) (k : channel ≤ 16)
    (a_lt : a < 128) (b_lt : b < 128) where
  process_rpn_entry :
      m.is_rpn ≡ true
      → get_or m.rpn_lsb (channel - 1) 0 ≡ a
      → get_or m.rpn_msb (channel - 1) 0 ≡ b
      → process m (control e channel 6 value)
        ≡ some (m, parameter true e channel (b * 128 + a) value, true)
  unfolding process process_at uses_channel channel_index
  process_rpn_entry r lsb msb = ground (arith, join_two a b a_lt b_lt)

  process_nrpn_entry :
      m.is_rpn ≡ false
      → get_or m.nrpn_lsb (channel - 1) 0 ≡ a
      → get_or m.nrpn_msb (channel - 1) 0 ≡ b
      → process m (control e channel 6 value)
        ≡ some (m, parameter false e channel (b * 128 + a) value, true)
  unfolding process process_at uses_channel channel_index
  process_nrpn_entry r lsb msb = ground (arith, join_two a b a_lt b_lt)

module _ (wx : Ascii) (map : MidiMap) (e : Event) (channel key value : ℕ)
    (c : e.channel ≡ pos channel) (q : e.key ≡ pos key) (v : e.value ≡ pos value) (h : 0 < channel)
    (k : channel ≤ 16) (value_lt : value < 128) where
  sends_parameter :
      (registered : Bool)
      → e.midi_type ≡ parameter_type registered
      → to_midi wx map e
        ≡ message 11 channel (msb_controller registered) (key / 128 % 128)
          ∷ message 11 channel (lsb_controller registered) (key % 128)
          ∷ message 11 channel 6 value
          ∷ []
  unfolding to_midi send_parameter control_change
  sends_parameter true t = ground (arith, on_channel-eq 11 channel h k)
  sends_parameter false t = ground (arith, on_channel-eq 11 channel h k)

module _ (wx : Ascii) (p : InPort) (map : MidiMap) (now : ℕ) (active : p.is_active ≡ true)
    (valid : IsMerger p.merger) (channel key value : ℕ) (h : 0 < channel) (k : channel ≤ 16)
    (small : key < 2 ^ 14) (value_lt : value < 128) where
  abbrev high : ℕ
  high = key / 128 % 128

  abbrev low : ℕ
  low = key % 128

  abbrev after_msb : Bool → Merger
  after_msb r = with_msb r p.merger (channel - 1) high

  abbrev with_number : Bool → Merger
  with_number r = with_lsb r (after_msb r) (channel - 1) low

  whole : high * 128 + low ≡ key
  whole = omega arith

  process_entry :
      (registered : Bool)
      → process (with_number registered) (control (stamped wx p now) channel 6 value)
        ≡ some (
          with_number registered,
          parameter registered (stamped wx p now) channel key value,
          true,
        )
  process_entry true =
      process_rpn_entry (with_number true) (stamped wx p now) channel low high value h k
        (omega arith) (omega arith) refl
        (get_or-set_self p.merger.rpn_lsb (channel - 1) low 0 (omega (arith, valid.rpn_lsb_16)))
        (get_or-set_self p.merger.rpn_msb (channel - 1) high 0 (omega (arith, valid.rpn_msb_16)))
      ∙ rw whole
  process_entry false =
      process_nrpn_entry (with_number false) (stamped wx p now) channel low high value h k
        (omega arith) (omega arith) refl
        (get_or-set_self p.merger.nrpn_lsb (channel - 1) low 0 (omega (arith, valid.nrpn_lsb_16)))
        (get_or-set_self p.merger.nrpn_msb (channel - 1) high 0 (omega (arith, valid.nrpn_msb_16)))
      ∙ rw whole

  -- A registered or non-registered parameter number below 2^14 is sent as three control changes. A
  -- port that hears them, whatever it has heard before, delivers one event of the same type with the
  -- same number and value, on the same channel but for the port's channel shift.
  pub receive_all-parameter :
      (registered : Bool) (e : Event)
      → e.midi_type ≡ parameter_type registered
      → e.channel ≡ pos channel
      → e.key ≡ pos key
      → e.value ≡ pos value
      → receive_all wx p map now (to_midi wx map e)
        ≡ some (
          record p { merger = with_number registered },
          map,
          deliver p (parameter registered (stamped wx p now) channel key value) ∷ [],
        )
  receive_all-parameter registered e t c q v =
      let q1 = record p { merger = after_msb registered } in
      let q2 = record p { merger = with_number registered } in
      rw (sends_parameter wx map e channel key value c q v h k value_lt registered t) (
        receive_three wx p q1 q2 q2 map now _ _ _ _
          (receive_kept wx p map now active channel (msb_controller registered) high h k
            (msb_lt registered) (omega arith) _
            (process_msb registered p.merger (stamped wx p now) channel high h k (omega arith)))
          (receive_kept wx q1 map now active channel (lsb_controller registered) low h k
            (lsb_lt registered) (omega arith) _
            (process_lsb registered (after_msb registered) (stamped wx p now) channel low h k
              (omega arith)))
          (receive_passed wx q2 map now active channel 6 value h k (omega arith) value_lt _ _
            (process_entry registered)))
    where
      msb_lt : (r : Bool) → msb_controller r < 128
      msb_lt true = omega arith
      msb_lt false = omega arith

      lsb_lt : (r : Bool) → lsb_controller r < 128
      lsb_lt true = omega arith
      lsb_lt false = omega arith
