-- ===== src/Midi/Receive.antt =====
-- GOMidiEvent::FromMidi of src/grandorgue/midi/events/GOMidiEvent.cpp: a MIDI message, a list of
-- bytes, becomes an event. `none` is what the code must not come to: a read outside the message, or a
-- size that wrapped around. A branch says how many bytes it reads.
use grandorgue.Prelude.{
  ℕ, ◌+◌, ◌-◌, ◌/◌, Bool, ◌&&◌, Option, none, some, true, false, List, [], ◌∷◌, length, take, drop,
  bit_or, ltb, ◌==◌, if◌then◌else◌,
}
use grandorgue.Prelude.Int.{pos}
use grandorgue.Prelude.Bits.{◌<<<◌, low_bits}
use grandorgue.Midi.NameMap.{Name, MidiMap, ensure_recorder_element_name}
use grandorgue.Midi.Event.{
  MidiType, midi_none, midi_reset, midi_note, midi_aftertouch, midi_ctrl_change, midi_pgm_change,
  midi_sysex_johannus_9, midi_sysex_johannus_11, midi_sysex_viscount, midi_sysex_ahlborn_galanti,
  midi_sysex_go_clear, midi_sysex_go_setup, midi_sysex_go_sampleset, midi_sysex_rodgers_stop_change,
  Event, minus_one,
}
use grandorgue.Midi.Message.{
  byte_at, has_bytes, both, is_johannus_9, is_johannus_11, is_viscount, is_grandorgue, is_rodgers,
  is_ahlborn_galanti,
}

-- What the code uses of wxString: the conversions from and to a C string. `to_ascii` gives a byte
-- for each character.
pub record Ascii : Type 0 where
  pub from_ascii : List ℕ → Name
  pub to_ascii : Name → List ℕ

abbrev pub Received : Type 0
Received = Option (Event × MidiMap)

-- What follows reads the first n bytes of the message.
abbrev pub within : ℕ → List ℕ → Received → Received
within n msg r = if ltb (length msg) n then none else r

abbrev pub when : Option Bool → Received → Received → Received
when none x y = none
when (some true) x y = x
when (some false) x y = y

-- (m[i] & 0x7F) << shift.
abbrev pub seven_bits : List ℕ → ℕ → ℕ → ℕ
seven_bits msg i shift = low_bits (byte_at msg i) 7 <<< shift

-- Three bytes for a message on a channel.
unfoldable pub channel_message : MidiType → List ℕ → ℕ → Event → Event
channel_message t msg value e = record e {
  midi_type = t;
  channel = pos (low_bits (byte_at msg 0) 4 + 1);
  key = pos (low_bits (byte_at msg 1) 7);
  value = pos value;
}

-- Four bytes, seven bits of each used, eight apart.
unfoldable pub four_sevens : List ℕ → ℕ → ℕ
four_sevens msg i =
    bit_or
      (bit_or (bit_or (seven_bits msg i 24) (seven_bits msg (i + 1) 16)) (seven_bits msg (i + 2) 8))
      (seven_bits msg (i + 3) 0)

module _ (wx : Ascii) where
  -- The name of a setup message: `msg.size() - 8` bytes from index 7 on. With fewer than 8 bytes
  -- that size, and the size of the buffer, `msg.size() - 7`, are taken below zero.
  unfoldable pub receive_setup : List ℕ → MidiMap → Event → Received
  receive_setup msg map e =
      if ltb (length msg) 8
      then none
      else let text = wx.from_ascii (take (length msg - 8) (drop 7 msg)) in
        let (id, map') = ensure_recorder_element_name text map in
        some (
          record e {
            channel = pos (low_bits (byte_at msg 4) 4 + 1);
            value = pos (bit_or (seven_bits msg 5 7) (seven_bits msg 6 0));
            key = id;
            midi_type = midi_sysex_go_setup;
          },
          map',
        )

  -- The data are `msg.size() - 9` bytes from index 7 on.
  unfoldable pub receive_rodgers : List ℕ → MidiMap → Event → Received
  receive_rodgers msg map e =
      if ltb (length msg) 9
      then none
      else some (
        record e {
          channel = pos (byte_at msg 2);
          key = pos (byte_at msg 6);
          bytes = take (length msg - 9) (drop 7 msg);
          midi_type = midi_sysex_rodgers_stop_change;
        },
        map,
      )

  unfoldable pub receive_ahlborn_galanti : List ℕ → MidiMap → Event → Received
  receive_ahlborn_galanti msg map e = within 4 msg (
      some (
        record e {
          value = pos (bit_or (seven_bits msg 2 7) (seven_bits msg 3 0));
          midi_type = midi_sysex_ahlborn_galanti;
        },
        map,
      ))

  -- The tests that follow those for GrandOrgue's own messages.
  unfoldable pub receive_foreign : List ℕ → MidiMap → Event → Received
  receive_foreign msg map e =
      when (is_rodgers msg) (receive_rodgers msg map e)
        (when (is_ahlborn_galanti msg) (receive_ahlborn_galanti msg map e) (some (e, map)))

  unfoldable pub receive_grandorgue : List ℕ → MidiMap → Event → Received
  receive_grandorgue msg map e = within 5 msg (
      if byte_at msg 4 == 0x00 && length msg == 6
      then some (record e { midi_type = midi_sysex_go_clear }, map)
      else if byte_at msg 4 == 0x01 && length msg == 14
      then within 13 msg (
          some (
            record e {
              midi_type = midi_sysex_go_sampleset;
              key = pos (four_sevens msg 5);
              value = pos (four_sevens msg 9);
            },
            map,
          ))
      else if byte_at msg 4 / 16 == 1
      then receive_setup msg map e
      else receive_foreign msg map e)

  unfoldable pub receive_johannus_9 : List ℕ → MidiMap → Event → Received
  receive_johannus_9 msg map e =
      within 8 msg
        (some (record e { key = pos (byte_at msg 7); midi_type = midi_sysex_johannus_9 }, map))

  unfoldable pub receive_johannus_11 : List ℕ → MidiMap → Event → Received
  receive_johannus_11 msg map e = within 10 msg (
      some (
        record e {
          key = pos (byte_at msg 9);
          value = pos (byte_at msg 7);
          midi_type = midi_sysex_johannus_11;
        },
        map,
      ))

  unfoldable pub receive_viscount : List ℕ → MidiMap → Event → Received
  receive_viscount msg map e = within 5 msg (
      some (
        record e {
          value =
              pos (bit_or (bit_or (seven_bits msg 2 14) (seven_bits msg 3 7)) (seven_bits msg 4 0));
          midi_type = midi_sysex_viscount;
        },
        map,
      ))

  unfoldable pub receive_sysex : List ℕ → MidiMap → Event → Received
  receive_sysex msg map e =
      when (both (some (length msg == 1)) (has_bytes msg ((0, 0xFF) ∷ [])))
        (some (record e { midi_type = midi_reset }, map))
        (when (is_johannus_9 msg) (receive_johannus_9 msg map e) (
          when (is_johannus_11 msg) (receive_johannus_11 msg map e) (
            when (is_viscount msg) (receive_viscount msg map e) (
              when (is_grandorgue msg) (receive_grandorgue msg map e)
                (receive_foreign msg map e)))))

  abbrev pub cleared : Event → Event
  cleared e = record e {
    midi_type = midi_none;
    channel = minus_one;
    key = minus_one;
    value = minus_one;
  }

  -- The switch on `msg[0] & 0xF0`, written as the upper four bits.
  unfoldable pub from_midi : List ℕ → MidiMap → Event → Received
  from_midi msg map e =
      let e0 = cleared e in
      let status = byte_at msg 0 / 16 in
      let value = low_bits (byte_at msg 2) 7 in
      let three = length msg == 3 in
      let ignored : Received = some (e0, map) in
      if length msg == 0
      then ignored
      else within 1 msg (
          if status == 8
          then (if three
              then within 3 msg (some (channel_message midi_note msg 0 e0, map))
              else ignored)
          else if status == 9
          then (if three
              then within 3 msg (some (channel_message midi_note msg value e0, map))
              else ignored)
          else if status == 10
          then (if three
              then within 3 msg (some (channel_message midi_aftertouch msg value e0, map))
              else ignored)
          else if status == 11
          then (if three
              then within 3 msg (some (channel_message midi_ctrl_change msg value e0, map))
              else ignored)
          else if status == 12
          then (if length msg == 2
              then within 2 msg (
                  some (
                    record e0 {
                      midi_type = midi_pgm_change;
                      channel = pos (low_bits (byte_at msg 0) 4 + 1);
                      key = pos (low_bits (byte_at msg 1) 7 + 1);
                    },
                    map,
                  ))
              else ignored)
          else if status == 15
          then receive_sysex msg map e0
          else ignored)
