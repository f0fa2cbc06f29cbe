-- ===== src/Midi/RoundTrip/Program.antt =====
-- Program changes, which take three messages: a port that hears them one after the other puts them
-- together again.
use grandorgue.Prelude.{
  ℕ, ◌+◌, ◌-◌, ◌*◌, ◌/◌, ◌%◌, ◌^◌, ◌≤◌, ◌<◌, ◌≡◌, ◌∙◌, true, some, List, [], ◌∷◌, arith, get_or,
  set, get_or-set_self,
}
use grandorgue.Prelude.Int.{pos}
use grandorgue.Midi.NameMap.{MidiMap}
use grandorgue.Midi.Event.{midi_pgm_change, Event, new_event}
use grandorgue.Midi.Receive.{Ascii, cleared, from_midi}
use grandorgue.Midi.Send.{to_midi, control_change, send_pgm_change}
use grandorgue.Midi.InputMerger.{Merger, process, process_at, uses_channel, channel_index}
use grandorgue.Midi.Ports.{InPort, receive, receive_event, receive_all, deliver}
use grandorgue.Midi.RoundTrip.Channel.{message, on_channel-eq}
use grandorgue.Midi.RoundTrip.Merged.{
  IsMerger, stamped, process_bank_msb, process_bank_lsb, join_three, receive_kept, receive_three,
}

abbrev pub program : Event → ℕ → ℕ → Event
program e channel key = record e {
  midi_type = midi_pgm_change;
  channel = pos channel;
  key = pos key;
}

abbrev pub program_message : ℕ → ℕ → List ℕ
program_message channel a = (192 + (channel - 1)) ∷ a ∷ []

module _ (e : Event) (channel : ℕ) (h : 0 < channel) (k : channel ≤ 16) where
  pub hears_program :
      (wx : Ascii) (map : MidiMap) (a : ℕ)
      → a < 128
      → from_midi wx (program_message channel a) map e
        ≡ some (program (cleared wx e) channel (a + 1), map)
  unfolding from_midi
  hears_program wx map a a_lt = ground arith

  process-program :
      (m : Merger) (a b d : ℕ)
      → a < 128
      → b < 128
      → d < 128
      → get_or m.bank_lsb (channel - 1) 0 ≡ b
      → get_or m.bank_msb (channel - 1) 0 ≡ d
      → process m (program e channel (a + 1))
        ≡ some (m, program e channel (d * 16384 + b * 128 + a + 1), true)
  unfolding process process_at uses_channel channel_index
  process-program m a b d a_lt b_lt d_lt lsb msb = ground (arith, join_three a b d a_lt b_lt d_lt)

module _ (wx : Ascii) (map : MidiMap) (e : Event) (channel key : ℕ)
    (t : e.midi_type ≡ midi_pgm_change) (c : e.channel ≡ pos channel) (q : e.key ≡ pos key)
    (h : 0 < channel) (k : channel ≤ 16) (positive : 0 < key) where
  sends_program :
      to_midi wx map e
      ≡ message 11 channel 0 ((key - 1) / 16384 % 128)
        ∷ message 11 channel 32 ((key - 1) / 128 % 128)
        ∷ program_message channel ((key - 1) % 128)
        ∷ []
  unfolding to_midi send_pgm_change control_change
  sends_program = ground (arith, on_channel-eq 11 channel h k, on_channel-eq 12 channel h k)

module _ (wx : Ascii) (p : InPort) (map : MidiMap) (now : ℕ) (active : p.is_active ≡ true)
    (valid : IsMerger p.merger) (e : Event) (channel key : ℕ) (c : e.channel ≡ pos channel)
    (q : e.key ≡ pos key) (h : 0 < channel) (k : channel ≤ 16) where
  abbrev n : ℕ
  n = key - 1

  -- The merger with the bank that the first two messages select.
  abbrev with_bank : Merger
  with_bank = record p.merger {
    bank_msb = set p.merger.bank_msb (channel - 1) (n / 16384 % 128);
    bank_lsb = set p.merger.bank_lsb (channel - 1) (n / 128 % 128);
  }

  receive-program :
      (q : Merger)
      → process q (program (stamped wx p now) channel (n % 128 + 1))
        ≡ some (q, program (stamped wx p now) channel key, true)
      → receive wx (record p { merger = q }) map now (program_message channel (n % 128))
        ≡ some
            (record p { merger = q }, map, deliver p (program (stamped wx p now) channel key) ∷ [])
  unfolding receive receive_event
  receive-program q e' =
      simp (active, hears_program (new_event 0) channel h k wx map (n % 128) (omega arith), e')

  process-with_bank :
      0 < key
      → key ≤ 2 ^ 21
      → process with_bank (program (stamped wx p now) channel (n % 128 + 1))
        ≡ some (with_bank, program (stamped wx p now) channel key, true)
  process-with_bank positive small =
      let lsb =
        get_or-set_self p.merger.bank_lsb (channel - 1) (n / 128 % 128) 0
          (omega (arith, valid.bank_lsb_16)) in
      let msb =
        get_or-set_self p.merger.bank_msb (channel - 1) (n / 16384 % 128) 0
          (omega (arith, valid.bank_msb_16)) in
      let whole : n / 16384 % 128 * 16384 + n / 128 % 128 * 128 + n % 128 + 1 ≡ key = omega arith in
      process-program (stamped wx p now) channel h k with_bank (n % 128) (n / 128 % 128)
        (n / 16384 % 128) (omega arith) (omega arith) (omega arith) lsb msb
      ∙ rw whole

  -- A program change with a key from 1 to 2^21 is sent as three messages. A port that hears them,
  -- whatever banks it has heard before, delivers one program change with the same key, on the same
  -- channel but for the port's channel shift, and with its id as the device.
  pub receive_all-program :
      e.midi_type ≡ midi_pgm_change
      → 0 < key
      → key ≤ 2 ^ 21
      → receive_all wx p map now (to_midi wx map e)
        ≡ some (
          record p { merger = with_bank },
          map,
          deliver p (program (stamped wx p now) channel key) ∷ [],
        )
  receive_all-program t positive small =
      rw (sends_program wx map e channel key t c q h k positive) (
        receive_three wx p
          (record p {
            merger = record p.merger {
              bank_msb = set p.merger.bank_msb (channel - 1) (n / 16384 % 128);
            };
          })
          (record p { merger = with_bank }) (record p { merger = with_bank }) map now _ _ _ _
          (receive_kept wx p map now active channel 0 _ h k (omega arith) (omega arith) _
            (process_bank_msb p.merger (stamped wx p now) channel _ h k (omega arith)))
          (receive_kept wx
            (record p {
              merger = record p.merger {
                bank_msb = set p.merger.bank_msb (channel - 1) (n / 16384 % 128);
              };
            })
            map now active channel 32 _ h k (omega arith) (omega arith) _
            (process_bank_lsb _ (stamped wx p now) channel _ h k (omega arith)))
          (receive-program with_bank (process-with_bank positive small)))
