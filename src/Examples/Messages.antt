-- ===== src/Examples/Messages.antt =====
-- src/grandorgue/midi on a few messages.
use grandorgue.Prelude.{
  ℕ, ◌≡◌, ◌≢◌, inl, refl, true, none, some, List, [], ◌∷◌, arith, set, replicate, get_or,
}
use grandorgue.Prelude.Int.{pos}
use grandorgue.Midi.NameMap
use grandorgue.Midi.NameMap.{MidiMap, NameMap, ensure_name_exists}
use grandorgue.Midi.NameMap.Laws.{IsEnsured, empty-IsValid, ensure_name_exists-IsEnsured}
use grandorgue.Midi.Event.{Event, midi_note, midi_pgm_change, midi_rpn, new_event}
use grandorgue.Midi.Rodgers.{get_bit, set_stop_bit, bit_set}
use grandorgue.Midi.Rodgers.Laws.{get_bit-set_stop_bit_ne, get_bit_sent}
use grandorgue.Midi.Receive.{Ascii, from_midi}
use grandorgue.Midi.Send.{to_midi}
use grandorgue.Midi.InputMerger
use grandorgue.Midi.InputMerger.{Merger, process}
use grandorgue.Midi.Ports.{InPort, receive_all, deliver, shift_channel}
use grandorgue.Midi.RoundTrip.Channel.{heard, from_midi-to_midi}
use grandorgue.Midi.RoundTrip.Merged.{IsMerger, stamped}
use grandorgue.Midi.RoundTrip.Program.{receive_all-program}
use grandorgue.Midi.RoundTrip.Parameter.{receive_all-parameter}
use grandorgue.Midi.RoundTrip.Safety.{process-from_midi-ne-none}

-- Plain seven-bit text.
abbrev wx : Ascii
wx = record { from_ascii = λ l. l; to_ascii = λ n. n }

abbrev no_names : MidiMap
no_names = record { device_map = NameMap.empty; recorder_element_map = NameMap.empty }

abbrev blank : Event
blank = new_event 0

abbrev port : InPort
port = record { is_active = true; id = 3; merger = InputMerger.cleared; channel_shift = pos 1 }

abbrev note : Event
note = record blank { midi_type = midi_note; channel = pos 2; key = pos 60; value = pos 0 }

abbrev program_change : Event
program_change = record blank { midi_type = midi_pgm_change; channel = pos 16; key = pos 20000 }

abbrev number : Event
number = record blank { midi_type = midi_rpn; channel = pos 1; key = pos 300; value = pos 7 }

abbrev short_setup : List ℕ
short_setup = 0xF0 ∷ 0x7D ∷ 0x47 ∷ 0x4F ∷ 0x10 ∷ 0xF7 ∷ []

ensure_name_exists-IsEnsured_example :
    IsEnsured (b'a' ∷ []) NameMap.empty (ensure_name_exists (b'a' ∷ []) NameMap.empty)
unfolding NameMap.is_empty NameMap.empty
ensure_name_exists-IsEnsured_example =
    ensure_name_exists-IsEnsured (b'a' ∷ []) NameMap.empty refl empty-IsValid (omega arith)

from_midi-to_midi_example :
    (m : List ℕ) × (to_midi wx no_names note ≡ m ∷ [])
    × (from_midi wx m no_names blank ≡ heard wx no_names blank midi_note 2 (pos 60) (pos 0))
from_midi-to_midi_example = from_midi-to_midi wx no_names note blank 2 60 0 (inl refl) (record {
  channel_eq = refl;
  key_eq = refl;
  value_eq = refl;
  channel_pos = omega arith;
  channel_le = omega arith;
  key_lt = omega arith;
  value_lt = omega arith;
})

cleared-IsMerger : IsMerger InputMerger.cleared
unfolding InputMerger.cleared
cleared-IsMerger = record {
  bank_lsb_16 = refl;
  bank_msb_16 = refl;
  rpn_lsb_16 = refl;
  rpn_msb_16 = refl;
  nrpn_lsb_16 = refl;
  nrpn_msb_16 = refl;
}

abbrev zeros : List ℕ
zeros = replicate 16 0

receive_all-program_example :
    receive_all wx port no_names 5 (to_midi wx no_names program_change)
    ≡ some (
      record port {
        merger = record InputMerger.cleared {
          bank_msb = set zeros 15 1;
          bank_lsb = set zeros 15 28;
        };
      },
      no_names,
      record (deliver port (stamped wx port 5)) {
        midi_type = midi_pgm_change;
        channel = pos 1;
        key = pos 20000;
      }
          ∷ [],
    )
unfolding InputMerger.cleared shift_channel
receive_all-program_example =
    receive_all-program wx port no_names 5 refl cleared-IsMerger program_change 16 20000 refl refl
      (omega arith) (omega arith) refl (omega arith) (omega arith)

receive_all-parameter_example :
    receive_all wx port no_names 5 (to_midi wx no_names number)
    ≡ some (
      record port {
        merger = record InputMerger.cleared {
          rpn_msb = set zeros 0 2;
          rpn_lsb = set zeros 0 44;
          is_rpn = true;
        };
      },
      no_names,
      record (deliver port (stamped wx port 5)) {
        midi_type = midi_rpn;
        channel = pos 2;
        key = pos 300;
        value = pos 7;
      }
          ∷ [],
    )
unfolding InputMerger.cleared shift_channel
receive_all-parameter_example =
    receive_all-parameter wx port no_names 5 refl cleared-IsMerger 1 300 7 (omega arith)
      (omega arith) (omega arith) (omega arith) true number refl refl refl refl

abbrev heard_program : Event
heard_program = record blank { midi_type = midi_pgm_change; channel = pos 16; key = pos 6 }

hears_program_test : from_midi wx (0xCF ∷ 5 ∷ []) no_names blank ≡ some (heard_program, no_names)
unfolding from_midi new_event
hears_program_test = refl

process-from_midi-ne-none_example : process InputMerger.cleared heard_program ≢ none
process-from_midi-ne-none_example =
    process-from_midi-ne-none wx (0xCF ∷ 5 ∷ []) no_names no_names blank heard_program
      InputMerger.cleared hears_program_test

-- Stop 9 is the third bit of the second byte.
get_bit-set_stop_bit_ne_example :
    get_bit 0 0 (set_stop_bit 9 true (1 ∷ [])).1 ≡ get_bit 0 0 (1 ∷ [])
unfolding get_bit
get_bit-set_stop_bit_ne_example =
    get_bit-set_stop_bit_ne 9 true (1 ∷ []) (omega arith, tt) 0 (λ e. absurd (omega (arith, e)))
      (λ e. cc)

get_bit_sent_example :
    get_bit 9
      (set_stop_bit 9 true (1 ∷ [])).0
      (get_or (set_stop_bit 9 true (1 ∷ [])).1 (set_stop_bit 9 true (1 ∷ [])).0 0 ∷ [])
    ≡ bit_set
get_bit_sent_example = get_bit_sent 9 true (1 ∷ []) (omega arith, tt)
