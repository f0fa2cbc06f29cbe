-- ===== src/Examples/Matching.antt =====
-- src/grandorgue/midi/elements/GOMidiReceiver.cpp with receivers of one pattern.
use grandorgue.Prelude.{ℕ, ◌&&◌, false, not, none, some, List, [], ◌∷◌, ◌≡◌, refl, arith}
use grandorgue.Prelude.Int.{pos, ◌≤ℤ◌}
use grandorgue.Midi.NameMap.{MidiMap, empty}
use grandorgue.Midi.Event.{
  Event, new_event, midi_ctrl_change, midi_sysex_go_clear, midi_sysex_go_setup, midi_nrpn,
}
use grandorgue.Midi.Receive.{Ascii, cleared, from_midi}
use grandorgue.Midi.MessageType.{
  recv_button, recv_enclosure, match_on, match_change, m_pgm_range, m_ctrl_change_on, m_pgm_change,
}
use grandorgue.Midi.Pattern.{
  Pattern, to_i8, round_quotient, interpolate, convert_value_between_ranges,
  convert_src_value_to_int,
}
use grandorgue.Midi.Pattern.Convert.{convert_src_value_to_int_lem}
use grandorgue.Midi.Matcher.{
  Receiver, found, pattern_step, match_patterns, match_event, debounce, internal_match,
  prepare_playback, set_up, set_internal, create_internal, position_of, play_event, find_internal,
}
use grandorgue.Midi.MessageType.{has_channel}
use grandorgue.Midi.MessageType.Limits.{debounce_types}
use grandorgue.Midi.Matcher.Answer.{button_answer}
use grandorgue.Midi.Matcher.Fields.{filled, pattern_step-filled}
use grandorgue.Midi.Matcher.Debounce.{is_now, is_debounced, waits, button_answer-waits}
use grandorgue.Midi.Matcher.Spacing.{answered, IsSpaced, last_answer, answered-IsSpaced}
use grandorgue.Midi.Matcher.Hearing.{Heard, hear, hear_all}
use grandorgue.Midi.Matcher.SetUp.{match_heard, clear_forgets}
use grandorgue.Midi.Matcher.Enclosure.{program_range_is_stuck}
use grandorgue.Midi.RoundTrip.Program.{program, program_message}

abbrev no_names : MidiMap
no_names = record { device_map = empty; recorder_element_map = empty }

-- Control 20 from 64 on, at most every 100 ms.
abbrev pedal : Pattern
pedal = record {
  message_type = m_ctrl_change_on;
  device_id = 0;
  channel = pos 2;
  key = pos 20;
  low_key = pos 0;
  high_key = pos 0;
  low_value = pos 0;
  high_value = pos 64;
  debounce_time = 100;
}

abbrev piston : Receiver
piston = record {
  receiver_type = recv_button;
  element_id = pos 7;
  last = [];
  internal = [];
  patterns = pedal ∷ [];
}

abbrev press : ℕ → Event
press time = record (new_event 3) {
  midi_type = midi_ctrl_change;
  channel = pos 2;
  key = pos 20;
  value = pos 100;
  time = time;
}

answered_test :
    answered (press 500 ∷ press 550 ∷ press 599 ∷ press 600 ∷ []) piston ≡ 500 ∷ 600 ∷ []
unfolding answered match_event play_event find_internal match_patterns pattern_step button_answer
    has_channel debounce new_event
answered_test = refl

answered-IsSpaced_example :
    IsSpaced 100 (last_answer piston) (answered (press 500 ∷ press 550 ∷ press 600 ∷ []) piston)
unfolding debounce_types new_event
answered-IsSpaced_example =
    answered-IsSpaced (press 500 ∷ press 550 ∷ press 600 ∷ []) pedal piston
      (record { one = refl; not_set_up = refl; no_manual = refl; no_enclosure = refl }) refl
      (refl, (refl, (refl, tt)))

button_answer-waits_example :
    (is_now (button_answer m_ctrl_change_on (press 500) pedal) && waits m_ctrl_change_on ≡ false)
    × (is_debounced (button_answer m_ctrl_change_on (press 500) pedal)
          && not (waits m_ctrl_change_on)
        ≡ false)
button_answer-waits_example = button_answer-waits m_ctrl_change_on (press 500) pedal

-- A program change has no values: other values in the pattern change nothing.
abbrev changer : Pattern
changer = record pedal { message_type = m_pgm_change }

pattern_step-filled_example :
    pattern_step recv_button
      (press 500)
      none
      (pos 0)
      (filled recv_button changer (record pedal { low_value = pos 99 }))
      (pos 0)
      (pos 0)
    ≡ pattern_step recv_button (press 500) none (pos 0) changer (pos 0) (pos 0)
pattern_step-filled_example =
    pattern_step-filled recv_button changer (record pedal { low_value = pos 99 }) (press 500) none
      (pos 0) (pos 0) (pos 0)

-- Device 3 sets element 7 up on channel 5 with number 9.
abbrev setup : Event
setup = record (new_event 3) {
  midi_type = midi_sysex_go_setup;
  channel = pos 5;
  key = pos 7;
  value = pos 9;
}

abbrev clear : Event
clear = record (new_event 3) { midi_type = midi_sysex_go_clear; channel = pos 0 }

-- As a receiver without a key map calls `Match`, in an organ that is transposed by one.
abbrev as_heard : Event → Heard
as_heard e = record { event = e; key_map = none; transpose = pos 1; key = pos 0 }

-- The NRPN that has been set, and the message of another device that sets the element up too.
abbrev nrpn : Event
nrpn = record (new_event 3) { midi_type = midi_nrpn; channel = pos 5; key = pos 9; value = pos 1 }

abbrev other_setup : Event
other_setup = record setup { device = 4; channel = pos 6 }

abbrev between : List Heard
between = as_heard other_setup ∷ as_heard (press 500) ∷ []

abbrev taken_over : Receiver
taken_over = hear_all between (hear (as_heard setup) piston)

setup_test : match_heard (as_heard nrpn) taken_over ≡ (taken_over, found match_on (pos 0) (pos 1))
unfolding hear hear_all match_event play_event find_internal internal_match new_event set_up
    set_internal create_internal position_of
setup_test = refl

abbrev forgetting : Receiver
forgetting = hear (as_heard clear) (hear_all (as_heard setup ∷ []) (prepare_playback piston))

clear_forgets_example :
    match_heard (as_heard (press 500)) forgetting
    ≡ match_patterns (press 500) none (pos 1) 0 forgetting.patterns (pos 0) (pos 0) forgetting
unfolding new_event
clear_forgets_example =
    clear_forgets (as_heard setup ∷ []) piston (as_heard clear) (as_heard (press 500)) refl refl
      refl refl

-- The upper half of the values.
abbrev upper_half : Pattern
upper_half = record pedal { low_value = pos 64; high_value = pos 127 }

convert_src_value_to_int_lem_example :
    (convert_src_value_to_int upper_half (pos 64) ≡ pos 0)
    × (convert_src_value_to_int upper_half (pos 127) ≡ pos 127)
    × (convert_src_value_to_int upper_half (pos 70) ≤ℤ convert_src_value_to_int upper_half (pos 90))
convert_src_value_to_int_lem_example =
    convert_src_value_to_int_lem upper_half 64 127 refl refl (omega arith) (omega arith) 70 90
      (omega arith) (omega arith)

convert_test : convert_src_value_to_int upper_half (pos 90) ≡ pos 52
unfolding convert_src_value_to_int convert_value_between_ranges interpolate round_quotient to_i8
convert_test = refl

abbrev swell : Pattern
swell = record pedal { message_type = m_pgm_range; low_value = pos 1; high_value = pos 100 }

abbrev plain_ascii : Ascii
plain_ascii = record { from_ascii = λ l. l; to_ascii = λ l. l }

abbrev swell_box : Receiver
swell_box = record piston { receiver_type = recv_enclosure; patterns = swell ∷ pedal ∷ [] }

abbrev program_81 : Event
program_81 = program (cleared plain_ascii (new_event 0)) 2 81

program_range_is_stuck_example :
    (from_midi plain_ascii (program_message 2 80) no_names (new_event 0)
      ≡ some (program_81, no_names))
    × (match_event program_81 none (pos 1) (pos 0) swell_box
        ≡ (swell_box, found match_change (pos 0) (pos 0)))
unfolding has_channel new_event
program_range_is_stuck_example =
    program_range_is_stuck plain_ascii no_names (new_event 0) swell (pedal ∷ []) swell_box none
      (pos 1) (pos 0) 2 80 1 100
      (record {
        enclosure = refl;
        not_set_up = refl;
        in_front = refl;
        range = refl;
        listening = refl;
      })
      (omega arith) (omega arith) refl refl (omega arith) (omega arith) (omega arith) (omega arith)
