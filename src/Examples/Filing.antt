-- ===== src/Examples/Filing.antt =====
-- src/grandorgue/midi/GOMidiPlayerContent.cpp with a file that has no setup of its own.
use grandorgue.Prelude.{◌+◌, ℕ, true, Option, none, some, List, [], ◌∷◌, map, ◌≡◌, refl, arith}
use grandorgue.Prelude.Int.{ℤ, pos, negsuc}
use grandorgue.Midi.Event.{Event, new_event, midi_note}
use grandorgue.Midi.NameMap.{
  Name, MidiMap, empty, ensure_recorder_element_name, ensure_name_exists, add_name, get_id_by_name,
  find_id, is_empty, emplace, has_name, same_name,
}
use grandorgue.Midi.InputMerger.{cleared, process, process_at, channel_index, uses_channel}
use grandorgue.Midi.PlayerContent.{
  use_input_number, pedal_last, compute_manual_channels, is_mapping_usable, is_every_in_range,
  next_channels, load, header, setup_manual, setup_manuals, merge_events, has_native_header,
  Content,
}
use grandorgue.Midi.PlayerContent.Channels.{IsAssigned, compute_manual_channels-IsAssigned}

-- A pedal and two manuals, of which the last has no number.
abbrev numbers : List ℤ
numbers = pos 1 ∷ pos 4 ∷ negsuc 0 ∷ []

channels_test : compute_manual_channels true numbers use_input_number ≡ 3 ∷ 1 ∷ 2 ∷ []
unfolding compute_manual_channels is_mapping_usable is_every_in_range next_channels
channels_test = refl

compute_manual_channels-IsAssigned_example :
    IsAssigned numbers (compute_manual_channels true numbers use_input_number)
compute_manual_channels-IsAssigned_example =
    compute_manual_channels-IsAssigned true numbers use_input_number (λ e. omega arith)
      (omega arith)

abbrev note : Event
note = record (new_event 0) { midi_type = midi_note; channel = pos 2; key = pos 60; value = pos 64 }

abbrev name_of : ℕ → Name
name_of i = 77 ∷ (48 + i) ∷ []

abbrev shown : Option (MidiMap × Content) → List (ℤ × ℤ)
shown none = []
shown (some (names, c)) = map (λ (e : Event). (e.channel, e.key)) c.events

load_test :
    shown (
      load name_of
        (note ∷ [])
        (record { device_map = empty; recorder_element_map = empty })
        true
        numbers
        pedal_last)
    ≡ (pos 0, negsuc 0)
      ∷ (pos 3, pos 0)
      ∷ (pos 3, pos 123)
      ∷ (pos 1, pos 1)
      ∷ (pos 1, pos 123)
      ∷ (pos 2, pos 2)
      ∷ (pos 2, pos 123)
      ∷ (pos 2, pos 60)
      ∷ []
unfolding new_event empty load header setup_manuals setup_manual merge_events has_native_header
    compute_manual_channels is_mapping_usable next_channels ensure_recorder_element_name
    ensure_name_exists add_name get_id_by_name find_id is_empty emplace has_name same_name cleared
    process process_at channel_index uses_channel
load_test = refl
