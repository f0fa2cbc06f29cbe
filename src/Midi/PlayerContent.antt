-- ===== src/Midi/PlayerContent.antt =====
-- src/grandorgue/midi/GOMidiPlayerContent.h and GOMidiPlayerContent.cpp: the events of a MIDI file as
-- the player is to send them. The name of a manual, of which wxString makes the text, is a parameter.
pub mod Channels
use grandorgue.Prelude.{
  ℕ, zero, suc, ◌+◌, ◌-◌, ◌%◌, ◌^◌, Bool, true, false, not, ◌&&◌, ◌||◌, Option, none, some, List,
  [], ◌∷◌, ◌++◌, length, get_elem?, map, ltb, ◌==◌, if◌then◌else◌,
}
use grandorgue.Prelude.Int.{ℤ, pos, leb_ℤ, eq_ℤ, to_u32}
use grandorgue.Midi.Event.{
  Event, same_type, new_event, midi_sysex_go_clear, midi_sysex_go_setup, midi_ctrl_change,
}
use grandorgue.Midi.NameMap.{Name, MidiMap, ensure_recorder_element_name}
use grandorgue.Midi.InputMerger
use grandorgue.Midi.InputMerger.{Merger}

pub data ChannelMapping : Type 0 where
  pedal_first pedal_last use_input_number : ChannelMapping

pub record Content : Type 0 where
  pub events : List Event
  pub position : ℕ

unfoldable pub reset : Content → Content
reset c = record c { position = 0 }

unfoldable pub clear : Content → Content
clear c = reset (record c { events = [] })

unfoldable pub is_loaded : Content → Bool
is_loaded c = ltb 0 (length c.events)

unfoldable pub has_native_header : List Event → Bool
has_native_header [] = false
has_native_header (e ∷ l) = same_type e.midi_type midi_sysex_go_clear

unfoldable pub is_every_in_range : List ℤ → Bool
is_every_in_range [] = true
is_every_in_range (n ∷ l) = leb_ℤ (pos 1) n && leb_ℤ n (pos 16) && is_every_in_range l

unfoldable pub contains : ℤ → List ℤ → Bool
contains n [] = false
contains n (m ∷ l) = eq_ℤ n m || contains n l

-- The elements of `std::set`.
unfoldable pub distinct_numbers : List ℤ → List ℤ
distinct_numbers [] = []
distinct_numbers (n ∷ l) = let rest = distinct_numbers l in if contains n l then rest else n ∷ rest

unfoldable pub is_mapping_usable : List ℤ → Bool
is_mapping_usable l = is_every_in_range l && length (distinct_numbers l) == length l

unfoldable pub next_channels : ℕ → ℕ → List ℕ
next_channels zero channel = []
next_channels (suc n) channel = channel ∷ next_channels n (suc channel)

abbrev pub is_use_input_number : ChannelMapping → Bool
is_use_input_number use_input_number = true
is_use_input_number _ = false

abbrev pub is_pedal_first : ChannelMapping → Bool
is_pedal_first pedal_first = true
is_pedal_first _ = false

-- How many manuals the numbers are for, beside the pedal.
abbrev pub manual_count : Bool → List ℤ → ℕ
manual_count has_pedal l = (length l + 2 ^ 32 - (if has_pedal then 1 else 0)) % 2 ^ 32

unfoldable pub compute_manual_channels : Bool → List ℤ → ChannelMapping → List ℕ
compute_manual_channels has_pedal l mode =
    if is_use_input_number mode && is_mapping_usable l
    then map to_u32 l
    else let manuals = manual_count has_pedal l in
      (if has_pedal then (if is_pedal_first mode then 1 else manuals + 1) ∷ [] else [])
      ++ next_channels manuals (if is_pedal_first mode && has_pedal then 2 else 1)

-- `SetupManual`: the events that it adds.
unfoldable pub setup_manual : ℕ → Name → MidiMap → MidiMap × List Event
setup_manual channel name names =
    let (id, names') = ensure_recorder_element_name name names in
    let e = new_event 0 in
    (
      names',
      record e { midi_type = midi_sysex_go_setup; key = id; channel = pos channel; value = pos 0 }
          ∷ record e {
            midi_type = midi_ctrl_change;
            key = pos 123;
            channel = pos channel;
            value = pos 0;
          }
          ∷ [],
    )

module _ (name_of : ℕ → Name) where
  unfoldable pub setup_manuals : List ℕ → ℕ → MidiMap → MidiMap × List Event
  setup_manuals [] i names = (names, [])
  setup_manuals (channel ∷ l) i names =
      let (names', events) = setup_manual channel (name_of i) names in
      let (names'', more) = setup_manuals l (suc i) names' in (names'', events ++ more)

-- The loop of `Load`, in which `merger` holds some messages back.
unfoldable pub merge_events : Merger → List Event → Option (List Event)
merge_events merger [] = some []
merge_events merger (e ∷ l) = elim (InputMerger.process merger e) [
  | none ↦ none
  | some (merger', e', passes) ↦ (elim (merge_events merger' l) [
    | none ↦ none
    | some rest ↦ some (if passes then e' ∷ rest else rest)
  ])
]

-- The setup that `Load` puts before a file that has none of its own.
unfoldable pub header :
    (ℕ → Name) → List Event → MidiMap → Bool → List ℤ → ChannelMapping → MidiMap × List Event
header name_of events names has_pedal l mode =
    if not (ltb 0 (length events)) || has_native_header events
    then (names, [])
    else let channels = compute_manual_channels has_pedal l mode in
      let (names', setups) = setup_manuals name_of channels (if has_pedal then 0 else 1) names in
      (names', record (new_event 0) { midi_type = midi_sysex_go_clear; channel = pos 0 } ∷ setups)

unfoldable pub load :
    (ℕ → Name) → List Event → MidiMap → Bool → List ℤ → ChannelMapping → Option (MidiMap × Content)
load name_of events names has_pedal l mode = elim (merge_events InputMerger.cleared events) [
  | none ↦ none
  | some rest ↦
      let (names', first) = header name_of events names has_pedal l mode in
      some (names', record { events = first ++ rest; position = 0 })
]

-- `GetCurrentEvent` and `Next`.
unfoldable pub get_current_event : Content → Option Event
get_current_event c = get_elem? c.events c.position

unfoldable pub next : Content → Content × Bool
next c =
    let c' = record c { position = (c.position + 1) % 2 ^ 32 } in
    (c', ltb c'.position (length c.events))
