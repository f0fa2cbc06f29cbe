-- ===== src/Midi/Ports.antt =====
-- src/grandorgue/midi/ports: `Receive` of GOMidiInPort, `Send` of GOMidiOutPort, their `Open`s and
-- that of GOMidiPort. What a port passes on to GOMidiSystem (`Recv`) or to the device (`SendData`) is
-- a result. `none` is undefined behaviour below. The clock is an argument.
use grandorgue.Prelude.{
  ℕ, ◌+◌, Bool, ◌||◌, not, Option, none, some, List, [], ◌∷◌, ◌++◌, ◌==◌, if◌then◌else◌,
}
use grandorgue.Prelude.Int.{ℤ, pos, ◌+ℤ◌, ◌-ℤ◌, eq_ℤ, int_bits}
use grandorgue.Midi.NameMap.{MidiMap}
use grandorgue.Midi.Event.{Event, midi_none, same_type, new_event, minus_one}
use grandorgue.Midi.Receive.{Ascii, from_midi}
use grandorgue.Midi.Send.{Messages, to_midi}
use grandorgue.Midi.InputMerger
use grandorgue.Midi.InputMerger.{Merger}
use grandorgue.Midi.OutputMerger
use grandorgue.Midi.OutputMerger.{OutputMerger}

pub record InPort : Type 0 where
  pub is_active : Bool
  pub id : ℕ
  pub merger : Merger
  pub channel_shift : ℤ

pub record OutPort : Type 0 where
  pub is_active : Bool
  pub id : ℕ
  pub merger : OutputMerger

-- The base class' `Open` sets the id; the driver's own code sets `m_IsActive`.
unfoldable pub open_in : InPort → ℕ → ℤ → InPort
open_in p id shift = record p { id = id; channel_shift = shift; merger = InputMerger.cleared }

unfoldable pub open_out : OutPort → ℕ → OutPort
open_out p id = record p { id = id; merger = OutputMerger.empty }

-- The "compat stuff": ((channel - 1 + shift) & 0x0F) + 1.
unfoldable pub shift_channel : ℤ → ℤ → ℤ
shift_channel shift channel =
    if eq_ℤ channel minus_one then channel else pos (int_bits (channel -ℤ pos 1 +ℤ shift) 4 + 1)

-- An event as it is delivered.
abbrev pub deliver : InPort → Event → Event
deliver p e = record e { channel = shift_channel p.channel_shift e.channel }

abbrev pub Delivered : Type 0
Delivered = Option (InPort × MidiMap × List Event)

-- `Receive` after `FromMidi`. `SetDevice` overwrites the field that the constructor leaves open.
unfoldable pub receive_event : InPort → MidiMap → ℕ → Event → Delivered
receive_event p map now e =
    if same_type e.midi_type midi_none
    then some (p, map, [])
    else (elim (InputMerger.process p.merger (record e { device = p.id; time = now })) [
      | none ↦ none
      | some (m, e', is_event) ↦
          some (record p { merger = m }, map, (if is_event then deliver p e' ∷ [] else []))
    ])

unfoldable pub receive : Ascii → InPort → MidiMap → ℕ → List ℕ → Delivered
unfolding receive_event
receive wx p map now msg =
    if not p.is_active then some (p, map, []) else (elim (from_midi wx msg map (new_event 0)) [
      | none ↦ none
      | some (e, map') ↦ receive_event p map' now e
    ])

-- Messages that arrive one after the other.
unfoldable pub receive_all : Ascii → InPort → MidiMap → ℕ → Messages → Delivered
receive_all wx p map now [] = some (p, map, [])
receive_all wx p map now (msg ∷ msgs) = elim (receive wx p map now msg) [
  | none ↦ none
  | some (p', map', events) ↦ elim (receive_all wx p' map' now msgs) [
    | none ↦ none
    | some (q, map'', more) ↦ some (q, map'', events ++ more)
  ]
]

unfoldable pub send : Ascii → OutPort → MidiMap → Event → Option (OutPort × Messages)
send wx p map e =
    if not p.is_active
    then some (p, [])
    else if p.id == e.device || e.device == 0
    then (elim (OutputMerger.process p.merger e) [
      | none ↦ none
      | some (m, e') ↦ some (record p { merger = m }, to_midi wx map e')
    ])
    else some (p, [])
