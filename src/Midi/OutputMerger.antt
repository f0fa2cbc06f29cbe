-- ===== src/Midi/OutputMerger.antt =====
-- GOMidiOutputMerger of src/grandorgue/midi/GOMidiOutputMerger.h and GOMidiOutputMerger.cpp: it
-- keeps what the displays and the stop bytes of the receivers hold, and fills events up with it.
-- `none` is an access outside the vector, for a negative channel.
use grandorgue.Prelude.{
  ℕ, zero, suc, ◌&&◌, ◌||◌, not, Option, none, some, List, [], ◌∷◌, length, get_or, set, replicate,
  resize, leb, if◌then◌else◌,
}
use grandorgue.Prelude.Int.{ℤ, pos, negsuc, eq_ℤ, to_u32}
use grandorgue.Midi.NameMap.{Name}
use grandorgue.Midi.Event.{
  MidiType, midi_sysex_hw_string, midi_sysex_hw_lcd, midi_sysex_rodgers_stop_change, same_type,
  Event,
}
use grandorgue.Midi.Rodgers.{set_stop_bit}

pub record HwState : Type 0 where
  pub midi_type : MidiType
  pub key : ℤ
  pub content : Name

pub record OutputMerger : Type 0 where
  pub hw_state : List HwState
  pub rodgers_state : List (List ℕ)

-- The constructor and `Clear`.
unfoldable pub empty : OutputMerger
empty = record { hw_state = []; rodgers_state = [] }

abbrev spaces : ℕ → Name
spaces n = replicate n b' '

-- The loop that copies `text` over `content` from index i on.
unfoldable pub overlay : Name → ℕ → Name → Name
overlay [] i text = []
overlay (c ∷ content) (suc i) text = c ∷ overlay content i text
overlay (c ∷ content) zero [] = c ∷ content
overlay (c ∷ content) zero (t ∷ text) = t ∷ overlay content zero text

-- An entry is looked for by type and key, and made of spaces if there is none; then the text of the
-- event goes over it. The new list of entries, and the content.
unfoldable pub update_display : Event → List HwState → List HwState × Name
update_display e [] =
    let content =
      overlay (spaces (if same_type e.midi_type midi_sysex_hw_string then 16 else 32))
        (to_u32 e.value) e.string in
    (record { midi_type = e.midi_type; key = e.key; content = content } ∷ [], content)
update_display e (s ∷ l) =
    let content = overlay s.content (to_u32 e.value) e.string in
    let (l', found) = update_display e l in
    if same_type s.midi_type e.midi_type && eq_ℤ s.key e.key
    then (record s { content = content } ∷ l, content)
    else (s ∷ l', found)

unfoldable pub process_display : OutputMerger → Event → OutputMerger × Event
process_display m e =
    let (displays, content) = update_display e m.hw_state in
    (record m { hw_state = displays }, record e { string = content })

unfoldable pub process_stop : OutputMerger → Event → ℕ → OutputMerger × Event
process_stop m e device =
    let states =
      if leb (length m.rodgers_state) device
      then resize (suc device) [] m.rodgers_state
      else m.rodgers_state in
    let (offset, bytes) =
      set_stop_bit (to_u32 e.key) (not (eq_ℤ e.value (pos 0))) (get_or states device []) in
    (
      record m { rodgers_state = set states device bytes },
      record e { key = pos offset; bytes = get_or bytes offset 0 ∷ [] },
    )

-- The event and the state; the code always returns true.
unfoldable pub process_rodgers : OutputMerger → Event → Option (OutputMerger × Event)
process_rodgers m e = elim e.channel [
  | pos device ↦ some (process_stop m e device)
  | negsuc n ↦ none
]

unfoldable pub process : OutputMerger → Event → Option (OutputMerger × Event)
unfolding process_display process_rodgers
process m e =
    if same_type e.midi_type midi_sysex_hw_string || same_type e.midi_type midi_sysex_hw_lcd
    then some (process_display m e)
    else if same_type e.midi_type midi_sysex_rodgers_stop_change
    then process_rodgers m e
    else some (m, e)
