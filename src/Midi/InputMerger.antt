-- ===== src/Midi/InputMerger.antt =====
-- GOMidiMerger of src/grandorgue/midi/GOMidiInputMerger.h and GOMidiInputMerger.cpp: it folds bank
-- selects and parameter numbers into the events that they belong to. `none` is an access outside
-- one of the arrays, which have an entry for each of 16 channels.
use grandorgue.Prelude.{
  ℕ, ◌+◌, ◌-◌, ◌%◌, ◌^◌, Bool, true, false, ◌&&◌, ◌||◌, Option, none, some, List, get_or, set,
  replicate, bit_or, ltb, if◌then◌else◌,
}
use grandorgue.Prelude.Int.{ℤ, pos, negsuc, ◌-ℤ◌, eq_ℤ, to_u32, of_u32}
use grandorgue.Prelude.Bits.{◌<<<◌}
use grandorgue.Midi.Event.{
  midi_ctrl_change, midi_pgm_change, midi_rpn, midi_nrpn, same_type, Event, ctrl_bank_select_msb,
  ctrl_bank_select_lsb, ctrl_rpn_msb, ctrl_rpn_lsb, ctrl_nrpn_msb, ctrl_nrpn_lsb, ctrl_data_entry,
}

pub record Merger : Type 0 where
  pub bank_lsb : List ℕ
  pub bank_msb : List ℕ
  pub is_rpn : Bool
  pub rpn_lsb : List ℕ
  pub rpn_msb : List ℕ
  pub nrpn_lsb : List ℕ
  pub nrpn_msb : List ℕ

abbrev pub zeros : List ℕ
zeros = replicate 16 0

-- `Clear`, and so the constructor.
unfoldable pub cleared : Merger
cleared = record {
  bank_lsb = zeros;
  bank_msb = zeros;
  is_rpn = false;
  rpn_lsb = zeros;
  rpn_msb = zeros;
  nrpn_lsb = zeros;
  nrpn_msb = zeros;
}

abbrev pub Processed : Type 0
Processed = Option (Merger × Event × Bool)

abbrev pub u32 : ℕ → ℕ
u32 n = n % 2 ^ 32

-- The index `e.GetChannel() - 1`, if it is inside the arrays.
unfoldable pub channel_index : ℤ → Option ℕ
channel_index (pos n) = if ltb 0 n && ltb n 17 then some (n - 1) else none
channel_index (negsuc n) = none

abbrev pub is_ctrl : Event → ℕ → Bool
is_ctrl e controller = same_type e.midi_type midi_ctrl_change && eq_ℤ e.key (pos controller)

abbrev pub word_at : List ℕ → ℕ → ℕ
word_at l i = get_or l i 0

-- Two sevens, as unsigned words: (lsb << 0) | (msb << 7).
abbrev pub parameter_key : List ℕ → List ℕ → ℕ → ℤ
parameter_key lsb msb i = of_u32 (bit_or (word_at lsb i) (u32 (word_at msb i <<< 7)))

abbrev pub program_key : Merger → ℤ → ℕ → ℤ
program_key m key i = of_u32 (
    u32 (
      bit_or (bit_or (to_u32 (key -ℤ pos 1)) (u32 (word_at m.bank_lsb i <<< 7)))
        (u32 (word_at m.bank_msb i <<< 14))
      + 1))

-- `Process` with the index of the channel.
unfoldable pub process_at : Merger → Event → ℕ → Merger × Event × Bool
process_at m e i =
    let v = to_u32 e.value in
    if is_ctrl e ctrl_bank_select_msb
    then (record m { bank_msb = set m.bank_msb i v }, e, false)
    else if is_ctrl e ctrl_bank_select_lsb
    then (record m { bank_lsb = set m.bank_lsb i v }, e, false)
    else if is_ctrl e ctrl_rpn_lsb
    then (record m { rpn_lsb = set m.rpn_lsb i v; is_rpn = true }, e, false)
    else if is_ctrl e ctrl_rpn_msb
    then (record m { rpn_msb = set m.rpn_msb i v; is_rpn = true }, e, false)
    else if is_ctrl e ctrl_nrpn_lsb
    then (record m { nrpn_lsb = set m.nrpn_lsb i v; is_rpn = false }, e, false)
    else if is_ctrl e ctrl_nrpn_msb
    then (record m { nrpn_msb = set m.nrpn_msb i v; is_rpn = false }, e, false)
    else if same_type e.midi_type midi_pgm_change
    then (m, record e { key = program_key m e.key i }, true)
    else if is_ctrl e ctrl_data_entry
    then (
      m,
      (if m.is_rpn
          then record e { midi_type = midi_rpn; key = parameter_key m.rpn_lsb m.rpn_msb i }
          else record e { midi_type = midi_nrpn; key = parameter_key m.nrpn_lsb m.nrpn_msb i }),
      true,
    )
    else (m, e, true)

-- Does `Process` index the arrays for this event?
unfoldable pub uses_channel : Event → Bool
uses_channel e =
    same_type e.midi_type midi_pgm_change
    || is_ctrl e ctrl_bank_select_msb
    || is_ctrl e ctrl_bank_select_lsb
    || is_ctrl e ctrl_rpn_lsb
    || is_ctrl e ctrl_rpn_msb
    || is_ctrl e ctrl_nrpn_lsb
    || is_ctrl e ctrl_nrpn_msb
    || is_ctrl e ctrl_data_entry

unfoldable pub process : Merger → Event → Processed
process m e =
    if uses_channel e
    then (elim (channel_index e.channel) [ some i ↦ some (process_at m e i) | none ↦ none ])
    else some (m, e, true)
