-- ===== src/Manuals.antt =====
-- GOManual of src/grandorgue/model/GOManual.h and GOManual.cpp: the keys of a manual, the velocities
-- that they have from the player (coupler 0) and from each coupler that leads here, and the division.
-- What a manual tells others is a list of calls. While a manual tells its couplers of a key, these may
-- call its `SetKeyState` again, so each call comes with the calls that it gives rise to. A coupler number
-- outside a key's row would be undefined behaviour; here it reads 0 and writes nothing.
pub mod Sources
pub mod Keys
pub mod Runs
pub mod Division
pub mod Stops
pub mod Own
pub mod Held
pub mod NotesOff
pub mod Release
use grandorgue.Prelude.{
  ℕ, zero, suc, ◌+◌, ◌-◌, ◌*◌, ◌/◌, ◌%◌, ◌^◌, Bool, true, false, ◌&&◌, ◌||◌, not, List, [], ◌∷◌,
  ◌++◌, length, get_or, set, replicate, resize, map, ltb, leb, ◌==◌, if◌then◌else◌,
}
use grandorgue.Midi.MessageType.{
  MatchType, match_none, match_on, match_off, match_change, match_reset,
}

pub record Manual : Type 0 where
  pub key_velocity : List ℕ
  pub remote_velocity : List ℕ
  pub velocity : List ℕ
  pub division_velocities : List ℕ
  pub velocities_by_coupler : List (List ℕ)
  pub first_logical_key : ℕ
  pub logical_keys : ℕ
  pub first_midi_note : ℕ
  pub accessible_keys : ℕ
  pub input_couplers : ℕ
  pub unison_off : ℕ

pub data Call : Type 0 where
  -- `SetKeyState` of every stop, for a key number from 1 on.
  stops_key : ℕ → ℕ → Call
  division_midi_key : ℕ → ℕ → Call
  midi_key : ℕ → ℕ → Call
  empty_midi_key : Call
  reset_division_midi_key : Call
  control_changed : Call

-- Calls of `SetKeyState` one after the other: the key, the velocity, the coupler that it comes from,
-- and the calls of the same manual that come back while its own couplers are told.
pub data KeyCalls : Type 0 where
  no_calls : KeyCalls
  key_call : ℕ → ℕ → ℕ → KeyCalls → KeyCalls → KeyCalls

abbrev pub velocity_of : List ℕ → ℕ → ℕ
velocity_of l key = get_or l key 0

abbrev pub inputs : Manual → ℕ → List ℕ
inputs m key = get_or m.velocities_by_coupler key []

abbrev pub u32 : ℕ → ℕ
u32 n = n % 2 ^ 32

-- The MIDI note of a key; a negative one is near 2^32.
abbrev pub note_of_key : ℕ → Manual → ℕ
note_of_key key m = u32 (key + m.first_midi_note + 2 ^ 32 - m.first_logical_key + 1)

unfoldable pub set_division_key_state : ℕ → ℕ → Manual → Manual × List Call
set_division_key_state key velocity m =
    if leb (length m.division_velocities) key
    then (m, [])
    else if velocity_of m.division_velocities key == velocity / 4
    then (m, [])
    else (
      record m { division_velocities = set m.division_velocities key (velocity / 4) },
      stops_key (suc key) (velocity / 4)
          ∷ (if ltb (note_of_key key m) 127
              then division_midi_key (note_of_key key m) (velocity / 4) ∷ []
              else []),
    )

-- The loop of `SetKeyState` over the velocities from coupler 1 on, with the greatest of all and the
-- greatest of these so far.
unfoldable pub strongest : ℕ → ℕ → List ℕ → ℕ × ℕ
strongest velocity remote [] = (velocity, remote)
strongest velocity remote (v ∷ l) =
    strongest (if ltb velocity v then v else velocity) (if ltb remote v then v else remote) l

unfoldable pub sum_up : List ℕ → ℕ × ℕ
sum_up [] = (0, 0)
sum_up (v ∷ l) = strongest v 0 l

-- What `SetKeyState` writes before it tells the couplers.
unfoldable pub store_key : ℕ → ℕ → ℕ → Manual → Manual
store_key key velocity coupler m =
    let row = set (inputs m key) coupler velocity in
    record m {
      velocities_by_coupler = set m.velocities_by_coupler key row;
      velocity = set m.velocity key (sum_up row).0;
      remote_velocity = set m.remote_velocity key (sum_up row).1;
    }

abbrev pub audible : ℕ → Manual → ℕ
audible key m =
    if ltb 0 m.unison_off then velocity_of m.remote_velocity key else velocity_of m.velocity key

-- What it does after.
unfoldable pub announce : ℕ → Manual × List Call → Manual × List Call
announce key (m, calls) =
    let (m', more) = set_division_key_state key (audible key m) m in
    let shown =
      leb m'.first_logical_key (key + 1) && leb key (m'.first_logical_key + m'.accessible_keys) in
    (m', calls ++ (more ++ (if shown then control_changed ∷ [] else [])))

abbrev pub is_news : ℕ → ℕ → ℕ → Manual → Bool
is_news key velocity coupler m =
    ltb key (length m.velocity) && not (velocity_of (inputs m key) coupler == velocity)

unfoldable pub set_key_states : KeyCalls → Manual → Manual × List Call
set_key_states no_calls m = (m, [])
set_key_states (key_call key velocity coupler nested rest) m =
    let first : Manual × List Call = elim (is_news key velocity coupler m) [
      | true ↦ announce key (set_key_states nested (store_key key velocity coupler m))
      | false ↦ (m, [])
    ] in
    let (m', calls) = set_key_states rest first.0 in (m', first.1 ++ calls)

unfoldable pub set_key_state : ℕ → ℕ → ℕ → KeyCalls → Manual → Manual × List Call
set_key_state key velocity coupler nested =
    set_key_states (key_call key velocity coupler nested no_calls)

-- The velocity with which a key of the player enters: there is room for couplers to lower it.
abbrev pub widened : ℕ → ℕ
widened velocity = if ltb 0 velocity then u32 (velocity * 4 + 3) else 0

abbrev pub key_of_index : ℕ → Manual → ℕ
key_of_index i m = u32 (i + m.first_logical_key + 2 ^ 32 - 1)

-- `SetMidiNoteState` for the i-th accessible key, once the note is in range.
unfoldable pub set_note_at : ℕ → ℕ → ℕ → KeyCalls → Manual → Manual × List Call
set_note_at i note velocity nested m =
    if velocity_of m.key_velocity i == velocity
    then (m, [])
    else let (m', calls) =
        set_key_state (key_of_index i m) (widened velocity) 0 nested
          (record m { key_velocity = set m.key_velocity i velocity }) in
      (m', midi_key note velocity ∷ calls)

unfoldable pub set_midi_note_state : ℕ → ℕ → KeyCalls → Manual → Manual × List Call
set_midi_note_state note velocity nested m =
    if ltb note m.first_midi_note || leb (m.first_midi_note + length m.key_velocity) note
    then (m, [])
    else set_note_at (note - m.first_midi_note) note velocity nested m

-- The loop of `SetUnisonOff`, over `left` keys from `key` on.
unfoldable pub refresh_division : Bool → ℕ → ℕ → Manual → Manual × List Call
refresh_division on zero key m = (m, [])
refresh_division on (suc left) key m =
    let from = if on then velocity_of m.remote_velocity key else velocity_of m.velocity key in
    let (m1, calls) = set_division_key_state key from m in
    let (m2, more) = refresh_division on left (suc key) m1 in (m2, calls ++ more)

unfoldable pub set_unison_off : Bool → Manual → Manual × List Call
set_unison_off true m =
    let m' = record m { unison_off = u32 (m.unison_off + 1) } in
    if ltb 0 m.unison_off then (m', []) else refresh_division true (length m.velocity) 0 m'
set_unison_off false m =
    let m' = record m { unison_off = u32 (m.unison_off + 2 ^ 32 - 1) } in
    if ltb 0 m'.unison_off then (m', []) else refresh_division false (length m.velocity) 0 m'

-- `AllNotesOff`: its loop over `left` keys from the j-th accessible one on; `nested` tells for each
-- key which calls come back.
unfoldable pub notes_off_from : (ℕ → KeyCalls) → ℕ → ℕ → Manual → Manual × List Call
notes_off_from nested zero j m = (m, [])
notes_off_from nested (suc left) j m =
    let (m1, calls) = set_midi_note_state (m.first_midi_note + j) 0 (nested j) m in
    let (m2, more) = notes_off_from nested left (suc j) m1 in (m2, calls ++ more)

unfoldable pub all_notes_off : (ℕ → KeyCalls) → Manual → Manual × List Call
all_notes_off nested m = notes_off_from nested m.accessible_keys 0 m

unfoldable pub is_key_down : ℕ → Manual → Bool
is_key_down note m =
    if ltb note m.first_midi_note || leb (m.first_midi_note + m.accessible_keys) note
    then false
    else let key = key_of_index (note - m.first_midi_note) m in
      ltb key (length m.velocity) && ltb 0 (velocity_of m.velocity key)

unfoldable pub silence : List ℕ → List ℕ
silence [] = []
silence (v ∷ l) = 0 ∷ silence l

unfoldable pub silence_all : List (List ℕ) → List (List ℕ)
silence_all [] = []
silence_all (row ∷ l) = silence row ∷ silence_all l

unfoldable pub prepare_playback : Manual → Manual × List Call
prepare_playback m = (
  record m {
    key_velocity = replicate m.accessible_keys 0;
    unison_off = 0;
    velocity = silence m.velocity;
    division_velocities = silence m.division_velocities;
    remote_velocity = silence m.remote_velocity;
    velocities_by_coupler = silence_all m.velocities_by_coupler;
  },
  reset_division_midi_key ∷ [],
)

-- The loop of `PrepareRecording`, from the i-th accessible key on.
unfoldable pub send_pressed : ℕ → List ℕ → Manual → List Call
send_pressed i [] m = []
send_pressed i (v ∷ l) m =
    let rest = send_pressed (suc i) l m in
    if ltb 0 v then midi_key (i + m.first_midi_note) v ∷ rest else rest

unfoldable pub prepare_recording : Manual → Manual × List Call
prepare_recording m = (m, empty_midi_key ∷ send_pressed 0 m.key_velocity m)

-- `Resize`, and `RegisterCoupler`, which returns the number of the new coupler here.
unfoldable pub resize_rows : ℕ → List (List ℕ) → List (List ℕ)
resize_rows n [] = []
resize_rows n (row ∷ l) = resize n 0 row ∷ resize_rows n l

unfoldable pub resize_manual : Manual → Manual
resize_manual m = record m {
  velocity = resize m.logical_keys 0 m.velocity;
  division_velocities = resize m.logical_keys 0 m.division_velocities;
  remote_velocity = resize m.logical_keys 0 m.remote_velocity;
  velocities_by_coupler =
      resize_rows m.input_couplers (resize m.logical_keys [] m.velocities_by_coupler);
}

unfoldable pub register_coupler : Manual → Manual × ℕ
register_coupler m =
    let m' = resize_manual (record m { input_couplers = m.input_couplers + 1 }) in
    (m', m'.input_couplers - 1)

-- `OnMidiReceived`, with a key and a value that are not negative.
unfoldable pub on_midi_received : MatchType → ℕ → ℕ → (ℕ → KeyCalls) → Manual → Manual × List Call
on_midi_received match_on key value nested m =
    set_midi_note_state key (if value == 0 then 1 else value) (nested key) m
on_midi_received match_off key value nested m = set_midi_note_state key 0 (nested key) m
on_midi_received match_reset key value nested m = all_notes_off nested m
on_midi_received match_none key value nested m = (m, [])
on_midi_received match_change key value nested m = (m, [])
