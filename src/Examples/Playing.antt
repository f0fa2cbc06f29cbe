-- ===== src/Examples/Playing.antt =====
-- src/grandorgue/model/GOManual.cpp with a manual of three keys that two couplers lead to.
use grandorgue.Prelude.{ℕ, zero, suc, ◌<◌, ◌/◌, List, [], ◌∷◌, true, length, ◌≡◌, refl, arith}
use grandorgue.Manuals.{
  Manual, stops_key, division_midi_key, midi_key, control_changed, no_calls, key_call, velocity_of,
  inputs, set_division_key_state, strongest, sum_up, store_key, announce, set_key_states,
  set_key_state, set_note_at, set_midi_note_state, refresh_division, set_unison_off, all_notes_off,
  is_key_down, silence, silence_all, prepare_playback, resize_rows, resize_manual, register_coupler,
}
use grandorgue.Manuals.Sources.{greatest}
use grandorgue.Manuals.Runs.{Event, couples, plays, switches_unison_off, happen, run, unison_after}
use grandorgue.Manuals.Division.{IsLaidOut, heard, run-division}
use grandorgue.Manuals.Own.{own}
use grandorgue.Manuals.Stops.{hold, manual_tells_stops}
use grandorgue.Manuals.Release.{IsLoaded, all_notes_off_releases}

abbrev three_keys : Manual
three_keys = record {
  key_velocity = 0 ∷ 0 ∷ 0 ∷ [];
  remote_velocity = 0 ∷ 0 ∷ 0 ∷ [];
  velocity = 0 ∷ 0 ∷ 0 ∷ [];
  division_velocities = 0 ∷ 0 ∷ 0 ∷ [];
  velocities_by_coupler = (0 ∷ 0 ∷ 0 ∷ []) ∷ (0 ∷ 0 ∷ 0 ∷ []) ∷ (0 ∷ 0 ∷ 0 ∷ []) ∷ [];
  first_logical_key = 1;
  logical_keys = 3;
  first_midi_note = 36;
  accessible_keys = 3;
  input_couplers = 3;
  unison_off = 0;
}

-- Note 36 is pressed and comes back as key 2 from coupler 1; then a coupler switches the unison off,
-- and key 0 is sounded by coupler 2.
abbrev played : List Event
played =
    plays 36 10 (key_call 2 42 1 no_calls no_calls)
    ∷ switches_unison_off true
    ∷ couples (key_call 0 20 2 no_calls no_calls)
    ∷ []

calls_test :
    (run played (prepare_playback three_keys).0).1
    ≡ midi_key 36 10
      ∷ stops_key 3 10
      ∷ division_midi_key 38 10
      ∷ control_changed
      ∷ stops_key 1 10
      ∷ division_midi_key 36 10
      ∷ control_changed
      ∷ stops_key 1 0
      ∷ division_midi_key 36 0
      ∷ stops_key 1 5
      ∷ division_midi_key 36 5
      ∷ control_changed
      ∷ []
unfolding run happen set_midi_note_state set_note_at set_key_state set_key_states announce store_key
    sum_up strongest set_division_key_state set_unison_off refresh_division prepare_playback silence
    silence_all
calls_test = refl

three_keys-IsLaidOut : IsLaidOut three_keys
three_keys-IsLaidOut = record { rows = refl; remotes = refl; divisions = refl }

run-division_example :
    velocity_of (run played (prepare_playback three_keys).0).0.division_velocities 0
    ≡ greatest
        (heard (unison_after 0 played) (inputs (run played (prepare_playback three_keys).0).0 0))
      / 4
run-division_example = run-division three_keys played 0 three_keys-IsLaidOut (omega arith)

manual_tells_stops_example :
    hold (run played three_keys).1 three_keys.division_velocities
    ≡ (run played three_keys).0.division_velocities
manual_tells_stops_example = manual_tells_stops played three_keys

three_keys-IsLoaded : IsLoaded three_keys
three_keys-IsLoaded = record { positive = omega arith; small = omega arith; deep = rows }
  where
    rows : (k : ℕ) → k < length three_keys.velocity → 0 < length (inputs three_keys k)
    rows zero h = omega arith
    rows (suc zero) h = omega arith
    rows (suc (suc zero)) h = omega arith
    rows (suc (suc (suc k))) h = absurd (omega arith)

-- A manual of one key, pressed and then released by `AllNotesOff`.
all_notes_off_releases_example :
    (velocity_of
        (all_notes_off
          (λ j. no_calls)
          (run (plays 36 10 no_calls ∷ []) (prepare_playback three_keys).0).0).0.key_velocity
        0
      ≡ 0)
    × (own
          (all_notes_off
            (λ j. no_calls)
            (run (plays 36 10 no_calls ∷ []) (prepare_playback three_keys).0).0).0
          0
        ≡ 0)
unfolding run happen set_midi_note_state set_note_at set_key_state set_key_states announce store_key
    sum_up strongest set_division_key_state prepare_playback silence silence_all
all_notes_off_releases_example =
    all_notes_off_releases three_keys (plays 36 10 no_calls ∷ []) (λ j. no_calls) 0
      three_keys-IsLoaded (tt, tt) (λ j. tt) (omega arith) (omega arith)

key_down_test : is_key_down 36 (run played (prepare_playback three_keys).0).0 ≡ true
unfolding run happen set_midi_note_state set_note_at set_key_state set_key_states announce store_key
    sum_up strongest set_division_key_state set_unison_off refresh_division prepare_playback silence
    silence_all is_key_down
key_down_test = refl

register_test : (register_coupler three_keys).1 ≡ 3
unfolding register_coupler resize_manual resize_rows
register_test = refl
