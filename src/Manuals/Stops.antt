-- ===== src/Manuals/Stops.antt =====
-- What a manual tells its stops.
use grandorgue.Prelude.{
  ℕ, zero, suc, ◌+◌, ◌-◌, ◌/◌, ◌^◌, ◌||◌, Bool, true, false, List, [], ◌∷◌, ◌++◌, length, set, leb,
  ltb, ◌==◌, if◌then◌else◌, ◌≡◌, refl, ap, ◌∙◌, inl, inr, arith, Bool-cases,
}
use grandorgue.Manuals.{
  Manual, Call, stops_key, division_midi_key, midi_key, empty_midi_key, reset_division_midi_key,
  control_changed, KeyCalls, no_calls, key_call, velocity_of, set_division_key_state, store_key,
  audible, announce, is_news, note_of_key, key_of_index, widened, set_key_states, set_key_state,
  set_note_at, set_midi_note_state, refresh_division, set_unison_off, notes_off_from, all_notes_off,
  on_midi_received, u32,
}
use grandorgue.Midi.MessageType.{
  MatchType, match_none, match_on, match_off, match_change, match_reset,
}
use grandorgue.Manuals.Runs.{
  Event, couples, plays, receives, aborts, switches_unison_off, happen, run,
}

-- What the stops hold for each key after some calls of their `SetKeyState`.
unfoldable pub hold : List Call → List ℕ → List ℕ
hold [] d = d
hold (stops_key number v ∷ calls) d = hold calls (set d (number - 1) v)
hold (division_midi_key n v ∷ calls) d = hold calls d
hold (midi_key n v ∷ calls) d = hold calls d
hold (empty_midi_key ∷ calls) d = hold calls d
hold (reset_division_midi_key ∷ calls) d = hold calls d
hold (control_changed ∷ calls) d = hold calls d

hold-append : (a b : List Call) (d : List ℕ) → hold (a ++ b) d ≡ hold b (hold a d)
unfolding hold
hold-append [] b d = refl
hold-append (stops_key number v ∷ a) b d = hold-append a b (set d (number - 1) v)
hold-append (division_midi_key n v ∷ a) b d = hold-append a b d
hold-append (midi_key n v ∷ a) b d = hold-append a b d
hold-append (empty_midi_key ∷ a) b d = hold-append a b d
hold-append (reset_division_midi_key ∷ a) b d = hold-append a b d
hold-append (control_changed ∷ a) b d = hold-append a b d

-- A step whose calls leave in the stops just what the division holds.
abbrev pub Tells : Manual → Manual × List Call → Type 0
Tells m r = hold r.1 m.division_velocities ≡ r.0.division_velocities

-- One step after the other.
Tells-then :
    (m : Manual) (r s : Manual × List Call) → Tells m r → Tells r.0 s → Tells m (s.0, r.1 ++ s.1)
Tells-then m r s h k = hold-append r.1 s.1 m.division_velocities ∙ ap (hold s.1) h ∙ k

midi_key-silent :
    (b : Bool) (note v : ℕ) (d : List ℕ)
    → hold (if b then division_midi_key note v ∷ [] else []) d ≡ d
unfolding hold
midi_key-silent true note v d = refl
midi_key-silent false note v d = refl

control-silent : (b : Bool) (d : List ℕ) → hold (if b then control_changed ∷ [] else []) d ≡ d
unfolding hold
control-silent true d = refl
control-silent false d = refl

set_division_key_state-Tells : (key v : ℕ) (m : Manual) → Tells m (set_division_key_state key v m)
unfolding set_division_key_state hold
set_division_key_state-Tells key v m =
    let same : suc key - 1 ≡ key = omega arith in
    elim (Bool-cases (leb (length m.division_velocities) key)) [
      | inl e ↦ rw e
      | inr e ↦ rw e (elim (Bool-cases (velocity_of m.division_velocities key == v / 4)) [
        | inl q ↦ rw q
        | inr q ↦ rw q (
            midi_key-silent (ltb (note_of_key key m) 127) (note_of_key key m) (v / 4)
              (set m.division_velocities (suc key - 1) (v / 4))
            ∙ ap (λ k. set m.division_velocities k (v / 4)) same)
      ])
    ]

announce-Tells :
    (key : ℕ) (m : Manual) (r : Manual × List Call) → Tells m r → Tells m (announce key r)
unfolding announce
announce-Tells key m (m', calls) h =
    let write = set_division_key_state-Tells key (audible key m') m' in
    let more = (set_division_key_state key (audible key m') m').1 in
    hold-append calls _ m.division_velocities
    ∙ ap (hold _) h
    ∙ hold-append more _ m'.division_velocities
    ∙ control-silent _ (hold more m'.division_velocities)
    ∙ write

nothing-Tells : (m : Manual) → Tells m (m, [])
unfolding hold
nothing-Tells m = refl

store_key-division :
    (key velocity coupler : ℕ) (m : Manual)
    → m.division_velocities ≡ (store_key key velocity coupler m).division_velocities
unfolding store_key
store_key-division key velocity coupler m = refl

set_key_states-Tells : (calls : KeyCalls) (m : Manual) → Tells m (set_key_states calls m)
unfolding set_key_states
set_key_states-Tells no_calls m = nothing-Tells m
set_key_states-Tells (key_call key velocity coupler nested rest) m =
    let m1 = store_key key velocity coupler m in
    let inner : Tells m (set_key_states nested m1) =
      ap (hold (set_key_states nested m1).1) (store_key-division key velocity coupler m)
      ∙ set_key_states-Tells nested m1 in
    elim (Bool-cases (is_news key velocity coupler m)) [
      | inl e ↦ rw e (
          Tells-then m (announce key (set_key_states nested m1))
            (set_key_states rest (announce key (set_key_states nested m1)).0)
            (announce-Tells key m (set_key_states nested m1) inner)
            (set_key_states-Tells rest (announce key (set_key_states nested m1)).0))
      | inr e ↦ rw e (
          Tells-then m (m, []) (set_key_states rest m) (nothing-Tells m)
            (set_key_states-Tells rest m))
    ]

set_note_at-Tells :
    (i note velocity : ℕ) (nested : KeyCalls) (m : Manual)
    → Tells m (set_note_at i note velocity nested m)
unfolding set_note_at set_key_state hold
set_note_at-Tells i note velocity nested m =
    let told =
      set_key_states-Tells (key_call (key_of_index i m) (widened velocity) 0 nested no_calls)
        (record m { key_velocity = set m.key_velocity i velocity }) in
    elim (Bool-cases (velocity_of m.key_velocity i == velocity)) [
      | inl e ↦ rw e
      | inr e ↦ rw e told
    ]

set_midi_note_state-Tells :
    (note velocity : ℕ) (nested : KeyCalls) (m : Manual)
    → Tells m (set_midi_note_state note velocity nested m)
unfolding set_midi_note_state
set_midi_note_state-Tells note velocity nested m =
    elim (Bool-cases
      (ltb note m.first_midi_note || leb (m.first_midi_note + length m.key_velocity) note)) [
        | inl e ↦ rw e (nothing-Tells m)
        | inr e ↦ rw e (set_note_at-Tells (note - m.first_midi_note) note velocity nested m)
      ]

notes_off_from-Tells :
    (nested : ℕ → KeyCalls) (left j : ℕ) (m : Manual) → Tells m (notes_off_from nested left j m)
unfolding notes_off_from
notes_off_from-Tells nested zero j m = nothing-Tells m
notes_off_from-Tells nested (suc left) j m =
    let first = set_midi_note_state (m.first_midi_note + j) 0 (nested j) m in
    Tells-then m first (notes_off_from nested left (suc j) first.0)
      (set_midi_note_state-Tells (m.first_midi_note + j) 0 (nested j) m)
      (notes_off_from-Tells nested left (suc j) first.0)

refresh_division-Tells :
    (on : Bool) (left key : ℕ) (m : Manual) → Tells m (refresh_division on left key m)
unfolding refresh_division
refresh_division-Tells on zero key m = nothing-Tells m
refresh_division-Tells on (suc left) key m =
    let v : ℕ = if on then velocity_of m.remote_velocity key else velocity_of m.velocity key in
    let first = set_division_key_state key v m in
    Tells-then m first (refresh_division on left (suc key) first.0)
      (set_division_key_state-Tells key v m) (refresh_division-Tells on left (suc key) first.0)

set_unison_off-Tells : (on : Bool) (m : Manual) → Tells m (set_unison_off on m)
unfolding set_unison_off
set_unison_off-Tells true m =
    let m' = record m { unison_off = u32 (m.unison_off + 1) } in
    elim (Bool-cases (ltb 0 m.unison_off)) [
      | inl e ↦ rw e (nothing-Tells m')
      | inr e ↦ rw e (refresh_division-Tells true (length m.velocity) 0 m')
    ]
set_unison_off-Tells false m =
    let m' = record m { unison_off = u32 (m.unison_off + 2 ^ 32 - 1) } in
    elim (Bool-cases (ltb 0 m'.unison_off)) [
      | inl e ↦ rw e (nothing-Tells m')
      | inr e ↦ rw e (refresh_division-Tells false (length m.velocity) 0 m')
    ]

on_midi_received-Tells :
    (t : MatchType) (key value : ℕ) (nested : ℕ → KeyCalls) (m : Manual)
    → Tells m (on_midi_received t key value nested m)
unfolding on_midi_received all_notes_off
on_midi_received-Tells match_on key value nested m = set_midi_note_state-Tells key _ (nested key) m
on_midi_received-Tells match_off key value nested m = set_midi_note_state-Tells key 0 (nested key) m
on_midi_received-Tells match_reset key value nested m =
    notes_off_from-Tells nested m.accessible_keys 0 m
on_midi_received-Tells match_none key value nested m = nothing-Tells m
on_midi_received-Tells match_change key value nested m = nothing-Tells m

happen-Tells : (e : Event) (m : Manual) → Tells m (happen e m)
unfolding happen all_notes_off
happen-Tells (couples calls) m = set_key_states-Tells calls m
happen-Tells (plays note velocity nested) m = set_midi_note_state-Tells note velocity nested m
happen-Tells (receives t key value nested) m = on_midi_received-Tells t key value nested m
happen-Tells (aborts nested) m = notes_off_from-Tells nested m.accessible_keys 0 m
happen-Tells (switches_unison_off on) m = set_unison_off-Tells on m

-- In every state and whatever happens to a manual after `PreparePlayback`: its calls of the stops,
-- taken one after the other, leave in the stops just the velocities that the division then holds, if
-- they held those of the division before.
pub manual_tells_stops :
    (es : List Event) (m : Manual)
    → hold (run es m).1 m.division_velocities ≡ (run es m).0.division_velocities
unfolding run
manual_tells_stops [] m = nothing-Tells m
manual_tells_stops (e ∷ es) m =
    Tells-then m (happen e m) (run es (happen e m).0) (happen-Tells e m)
      (manual_tells_stops es (happen e m).0)
