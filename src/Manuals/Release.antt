-- ===== src/Manuals/Release.antt =====
-- AllNotesOff releases every key of the player.
use grandorgue.Prelude.{
  ℕ, zero, suc, ◌+◌, ◌-◌, ◌/◌, ◌^◌, ◌<◌, All, Bool, true, false, List, [], ◌∷◌, length, set,
  replicate, ltb, if◌then◌else◌, ◌≡◌, refl, ap, sym, subst, ◌∙◌, inl, inr, arith, Bool-cases,
}
use grandorgue.Manuals.{
  Manual, KeyCalls, velocity_of, inputs, set_key_states, set_division_key_state, widened,
  refresh_division, set_unison_off, notes_off_from, all_notes_off, on_midi_received,
  prepare_playback, u32,
}
use grandorgue.Midi.MessageType.{
  MatchType, match_none, match_on, match_off, match_change, match_reset,
}
use grandorgue.Manuals.Sources.{set_division_key_state_lem}
use grandorgue.Manuals.Keys.{set_key_states-Keeps}
use grandorgue.Manuals.Runs.{
  Event, couples, plays, receives, aborts, switches_unison_off, happen, run,
}
use grandorgue.Manuals.Division.{get_or-silence_all, velocity_of-silence, length-silence}
use grandorgue.Manuals.Own.{IsForeign, own, foreign-IsSameOwn}
use grandorgue.Manuals.NotesOff.{
  set_midi_note_state-IsHeld, notes_off_from-IsHeld, notes_off_from-IsReleased,
}
use grandorgue.Manuals.Held.{logical, IsHeld}

couples-IsHeld :
    (calls : KeyCalls) (m : Manual) → IsForeign calls → IsHeld m → IsHeld (set_key_states calls m).0
couples-IsHeld calls m f h =
    let m' = (set_key_states calls m).0 in
    let s = (set_key_states-Keeps calls m).frame in
    let o = foreign-IsSameOwn calls m f in
    record {
      size = ap length s.same_key_velocity ∙ h.size ∙ sym s.same_accessible_keys;
      positive = omega (arith, h.positive, s.same_first_logical_key);
      small = omega (arith, h.small, s.same_first_logical_key, s.same_accessible_keys);
      deep = λ k lt. omega (arith, o.same_depth k, h.deep k (omega (arith, lt, s.same_size)));
      held = λ j lt in_range.
          let at : logical j m' ≡ logical j m =
            ap (λ (n : ℕ). j + n - 1) s.same_first_logical_key in
          ap (own m') at
          ∙ o.same_own (logical j m)
          ∙ h.held j (omega (arith, lt, s.same_accessible_keys))
              (omega (arith, at, s.same_size, in_range))
          ∙ ap (λ l. widened (velocity_of l j)) (sym s.same_key_velocity);
    }

-- Writes of the division and of the count of unison offs.
division-IsHeld :
    (l : List ℕ) (n : ℕ) (m : Manual)
    → IsHeld m
    → IsHeld (record m { division_velocities = l; unison_off = n })
division-IsHeld l n m h = record {
  size = h.size;
  positive = h.positive;
  small = h.small;
  deep = h.deep;
  held = h.held;
}

refresh_division-IsHeld :
    (on : Bool) (left key : ℕ) (m : Manual) → IsHeld m → IsHeld (refresh_division on left key m).0
unfolding refresh_division
refresh_division-IsHeld on zero key m h = h
refresh_division-IsHeld on (suc left) key m h =
    let v : ℕ = if on then velocity_of m.remote_velocity key else velocity_of m.velocity key in
    refresh_division-IsHeld on left (suc key) (set_division_key_state key v m).0 (
      subst IsHeld (sym (set_division_key_state_lem key v m))
        (division-IsHeld (set m.division_velocities key (v / 4)) m.unison_off m h))

set_unison_off-IsHeld : (on : Bool) (m : Manual) → IsHeld m → IsHeld (set_unison_off on m).0
unfolding set_unison_off
set_unison_off-IsHeld true m h =
    let m' = record m { unison_off = u32 (m.unison_off + 1) } in
    let h' = division-IsHeld m.division_velocities (u32 (m.unison_off + 1)) m h in
    elim (Bool-cases (ltb 0 m.unison_off)) [
      | inl e ↦ rw e h'
      | inr e ↦ rw e (refresh_division-IsHeld true (length m.velocity) 0 m' h')
    ]
set_unison_off-IsHeld false m h =
    let m' = record m { unison_off = u32 (m.unison_off + 2 ^ 32 - 1) } in
    let h' = division-IsHeld m.division_velocities (u32 (m.unison_off + 2 ^ 32 - 1)) m h in
    elim (Bool-cases (ltb 0 m'.unison_off)) [
      | inl e ↦ rw e h'
      | inr e ↦ rw e (refresh_division-IsHeld false (length m.velocity) 0 m' h')
    ]

-- All calls that come back are those of couplers.
abbrev pub IsForeignEvent : Event → Type 0
IsForeignEvent (couples calls) = IsForeign calls
IsForeignEvent (plays note velocity nested) = IsForeign nested
IsForeignEvent (receives t key value nested) = (j : ℕ) → IsForeign (nested j)
IsForeignEvent (aborts nested) = (j : ℕ) → IsForeign (nested j)
IsForeignEvent (switches_unison_off on) = Unit {0}

on_midi_received-IsHeld :
    (t : MatchType) (key value : ℕ) (nested : ℕ → KeyCalls) (m : Manual)
    → ((j : ℕ) → IsForeign (nested j))
    → IsHeld m
    → IsHeld (on_midi_received t key value nested m).0
unfolding on_midi_received all_notes_off
on_midi_received-IsHeld match_on key value nested m f h =
    set_midi_note_state-IsHeld key _ (nested key) m (f key) h
on_midi_received-IsHeld match_off key value nested m f h =
    set_midi_note_state-IsHeld key 0 (nested key) m (f key) h
on_midi_received-IsHeld match_reset key value nested m f h =
    notes_off_from-IsHeld nested f m.accessible_keys 0 m h
on_midi_received-IsHeld match_none key value nested m f h = h
on_midi_received-IsHeld match_change key value nested m f h = h

happen-IsHeld : (e : Event) (m : Manual) → IsForeignEvent e → IsHeld m → IsHeld (happen e m).0
unfolding happen all_notes_off
happen-IsHeld (couples calls) m f h = couples-IsHeld calls m f h
happen-IsHeld (plays note velocity nested) m f h =
    set_midi_note_state-IsHeld note velocity nested m f h
happen-IsHeld (receives t key value nested) m f h = on_midi_received-IsHeld t key value nested m f h
happen-IsHeld (aborts nested) m f h = notes_off_from-IsHeld nested f m.accessible_keys 0 m h
happen-IsHeld (switches_unison_off on) m f h = set_unison_off-IsHeld on m h

run-IsHeld : (es : List Event) (m : Manual) → All IsForeignEvent es → IsHeld m → IsHeld (run es m).0
unfolding run
run-IsHeld [] m f h = h
run-IsHeld (e ∷ es) m f h = run-IsHeld es (happen e m).0 f.1 (happen-IsHeld e m f.0 h)

-- As `Load` and `RegisterCoupler` leave a manual: its accessible keys start at logical key 1 or above,
-- and each logical key has the player's velocity in its row.
pub record IsLoaded (m : Manual) : Type 0 where
  pub positive : 0 < m.first_logical_key
  pub small : m.first_logical_key + m.accessible_keys < 2 ^ 32
  pub deep : (k : ℕ) → k < length m.velocity → 0 < length (inputs m k)

length-replicate : (n : ℕ) → length (replicate {A = ℕ} n 0) ≡ n
length-replicate zero = refl
length-replicate (suc n) = ap suc (length-replicate n)

velocity_of-replicate : (n i : ℕ) → velocity_of (replicate n 0) i ≡ 0
velocity_of-replicate zero i = refl
velocity_of-replicate (suc n) zero = refl
velocity_of-replicate (suc n) (suc i) = velocity_of-replicate n i

prepare_playback-IsHeld : (m : Manual) → IsLoaded m → IsHeld (prepare_playback m).0
unfolding prepare_playback
prepare_playback-IsHeld m h = record {
  size = length-replicate m.accessible_keys;
  positive = h.positive;
  small = h.small;
  deep = λ k lt.
      let same =
        ap length (get_or-silence_all m.velocities_by_coupler k) ∙ length-silence (inputs m k) in
      omega (arith, same, h.deep k (omega (arith, lt, length-silence m.velocity)));
  held = λ j lt in_range.
      ap (λ l. velocity_of l 0) (get_or-silence_all m.velocities_by_coupler (logical j m))
      ∙ velocity_of-silence (inputs m (logical j m)) 0
      ∙ sym (ap widened (velocity_of-replicate m.accessible_keys j));
}

-- Whatever has happened to a loaded manual since `PreparePlayback`, `AllNotesOff` releases each of its
-- accessible keys: neither the keyboard nor the key's row holds a velocity of the player any more.
-- This supposes that the calls that come back while a key is passed on are those of couplers, and, for
-- the row, that the key has a logical one.
pub all_notes_off_releases :
    (m : Manual) (es : List Event) (nested : ℕ → KeyCalls) (i : ℕ)
    → IsLoaded m
    → All IsForeignEvent es
    → ((j : ℕ) → IsForeign (nested j))
    → i < (run es (prepare_playback m).0).0.accessible_keys
    → logical i (run es (prepare_playback m).0).0
      < length (run es (prepare_playback m).0).0.velocity
    → (velocity_of (all_notes_off nested (run es (prepare_playback m).0).0).0.key_velocity i ≡ 0)
      × (own
            (all_notes_off nested (run es (prepare_playback m).0).0).0
            (logical i (run es (prepare_playback m).0).0)
          ≡ 0)
unfolding all_notes_off
all_notes_off_releases m es nested i loaded foreign f lt in_range =
    let m1 = (run es (prepare_playback m).0).0 in
    let h = run-IsHeld es (prepare_playback m).0 foreign (prepare_playback-IsHeld m loaded) in
    let r =
      notes_off_from-IsReleased nested f m1.accessible_keys 0 m1 h (omega arith)
        (λ k k_lt. absurd (omega arith)) in
    let m2 = (notes_off_from nested m1.accessible_keys 0 m1).0 in
    let at : logical i m1 ≡ logical i m2 = ap (λ (n : ℕ). i + n - 1) (sym r.same_first) in
    (
      r.released i lt,
      ap (own m2) at
          ∙ r.still_held.held i (omega (arith, lt, r.same_keys))
              (omega (arith, at, in_range, r.same_keyboard))
          ∙ ap widened (r.released i lt),
    )
