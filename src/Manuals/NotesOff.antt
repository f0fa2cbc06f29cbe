-- ===== src/Manuals/NotesOff.antt =====
-- The loop of AllNotesOff.
use grandorgue.Prelude.{
  ℕ, zero, suc, ◌+◌, ◌-◌, ◌<◌, ◌||◌, false, List, length, get_or-set_self, get_or-set_ne, set, ltb,
  leb, ◌==◌, ◌≡◌, ◌≢◌, refl, ap, sym, subst, ◌∙◌, inl, inr, arith, Bool-cases, ==_iff,
}
use grandorgue.Manuals.{
  Manual, KeyCalls, velocity_of, set_note_at, set_midi_note_state, notes_off_from,
}
use grandorgue.Manuals.Own.{IsForeign}
use grandorgue.Manuals.Held.{IsHeld, set_note_at-Presses}

-- `SetMidiNoteState` for a note of the manual.
set_midi_note_state-at :
    (j velocity : ℕ) (nested : KeyCalls) (m : Manual)
    → j < length m.key_velocity
    → set_midi_note_state (m.first_midi_note + j) velocity nested m
      ≡ set_note_at j (m.first_midi_note + j) velocity nested m
unfolding set_midi_note_state
set_midi_note_state-at j velocity nested m lt =
    let inside : (ltb (m.first_midi_note + j) m.first_midi_note
          || leb (m.first_midi_note + length m.key_velocity) (m.first_midi_note + j))
        ≡ false =
      ground arith in
    let index : m.first_midi_note + j - m.first_midi_note ≡ j = omega arith in rw (inside, index)

pub set_midi_note_state-IsHeld :
    (note velocity : ℕ) (nested : KeyCalls) (m : Manual)
    → IsForeign nested
    → IsHeld m
    → IsHeld (set_midi_note_state note velocity nested m).0
unfolding set_midi_note_state
set_midi_note_state-IsHeld note velocity nested m f h =
    elim (Bool-cases
      (ltb note m.first_midi_note || leb (m.first_midi_note + length m.key_velocity) note)) [
        | inl e ↦ rw e h
        | inr e ↦
            let lt : note - m.first_midi_note < m.accessible_keys = ground (arith, h.size) in
            rw e
              (set_note_at-Presses (note - m.first_midi_note) note velocity nested m f h
                lt).still_held
      ]

zeros_step :
    (l : List ℕ) (j k : ℕ)
    → k < suc j
    → j < length l
    → ((i : ℕ) → i < j → velocity_of l i ≡ 0)
    → velocity_of (set l j 0) k ≡ 0
zeros_step l j k lt size done = elim (Bool-cases (j == k)) [
  | inl e ↦
      subst (λ n. velocity_of (set l j 0) n ≡ 0) ((==_iff j k).0 e) (get_or-set_self l j 0 0 size)
  | inr e ↦
      let ne : j ≢ k = λ p. cc (sym e ∙ (==_iff j k).1 p) in
      get_or-set_ne l j k 0 0 ne ∙ done k (omega arith)
]

-- All accessible keys are released.
pub record IsReleased (m m' : Manual) : Type 0 where
  pub still_held : IsHeld m'
  pub released : (i : ℕ) → i < m.accessible_keys → velocity_of m'.key_velocity i ≡ 0
  pub same_keys : m'.accessible_keys ≡ m.accessible_keys
  pub same_first : m'.first_logical_key ≡ m.first_logical_key
  pub same_keyboard : length m'.velocity ≡ length m.velocity

-- The loop of `AllNotesOff`.
module _ (nested : ℕ → KeyCalls) (f : (j : ℕ) → IsForeign (nested j)) where
  pub notes_off_from-IsHeld :
      (left j : ℕ) (m : Manual) → IsHeld m → IsHeld (notes_off_from nested left j m).0
  unfolding notes_off_from
  notes_off_from-IsHeld zero j m h = h
  notes_off_from-IsHeld (suc left) j m h =
      notes_off_from-IsHeld left (suc j) _
        (set_midi_note_state-IsHeld (m.first_midi_note + j) 0 (nested j) m (f j) h)

  pub notes_off_from-IsReleased :
      (left j : ℕ) (m : Manual)
      → IsHeld m
      → left + j ≡ m.accessible_keys
      → ((i : ℕ) → i < j → velocity_of m.key_velocity i ≡ 0)
      → IsReleased m (notes_off_from nested left j m).0
  unfolding notes_off_from
  notes_off_from-IsReleased zero j m h size done = record {
    still_held = h;
    released = λ i lt. done i (omega (arith, size));
    same_keys = refl;
    same_first = refl;
    same_keyboard = refl;
  }
  notes_off_from-IsReleased (suc left) j m h size done =
      let first = set_note_at j (m.first_midi_note + j) 0 (nested j) m in
      let p =
        set_note_at-Presses j (m.first_midi_note + j) 0 (nested j) m (f j) h
          (omega (arith, size)) in
      let rest =
        notes_off_from-IsReleased left (suc j) first.0 p.still_held
          (omega (arith, size, p.same_keys))
          (λ k lt.
            ap (λ l. velocity_of l k) p.pressed_keys
            ∙ zeros_step m.key_velocity j k lt (omega (arith, size, h.size)) done) in
      rw (set_midi_note_state-at j 0 (nested j) m (omega (arith, size, h.size))) (record {
        still_held = rest.still_held;
        released = λ i lt. rest.released i (omega (arith, lt, p.same_keys));
        same_keys = rest.same_keys ∙ p.same_keys;
        same_first = rest.same_first ∙ p.same_first;
        same_keyboard = rest.same_keyboard ∙ p.same_keyboard;
      })
