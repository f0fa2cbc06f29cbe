-- ===== src/Midi/RoundTrip/Plain.antt =====
-- Which messages FromMidi, of src/grandorgue/midi/events/GOMidiEvent.cpp, takes for something else than
-- control and program changes.
use grandorgue.Prelude.{
  ℕ, ◌≡◌, ◌≢◌, ◌⊎◌, inl, inr, Bool, true, false, Option, none, some, List, arith, refl,
}
use grandorgue.Midi.NameMap.{MidiMap}
use grandorgue.Midi.Event.{midi_reset, midi_ctrl_change, midi_pgm_change, Event}
use grandorgue.Midi.Message.{
  is_rodgers, is_ahlborn_galanti, is_grandorgue, is_johannus_9, is_johannus_11, is_viscount,
}
use grandorgue.Midi.Receive.{
  Ascii, Received, cleared, when, receive_sysex, receive_grandorgue, receive_foreign, receive_setup,
  receive_rodgers, receive_ahlborn_galanti, receive_johannus_9, receive_johannus_11,
  receive_viscount,
}

when-some :
    (t : Option Bool) (x y : Received) (r : Event × MidiMap)
    → when t x y ≡ some r
    → (x ≡ some r) ⊎ (y ≡ some r)
when-some none x y r h = absurd (differ h)
  where
    differ : {r : Event × MidiMap} → none ≢ some r
    differ q = cc
when-some (some true) x y r h = inl h
when-some (some false) x y r h = inr h

-- The types whose channel the merger uses.
unfoldable pub IsPlain : Event → Type 0
IsPlain e = (e.midi_type ≢ midi_ctrl_change) × (e.midi_type ≢ midi_pgm_change)

pub cleared-IsPlain : (wx : Ascii) (e : Event) → IsPlain (cleared wx e)
unfolding IsPlain
cleared-IsPlain wx e = (λ k. ground arith, λ k. ground arith)

module _ (wx : Ascii) (msg : List ℕ) (map map' : MidiMap) (e e' : Event) (plain : IsPlain e) where
  rodgers-IsPlain : receive_rodgers wx msg map e ≡ some (e', map') → IsPlain e'
  unfolding receive_rodgers IsPlain
  rodgers-IsPlain h = (λ k. ground arith, λ k. ground arith)

  ahlborn_galanti-IsPlain : receive_ahlborn_galanti wx msg map e ≡ some (e', map') → IsPlain e'
  unfolding receive_ahlborn_galanti IsPlain
  ahlborn_galanti-IsPlain h = (λ k. ground arith, λ k. ground arith)

  johannus_9-IsPlain : receive_johannus_9 wx msg map e ≡ some (e', map') → IsPlain e'
  unfolding receive_johannus_9 IsPlain
  johannus_9-IsPlain h = (λ k. ground arith, λ k. ground arith)

  johannus_11-IsPlain : receive_johannus_11 wx msg map e ≡ some (e', map') → IsPlain e'
  unfolding receive_johannus_11 IsPlain
  johannus_11-IsPlain h = (λ k. ground arith, λ k. ground arith)

  viscount-IsPlain : receive_viscount wx msg map e ≡ some (e', map') → IsPlain e'
  unfolding receive_viscount IsPlain
  viscount-IsPlain h = (λ k. ground arith, λ k. ground arith)

  unchanged-IsPlain : (r : Received) → r ≡ some (e, map) → r ≡ some (e', map') → IsPlain e'
  unfolding IsPlain
  unchanged-IsPlain r q h = (λ k. ground arith, λ k. ground arith)

  foreign-IsPlain : receive_foreign wx msg map e ≡ some (e', map') → IsPlain e'
  unfolding receive_foreign
  foreign-IsPlain h = elim (when-some (is_rodgers msg) _ _ _ h) [
    | inl q ↦ rodgers-IsPlain q
    | inr q ↦ elim (when-some (is_ahlborn_galanti msg) _ _ _ q) [
      | inl q ↦ ahlborn_galanti-IsPlain q
      | inr q ↦ unchanged-IsPlain (some (e, map)) refl q
    ]
  ]

  grandorgue-IsPlain : receive_grandorgue wx msg map e ≡ some (e', map') → IsPlain e'
  unfolding receive_grandorgue receive_setup IsPlain
  grandorgue-IsPlain h =
      (λ k. ground (arith, foreign-IsPlain), λ k. ground (arith, foreign-IsPlain))

  reset-IsPlain :
      (r : Received)
      → r ≡ some (record e { midi_type = midi_reset }, map)
      → r ≡ some (e', map')
      → IsPlain e'
  unfolding IsPlain
  reset-IsPlain r q h = (λ k. ground arith, λ k. ground arith)

  pub sysex-IsPlain : receive_sysex wx msg map e ≡ some (e', map') → IsPlain e'
  unfolding receive_sysex
  sysex-IsPlain h = elim (when-some _ _ _ _ h) [
    | inl q ↦ reset-IsPlain _ refl q
    | inr q ↦ elim (when-some (is_johannus_9 msg) _ _ _ q) [
      | inl q ↦ johannus_9-IsPlain q
      | inr q ↦ elim (when-some (is_johannus_11 msg) _ _ _ q) [
        | inl q ↦ johannus_11-IsPlain q
        | inr q ↦ elim (when-some (is_viscount msg) _ _ _ q) [
          | inl q ↦ viscount-IsPlain q
          | inr q ↦ elim (when-some (is_grandorgue msg) _ _ _ q) [
            | inl q ↦ grandorgue-IsPlain q
            | inr q ↦ foreign-IsPlain q
          ]
        ]
      ]
    ]
  ]
