-- ===== src/Midi/Matcher/Apart.antt =====
-- The messages by which other devices set an element up, in Match of
-- src/grandorgue/midi/elements/GOMidiReceiver.cpp.
use grandorgue.Prelude.{
  ℕ, false, not, ◌&&◌, ◌||◌, Option, List, [], ◌∷◌, All, ◌≡◌, ◌≢◌, refl, ap, ◌∙◌, inl, inr, ◌⊎◌,
  Bool-cases, arith,
}
use grandorgue.Prelude.Int.{ℤ, pos, eq_ℤ}
use grandorgue.Midi.Event.{
  Event, same_type, minus_one, midi_sysex_go_clear, midi_sysex_go_sampleset, midi_sysex_go_setup,
}
use grandorgue.Midi.Matcher.{
  set_up, Receiver, Internal, Found, delete_internal, find_internal, set_internal, mute_internal,
  key_or_zero, match_event, is_setup,
}
use grandorgue.Midi.Matcher.Internals.{
  match_event-plain, set_internal-upsert, find-upsert, IsDistinct,
}
use grandorgue.Midi.Matcher.Removal.{delete_internal-remove, find-remove}
use grandorgue.Midi.Matcher.Hearing.{Heard, hear, hear_all, hear-IsDistinct, play_event-internal}

-- What a device has set up is not touched by the messages of another one.
module _ (d : ℕ) where
  find-set_internal :
      (x : Internal) (l : List Internal)
      → x.device ≢ d
      → find_internal d (set_internal x l) ≡ find_internal d l
  find-set_internal x l ne =
      ap (find_internal d) (set_internal-upsert x l) ∙ find-upsert x l d ∙ ground arith

  find-delete_internal :
      (d' : ℕ) (l : List Internal)
      → d' ≢ d
      → IsDistinct l
      → find_internal d (delete_internal d' l) ≡ find_internal d l
  find-delete_internal d' l ne u =
      ap (find_internal d) (delete_internal-remove d' l) ∙ find-remove d d' l ne u

  find-set_up :
      (e : Event) (r : Receiver)
      → e.device ≢ d
      → find_internal d (set_up e r).internal ≡ find_internal d r.internal
  unfolding set_up
  find-set_up e r ne =
      let set =
        find-set_internal (record { device = e.device; channel = e.channel; key = e.value })
          r.internal ne in
      elim (Bool-cases (eq_ℤ r.element_id minus_one || not (eq_ℤ r.element_id e.key))) [
        | inl b ↦ rw b refl
        | inr b ↦ rw b set
      ]

  find-others :
      (e : Event) (map : Option (List ℕ)) (transpose key : ℤ) (r : Receiver)
      → IsDistinct r.internal
      → e.device ≢ d
      → find_internal d (match_event e map transpose key r).0.internal ≡ find_internal d r.internal
  unfolding match_event mute_internal
  find-others e map transpose key r u ne =
      let deleted = find-delete_internal e.device r.internal ne u in
      let muted =
        find-set_internal
          (record {
            device = e.device;
            channel = minus_one;
            key = key_or_zero (find_internal e.device r.internal);
          })
          r.internal ne in
      let played = ap (find_internal d) (play_event-internal e map transpose key r) in
      elim (Bool-cases (same_type e.midi_type midi_sysex_go_clear && eq_ℤ e.channel (pos 0))) [
        | inl a ↦ rw a deleted
        | inr a ↦
            rw a
              (elim (Bool-cases (
                same_type e.midi_type midi_sysex_go_clear
                || same_type e.midi_type midi_sysex_go_sampleset)) [
                  | inl b ↦ rw b muted
                  | inr b ↦ rw b (elim (Bool-cases (same_type e.midi_type midi_sysex_go_setup)) [
                    | inl c ↦ rw c (find-set_up e r ne)
                    | inr c ↦ rw c played
                  ])
                ])
      ]

  -- The event is no message by which the device sets the element up or clears it.
  abbrev pub IsForeign : Heard → Type 0
  IsForeign h = (h.event.device ≢ d) ⊎ (is_setup h.event ≡ false)

  find-hear :
      (h : Heard) (r : Receiver)
      → IsDistinct r.internal
      → IsForeign h
      → find_internal d (hear h r).internal ≡ find_internal d r.internal
  unfolding hear
  find-hear h r u (inl ne) = find-others h.event h.key_map h.transpose h.key r u ne
  find-hear h r u (inr plain) =
      ap (λ (x : Receiver × Found). find_internal d x.0.internal)
        (match_event-plain h.event h.key_map h.transpose h.key r plain)
      ∙ ap (find_internal d) (play_event-internal h.event h.key_map h.transpose h.key r)

  pub find-hear_all :
      (hs : List Heard) (r : Receiver)
      → IsDistinct r.internal
      → All IsForeign hs
      → find_internal d (hear_all hs r).internal ≡ find_internal d r.internal
  unfolding hear_all
  find-hear_all [] r u a = refl
  find-hear_all (h ∷ hs) r u (f, a) =
      find-hear_all hs (hear h r) (hear-IsDistinct h r u) a ∙ find-hear h r u f
