-- ===== src/Midi/Matcher/SetUp.antt =====
-- A device that sets an element up, and one that clears what it has set up.
use grandorgue.Prelude.{false, ◌&&◌, ◌||◌, none, List, ◌≡◌, ap, ◌∙◌, Bool, if◌then◌else◌}
use grandorgue.Prelude.Int.{ℤ, pos, ◌+ℤ◌, leb_ℤ, eq_ℤ}
use grandorgue.Midi.Event.{
  Event, same_type, midi_note, midi_ctrl_change, midi_nrpn, midi_sysex_go_clear,
}
use grandorgue.Midi.MessageType.{ReceiverType, is_manual}
use grandorgue.Midi.Matcher.{
  play_from, Receiver, Found, find_internal, match_patterns, match_event, play_event, is_setup,
  prepare_playback,
}
use grandorgue.Midi.Matcher.Internals.{match_event-plain, IsDistinct}
use grandorgue.Midi.Matcher.Removal.{remove, delete_internal-remove, find-none, remove-absent}
use grandorgue.Midi.Matcher.Hearing.{Heard, hear, hear_all, hear_all-IsDistinct, hear-clear}

abbrev pub match_heard : Heard → Receiver → Receiver × Found
match_heard h r = match_event h.event h.key_map h.transpose h.key r

-- Whatever events have come since `PreparePlayback`, with whatever key maps and transpositions: after a
-- message GO_CLEAR with channel 0, the patterns decide on the next event of its device, unless that is
-- again a message that sets the element up or clears it.
pub clear_forgets :
    (hs : List Heard) (r : Receiver) (h h' : Heard)
    → h.event.midi_type ≡ midi_sysex_go_clear
    → h.event.channel ≡ pos 0
    → h'.event.device ≡ h.event.device
    → is_setup h'.event ≡ false
    → match_heard h' (hear h (hear_all hs (prepare_playback r)))
      ≡ match_patterns h'.event h'.key_map h'.transpose 0
          (hear h (hear_all hs (prepare_playback r))).patterns
          h'.key
          (pos 0)
          (hear h (hear_all hs (prepare_playback r)))
clear_forgets hs r h h' t c same plain =
    let d = h.event.device in
    let r1 = hear_all hs (prepare_playback r) in
    let r2 = hear h r1 in
    let distinct : IsDistinct r1.internal =
      hear_all-IsDistinct hs (prepare_playback r) (unfold prepare_playback in tt) in
    let gone : find_internal h'.event.device r2.internal ≡ none =
      ap (λ n. find_internal n r2.internal) same
      ∙ ap (λ (q : Receiver). find_internal d q.internal) (hear-clear h r1 t c)
      ∙ ap (find_internal d) (delete_internal-remove d r1.internal)
      ∙ find-none d (remove d r1.internal) (remove-absent d r1.internal distinct) in
    match_event-plain h'.event h'.key_map h'.transpose h'.key r2 plain
    ∙ (unfold play_event in ap (λ o. play_from o h'.event h'.key_map h'.transpose h'.key r2) gone)

-- Does an event ask something of a receiver that has been set up with a channel and a number? A
-- manual takes notes of the channel that are on its keyboard after the transposition, and All Notes
-- Off; anything else takes the NRPN of the number on the channel.
abbrev pub asks : ReceiverType → ℤ → ℤ → Event → ℤ → Bool
asks t channel number e transpose =
    eq_ℤ e.channel channel
    && (if is_manual t
        then (same_type e.midi_type midi_note
            && leb_ℤ (pos 0) (e.key +ℤ transpose)
            && leb_ℤ (e.key +ℤ transpose) (pos 127))
          || (same_type e.midi_type midi_ctrl_change && eq_ℤ e.key (pos 123))
        else same_type e.midi_type midi_nrpn && eq_ℤ e.key number)
