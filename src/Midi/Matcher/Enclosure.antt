-- ===== src/Midi/Matcher/Enclosure.antt =====
-- An enclosure that listens to a range of program changes.
use grandorgue.Prelude.{
  ℕ, ◌+◌, ◌≤◌, ◌<◌, true, false, Option, some, List, [], ◌∷◌, ◌&&◌, ◌≡◌, refl, ap, ◌∙◌, arith,
}
use grandorgue.Prelude.Int.{ℤ, pos, leb_ℤ}
use grandorgue.Midi.NameMap.{MidiMap}
use grandorgue.Midi.Event.{Event, minus_one}
use grandorgue.Midi.Receive.{Ascii, cleared, from_midi}
use grandorgue.Midi.MessageType.{recv_enclosure, MatchType, match_change, m_pgm_range}
use grandorgue.Midi.Pattern.{Pattern, to_i8, convert_src_value_to_int}
use grandorgue.Midi.Pattern.Convert.{convert-below}
use grandorgue.Midi.Matcher.{
  Receiver, found, stop, listens, is_setup, pattern_step, match_patterns, play_from, find_internal,
  play_event, match_event,
}
use grandorgue.Midi.Matcher.Internals.{match_event-plain}
use grandorgue.Midi.Matcher.Answer.{enclosure_answer}
use grandorgue.Midi.RoundTrip.Program.{program, program_message, hears_program}

-- An enclosure that no device has set up, with a pattern in front that is a range of programs and
-- listens to the event.
pub record HasRange (p : Pattern) (rest : List Pattern) (e : Event) (r : Receiver) : Type 0 where
  pub enclosure : r.receiver_type ≡ recv_enclosure
  pub not_set_up : r.internal ≡ []
  pub in_front : r.patterns ≡ p ∷ rest
  pub range : p.message_type ≡ m_pgm_range
  pub listening : listens e p ≡ true

module _ (e : Event) (map : Option (List ℕ)) (transpose key : ℤ) (p : Pattern) (rest : List Pattern)
    (r : Receiver) (h : HasRange p rest e r) where
  pattern_step-range :
      (v : ℤ)
      → enclosure_answer p.message_type e p ≡ some v
      → pattern_step r.receiver_type e map transpose p key (pos 0) ≡ stop match_change key v
  unfolding pattern_step
  pattern_step-range v a = rw (h.enclosure, h.listening, a) refl

  match_patterns-stop :
      (m : MatchType) (k v : ℤ)
      → pattern_step r.receiver_type e map transpose p key (pos 0) ≡ stop m k v
      → match_patterns e map transpose 0 (p ∷ rest) key (pos 0) r ≡ (r, found m k v)
  unfolding match_patterns
  match_patterns-stop m k v q = rw (q, match_patterns) refl

  match_event-range :
      (v : ℤ)
      → is_setup e ≡ false
      → enclosure_answer p.message_type e p ≡ some v
      → match_event e map transpose key r ≡ (r, found match_change key v)
  unfolding play_event find_internal
  match_event-range v plain a =
      match_event-plain e map transpose key r plain
      ∙ ap (λ l. play_from (find_internal e.device l) e map transpose key r) h.not_set_up
      ∙ ap (λ l. match_patterns e map transpose 0 l key (pos 0) r) h.in_front
      ∙ match_patterns-stop match_change key v (pattern_step-range v a)

-- A program change that the code reads from a message has its number in the key and -1 as the value, and
-- `Match` converts the value. So an enclosure that no device has set up, and whose first pattern listens
-- to the event and is a range of programs with a lower one below the upper one and both at most 127, is
-- told by `Match` to go to 0 for every program in the range, whatever key map and transposition there
-- are.
pub program_range_is_stuck :
    (wx : Ascii) (names : MidiMap) (e : Event) (p : Pattern) (rest : List Pattern) (r : Receiver)
    (map : Option (List ℕ)) (transpose key : ℤ) (channel a low high : ℕ)
    → HasRange p rest (program (cleared wx e) channel (a + 1)) r
    → 0 < channel
    → channel ≤ 16
    → p.low_value ≡ pos low
    → p.high_value ≡ pos high
    → low < high
    → high < 128
    → low ≤ a + 1
    → a + 1 ≤ high
    → (from_midi wx (program_message channel a) names e
        ≡ some (program (cleared wx e) channel (a + 1), names))
      × (match_event (program (cleared wx e) channel (a + 1)) map transpose key r
          ≡ (r, found match_change key (pos 0)))
unfolding enclosure_answer
program_range_is_stuck wx names e p rest r map transpose key channel a low high has h k l g lt small
      from to =
    let zero_position : convert_src_value_to_int p minus_one ≡ pos 0 =
      convert-below p low high l g lt small minus_one low (unfold to_i8 in ground arith) in
    let inside : (leb_ℤ p.low_value (pos (a + 1)) && leb_ℤ (pos (a + 1)) p.high_value) ≡ true =
      rw (l, g) (ground arith) in
    let heard = program (cleared wx e) channel (a + 1) in
    let answer : enclosure_answer m_pgm_range heard p ≡ some (pos 0) = rw (inside, zero_position) in
    (
      hears_program e channel h k wx names a (omega arith),
      match_event-range heard map transpose key p rest r has (pos 0) refl
          (ap (λ t. enclosure_answer t heard p) has.range ∙ answer),
    )
