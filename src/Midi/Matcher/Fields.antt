-- ===== src/Midi/Matcher/Fields.antt =====
-- Which fields of a pattern `Match` reads, against what the `has...` functions say of its type.
use grandorgue.Prelude.{
  sym, ◌∙◌, inl, inr, ◌==◌, ℕ, Bool, true, false, not, ◌&&◌, Option, List, if◌then◌else◌, ◌≡◌, refl,
  ap, Bool-cases,
}
use grandorgue.Prelude.Int.{ℤ, eq_ℤ}
use grandorgue.Midi.Event.{Event, minus_one}
use grandorgue.Midi.MessageType.{
  MessageType, ReceiverType, recv_enclosure, recv_manual, has_channel, has_key, low_key_types,
  has_low_key, has_high_key, m_none,
}
use grandorgue.Midi.MessageType.Limits.{has_lower_limit, has_upper_limit}
use grandorgue.Midi.Pattern.{Pattern, convert_src_value_to_int}
use grandorgue.Midi.Matcher.{
  enclosure_step, button_step, go_on, listens, pattern_step, manual_step, key_step, velocity_step,
  short_key,
}
use grandorgue.Midi.Matcher.Answer.{range_answer, button_answer, enclosure_answer}

-- The pattern p with the fields that its type lacks taken from q.
abbrev pub filled : ReceiverType → Pattern → Pattern → Pattern
filled r p q = record p {
  channel = if has_channel p.message_type then p.channel else q.channel;
  key = if has_key p.message_type then p.key else q.key;
  low_key = if has_low_key r p.message_type then p.low_key else q.low_key;
  high_key = if has_high_key r p.message_type then p.high_key else q.high_key;
  low_value = if has_lower_limit p.message_type then p.low_value else q.low_value;
  high_value = if has_upper_limit p.message_type then p.high_value else q.high_value;
}

abbrev typed : MessageType → Pattern → Pattern
typed t p = record p { message_type = t }

skip : (a b : Bool) → not (a && b && false) ≡ true
skip false b = refl
skip true false = refl
skip true true = refl

listens-filled :
    (r : ReceiverType) (p q : Pattern) (e : Event) → listens e (filled r p q) ≡ listens e p
listens-filled r p q e = elim (Bool-cases (has_channel p.message_type)) [
  | inl c ↦ rw c
  | inr c ↦ rw c (
      ap (λ b. b && not (not (p.device_id == 0) && not (p.device_id == e.device)))
        (skip (not (eq_ℤ q.channel minus_one)) (not (eq_ℤ q.channel e.channel))
          ∙ sym (skip (not (eq_ℤ p.channel minus_one)) (not (eq_ℤ p.channel e.channel)))))
]

button_answer-typed :
    (r : ReceiverType) (t : MessageType) (p q : Pattern) (e : Event)
    → button_answer t e (filled r (typed t p) q) ≡ button_answer t e (typed t p)
unfolding button_answer range_answer has_key has_lower_limit has_upper_limit
button_answer-typed r m_none p q e = refl
button_answer-typed r _ p q e = refl

enclosure_answer-typed :
    (r : ReceiverType) (t : MessageType) (p q : Pattern) (e : Event)
    → enclosure_answer t e (filled r (typed t p) q) ≡ enclosure_answer t e (typed t p)
unfolding enclosure_answer convert_src_value_to_int has_key has_lower_limit has_upper_limit
enclosure_answer-typed r m_none p q e = refl
enclosure_answer-typed r _ p q e = refl

manual_step-typed :
    (t : MessageType) (p q : Pattern) (e : Event) (map : Option (List ℕ)) (transpose key value : ℤ)
    → manual_step e map transpose (filled recv_manual (typed t p) q) key value
      ≡ manual_step e map transpose (typed t p) key value
unfolding manual_step key_step velocity_step short_key convert_src_value_to_int has_key has_low_key
    has_high_key low_key_types has_lower_limit has_upper_limit
manual_step-typed m_none p q e map transpose key value = refl
manual_step-typed _ p q e map transpose key value = refl

-- For a receiver of any type: a field of a pattern that its type does not have, by `hasChannel`,
-- `hasKey`, `HasLowKey`, `HasHighKey`, `hasLowerLimit` and `hasUpperLimit`, does not count. With any
-- other values in these fields, the pattern does the same to every event.
pub pattern_step-filled :
    (r : ReceiverType) (p q : Pattern) (e : Event) (map : Option (List ℕ)) (transpose key value : ℤ)
    → pattern_step r e map transpose (filled r p q) key value
      ≡ pattern_step r e map transpose p key value
unfolding pattern_step
pattern_step-filled recv_manual p q e map transpose key value =
    rw (listens-filled recv_manual p q e) (
      ap (λ s. if not (listens e p) then go_on key value else s)
        (manual_step-typed p.message_type p q e map transpose key value))
pattern_step-filled recv_enclosure p q e map transpose key value =
    rw (listens-filled recv_enclosure p q e) (
      ap (λ a. if not (listens e p) then go_on key value else enclosure_step a key value)
        (enclosure_answer-typed recv_enclosure p.message_type p q e))
pattern_step-filled r p q e map transpose key value = rw (listens-filled r p q e) (
    ap (λ a. if not (listens e p) then go_on key value else button_step a key value)
      (button_answer-typed r p.message_type p q e))
