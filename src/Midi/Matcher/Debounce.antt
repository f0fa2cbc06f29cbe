-- ===== src/Midi/Matcher/Debounce.antt =====
-- Debouncing: which patterns wait, and how long.
use grandorgue.Prelude.{
  Bool, true, false, not, ◌&&◌, ◌||◌, Option, none, some, ◌≡◌, refl, inl, inr, Bool-cases, arith,
}
use grandorgue.Prelude.Int.{to_u32}
use grandorgue.Midi.Event.{Event}
use grandorgue.Midi.Rodgers.{BitState, bit_clear, bit_set, bit_not_present, get_bit}
use grandorgue.Midi.MessageType.{
  MessageType, MatchType, m_none, m_sysex_ahlborn_galanti_toggle, m_ctrl_bit, m_ctrl_change_fixed,
}
use grandorgue.Midi.MessageType.Limits.{debounce_types}
use grandorgue.Midi.Pattern.{Pattern}
use grandorgue.Midi.Matcher.Answer.{
  Outcome, now, debounced, bit_answer, range_answer, settle, button_answer,
}

abbrev pub is_now : Outcome → Bool
is_now (now m) = true
is_now _ = false

abbrev pub is_debounced : Outcome → Bool
is_debounced (debounced m) = true
is_debounced _ = false

-- The three types that `Match` debounces though `HasDebounce` does not name them.
abbrev pub is_unnamed : MessageType → Bool
is_unnamed m_ctrl_bit = true
is_unnamed m_ctrl_change_fixed = true
is_unnamed m_sysex_ahlborn_galanti_toggle = true
is_unnamed _ = false

abbrev pub waits : MessageType → Bool
waits t = debounce_types t || is_unnamed t

and_false : (b : Bool) → b && false ≡ false
and_false true = refl
and_false false = refl

settle-now : (o : Option MatchType) → is_debounced (settle now o) ≡ false
settle-now none = refl
settle-now (some m) = refl

settle-debounced : (o : Option MatchType) → is_now (settle debounced o) ≡ false
settle-debounced none = refl
settle-debounced (some m) = refl

bit-now : (b : BitState) → is_debounced (bit_answer b) ≡ false
bit-now bit_clear = refl
bit-now bit_set = refl
bit-now bit_not_present = refl

answers_at_once :
    (t : MessageType) (e : Event) (p : Pattern)
    → waits t ≡ false
    → is_debounced (button_answer t e p) ≡ false
unfolding button_answer debounce_types
answers_at_once m_none e p h = refl
answers_at_once _ e p h = ground (
  arith,
  settle-now (range_answer p e.value),
  bit-now (get_bit (to_u32 p.low_value) (to_u32 e.key) e.bytes),
)

pub answers_by_debounce :
    (t : MessageType) (e : Event) (p : Pattern)
    → waits t ≡ true
    → is_now (button_answer t e p) ≡ false
unfolding button_answer debounce_types
answers_by_debounce m_none e p h = refl
answers_by_debounce _ e p h = ground (arith, settle-debounced (range_answer p e.value))

-- For a receiver of buttons: a pattern of a type that `HasDebounce` names, and one of a control change
-- bit, a fixed control change or an Ahlborn Galanti toggle, never answers at once; and a pattern of any
-- other type never answers by way of `debounce`.
pub button_answer-waits :
    (t : MessageType) (e : Event) (p : Pattern)
    → (is_now (button_answer t e p) && waits t ≡ false)
      × (is_debounced (button_answer t e p) && not (waits t) ≡ false)
button_answer-waits t e p = elim (Bool-cases (waits t)) [
  | inl w ↦ rw w (rw (answers_by_debounce t e p w) refl, and_false _)
  | inr w ↦ rw w (and_false _, rw (answers_at_once t e p w) refl)
]
