-- ===== src/Midi/Matcher.antt =====
-- src/grandorgue/midi/elements/GOMidiReceiver.h and GOMidiReceiver.cpp: `Match` and its state. Loading
-- and saving of the patterns are not modelled.
pub mod Answer
pub mod Fields
pub mod Debounce
pub mod Spacing
pub mod Internals
pub mod Removal
pub mod Hearing
pub mod Apart
pub mod SetUp
pub mod Enclosure
use grandorgue.Prelude.{
  ℕ, zero, suc, ◌+◌, ◌-◌, Bool, true, false, not, ◌&&◌, ◌||◌, Option, none, some, List, [], ◌∷◌,
  ◌++◌, length, get_or, set, take, resize, ltb, ◌==◌, if◌then◌else◌,
}
use grandorgue.Prelude.Int.{ℤ, pos, negsuc, pos_part, ◌+ℤ◌, ◌-ℤ◌, leb_ℤ, ltb_ℤ, eq_ℤ}
use grandorgue.Midi.Event.{
  Event, same_type, minus_one, midi_note, midi_aftertouch, midi_ctrl_change, midi_nrpn,
  midi_sysex_go_clear, midi_sysex_go_sampleset, midi_sysex_go_setup,
}
use grandorgue.Midi.MessageType.{
  MessageType, ReceiverType, is_manual, is_enclosure, MatchType, match_none, match_on, match_off,
  match_change, match_reset, has_channel, m_note, m_note_no_velocity, m_note_short_octave,
  m_note_normal,
}
use grandorgue.Midi.Pattern.{Pattern, convert_src_value_to_int}
use grandorgue.Midi.Matcher.Answer.{Outcome, next, now, debounced, button_answer, enclosure_answer}

pub record Internal : Type 0 where
  pub device : ℕ
  pub channel : ℤ
  pub key : ℤ

pub record Receiver : Type 0 where
  pub receiver_type : ReceiverType
  pub element_id : ℤ
  pub last : List ℕ
  pub internal : List Internal
  pub patterns : List Pattern

-- What `Match` returns, with the key and the value that it writes.
pub record Found : Type 0 where
  pub kind : MatchType
  pub key : ℤ
  pub value : ℤ

abbrev pub found : MatchType → ℤ → ℤ → Found
found m k v = record { kind = m; key = k; value = v }

unfoldable pub debounce : Event → MatchType → ℕ → Pattern → Receiver → Receiver × MatchType
debounce e m i p r =
    let last = resize (length r.patterns) 0 r.last in
    if ltb e.time (get_or last i 0 + p.debounce_time)
    then (record r { last = last }, match_none)
    else (record r { last = set last i e.time }, m)

-- The position of a device in `m_Internal`, or the length.
unfoldable pub position_of : ℕ → List Internal → ℕ
position_of device [] = 0
position_of device (x ∷ l) =
    let rest = position_of device l in if x.device == device then 0 else suc rest

abbrev pub blank : ℕ → Internal
blank device = record { device = device; channel = pos 0; key = pos 0 }

-- `createInternal`, and the entry at the position that it returns.
unfoldable pub create_internal : ℕ → List Internal → List Internal × ℕ
create_internal device l =
    let at = position_of device l in
    if ltb at (length l) then (l, at) else (l ++ blank device ∷ [], at)

-- `deleteInternal` moves the last entry into the gap.
unfoldable pub delete_internal : ℕ → List Internal → List Internal
delete_internal device l =
    let at = position_of device l in
    if ltb at (length l)
    then take (length l - 1) (set l at (get_or l (length l - 1) (blank device)))
    else l

unfoldable pub find_internal : ℕ → List Internal → Option Internal
find_internal device [] = none
find_internal device (x ∷ l) =
    let rest = find_internal device l in if x.device == device then some x else rest

-- A device that another program has set up to play this element.
unfoldable pub internal_match : ReceiverType → Internal → Event → ℤ → ℤ → Found
internal_match t x e transpose key =
    if is_manual t
    then (if same_type e.midi_type midi_note && eq_ℤ e.channel x.channel
        then (let k = e.key +ℤ transpose in
            if ltb_ℤ k (pos 0) || ltb_ℤ (pos 127) k
            then found match_none k e.value
            else if eq_ℤ e.value (pos 0)
            then found match_off k e.value
            else found match_on k e.value)
        else if same_type e.midi_type midi_ctrl_change
            && eq_ℤ e.key (pos 123)
            && eq_ℤ e.channel x.channel
        then found match_reset key (pos 0)
        else found match_none key (pos 0))
    else if same_type e.midi_type midi_nrpn && eq_ℤ e.channel x.channel && eq_ℤ e.key x.key
    then (if is_enclosure t
        then found match_change key e.value
        else if eq_ℤ e.value (pos 0)
        then found match_off key e.value
        else found match_on key e.value)
    else found match_none key (pos 0)

-- One pattern: go on with the key and the value written so far, stop, or stop by way of `debounce`.
pub data Step : Type 0 where
  go_on : ℤ → ℤ → Step
  stop wait : MatchType → ℤ → ℤ → Step

abbrev pub is_keyboard : MessageType → Bool
is_keyboard m_note = true
is_keyboard m_note_no_velocity = true
is_keyboard m_note_short_octave = true
is_keyboard m_note_normal = true
is_keyboard _ = false

abbrev pub is_short_octave : MessageType → Bool
is_short_octave m_note_short_octave = true
is_short_octave _ = false

abbrev pub is_mapped : MessageType → Bool
is_mapped m_note_short_octave = false
is_mapped m_note_normal = false
is_mapped _ = true

abbrev pub ignores_velocity : MessageType → Bool
ignores_velocity m_note_no_velocity = true
ignores_velocity _ = false

-- The lowest octave of a short keyboard has keys for some of the notes below it.
unfoldable pub short_key : Pattern → ℤ → ℤ
short_key p key =
    let no = key -ℤ p.low_key in
    if is_short_octave p.message_type && (eq_ℤ no (pos 4) || eq_ℤ no (pos 6) || eq_ℤ no (pos 8))
    then key -ℤ pos 4
    else key

abbrev pub mapped_key : Option (List ℕ) → MessageType → ℤ → ℤ
mapped_key none t key = key
mapped_key (some map) t key = if is_mapped t then pos (get_or map (pos_part key) 0) else key

unfoldable pub velocity_step : Event → Pattern → ℤ → ℤ → Step
velocity_step e p key value =
    if leb_ℤ p.low_value p.high_value
    then (if ltb_ℤ e.value p.low_value
        then stop match_off key value
        else if leb_ℤ e.value p.high_value
        then stop match_on key value
        else go_on key value)
    else if leb_ℤ p.low_value e.value
    then stop match_off key value
    else if leb_ℤ p.high_value e.value
    then stop match_on key value
    else go_on key value

unfoldable pub key_step : Event → Option (List ℕ) → ℤ → Pattern → ℤ → Step
key_step e map transpose p value =
    let shifted = short_key p e.key +ℤ transpose +ℤ p.key in
    let key = mapped_key map p.message_type shifted in
    if is_short_octave p.message_type && leb_ℤ (e.key -ℤ p.low_key) (pos 3)
    then go_on e.key value
    else if ltb_ℤ shifted (pos 0) || ltb_ℤ (pos 127) shifted
    then go_on shifted value
    else if not (ignores_velocity p.message_type)
    then velocity_step e p key (convert_src_value_to_int p e.value)
    else let flat = if eq_ℤ e.value (pos 0) then pos 0 else pos 127 in
      if same_type e.midi_type midi_aftertouch then go_on key flat else velocity_step e p key flat

unfoldable pub manual_step : Event → Option (List ℕ) → ℤ → Pattern → ℤ → ℤ → Step
manual_step e map transpose p key value =
    if not (is_keyboard p.message_type)
    then go_on key value
    else if same_type e.midi_type midi_note || same_type e.midi_type midi_aftertouch
    then (if ltb_ℤ e.key p.low_key || ltb_ℤ p.high_key e.key
        then go_on key value
        else key_step e map transpose p value)
    else if same_type e.midi_type midi_ctrl_change && (eq_ℤ e.key (pos 123) || eq_ℤ e.key (pos 120))
    then stop match_reset key value
    else go_on key value

-- Does the event come on the pattern's channel, if the type has one, and from its device?
abbrev pub listens : Event → Pattern → Bool
listens e p =
    not (
      not (eq_ℤ p.channel minus_one)
      && not (eq_ℤ p.channel e.channel)
      && has_channel p.message_type)
    && not (not (p.device_id == 0) && not (p.device_id == e.device))

abbrev pub enclosure_step : Option ℤ → ℤ → ℤ → Step
enclosure_step none key value = go_on key value
enclosure_step (some v) key value = stop match_change key v

abbrev pub button_step : Outcome → ℤ → ℤ → Step
button_step next key value = go_on key value
button_step (now m) key value = stop m key value
button_step (debounced m) key value = wait m key value

unfoldable pub pattern_step : ReceiverType → Event → Option (List ℕ) → ℤ → Pattern → ℤ → ℤ → Step
pattern_step t e map transpose p key value =
    if not (listens e p)
    then go_on key value
    else if is_manual t
    then manual_step e map transpose p key value
    else if is_enclosure t
    then enclosure_step (enclosure_answer p.message_type e p) key value
    else button_step (button_answer p.message_type e p) key value

-- The loop over the patterns, from the i-th on.
unfoldable pub match_patterns :
    Event → Option (List ℕ) → ℤ → ℕ → List Pattern → ℤ → ℤ → Receiver → Receiver × Found
match_patterns e map transpose i [] key value r = (r, found match_none key value)
match_patterns e map transpose i (p ∷ l) key value r =
    elim (pattern_step r.receiver_type e map transpose p key value) [
      | go_on k v ↦ match_patterns e map transpose (suc i) l k v r
      | stop m k v ↦ (r, found m k v)
      | wait m k v ↦ (let (r', m') = debounce e m i p r in (r', found m' k v))
    ]

-- `createInternal` and a write of the entry.
unfoldable pub set_internal : Internal → List Internal → List Internal
set_internal x l = let (l', at) = create_internal x.device l in set l' at x

-- An entry whose channel alone is written keeps its key, which is 0 in a new one.
abbrev pub key_or_zero : Option Internal → ℤ
key_or_zero none = pos 0
key_or_zero (some x) = x.key

unfoldable pub mute_internal : ℕ → List Internal → List Internal
mute_internal d l =
    set_internal (record { device = d; channel = minus_one; key = key_or_zero (find_internal d l) })
      l

-- Any event but one that sets the element up: from a device that has set it up, or by the patterns.
abbrev pub play_from :
    Option Internal → Event → Option (List ℕ) → ℤ → ℤ → Receiver → Receiver × Found
play_from (some x) e map transpose key r = (r, internal_match r.receiver_type x e transpose key)
play_from none e map transpose key r = match_patterns e map transpose 0 r.patterns key (pos 0) r

unfoldable pub play_event : Event → Option (List ℕ) → ℤ → ℤ → Receiver → Receiver × Found
play_event e map transpose key r =
    play_from (find_internal e.device r.internal) e map transpose key r

-- A message by which another program sets the element up.
abbrev pub is_setup : Event → Bool
is_setup e =
    same_type e.midi_type midi_sysex_go_clear
    || same_type e.midi_type midi_sysex_go_sampleset
    || same_type e.midi_type midi_sysex_go_setup

-- GO_SETUP, which names an element.
unfoldable pub set_up : Event → Receiver → Receiver
set_up e r = if eq_ℤ r.element_id minus_one || not (eq_ℤ r.element_id e.key) then r else record r {
  internal =
      set_internal (record { device = e.device; channel = e.channel; key = e.value }) r.internal;
}

-- `key` is what the caller's variable holds.
unfoldable pub match_event : Event → Option (List ℕ) → ℤ → ℤ → Receiver → Receiver × Found
match_event e map transpose key r =
    let nothing = found match_none key (pos 0) in
    if same_type e.midi_type midi_sysex_go_clear && eq_ℤ e.channel (pos 0)
    then (record r { internal = delete_internal e.device r.internal }, nothing)
    else if same_type e.midi_type midi_sysex_go_clear
        || same_type e.midi_type midi_sysex_go_sampleset
    then (record r { internal = mute_internal e.device r.internal }, nothing)
    else if same_type e.midi_type midi_sysex_go_setup
    then (set_up e r, nothing)
    else play_event e map transpose key r

unfoldable pub prepare_playback : Receiver → Receiver
prepare_playback r = record r { internal = [] }
