-- ===== src/Midi/MessageType/Limits.antt =====
-- The limits and the debounce time of a pattern, from src/grandorgue/midi/elements/GOMidiReceiver.cpp.
use grandorgue.Prelude.{ℕ, ◌*◌, Bool, true, false, not, ◌&&◌}
use grandorgue.Midi.MessageType.{
  MessageType, ReceiverType, is_manual, is_enclosure, m_note, m_ctrl_change, m_pgm_change,
  m_pgm_range, m_sysex_johannus_9, m_sysex_johannus_11, m_sysex_viscount, m_sysex_viscount_toggle,
  m_sysex_rodgers_stop_change, m_sysex_ahlborn_galanti, m_sysex_ahlborn_galanti_toggle, m_ctrl_bit,
  m_ctrl_change_fixed, m_rpn, m_nrpn, m_rpn_range, m_nrpn_range, m_note_on, m_note_off,
  m_note_on_off, m_note_fixed_on, m_note_fixed_off, m_ctrl_change_on, m_ctrl_change_off,
  m_ctrl_change_on_off, m_ctrl_change_fixed_on, m_ctrl_change_fixed_off, m_ctrl_change_fixed_on_off,
  m_rpn_on, m_rpn_off, m_rpn_on_off, m_nrpn_on, m_nrpn_off, m_nrpn_on_off, m_note_no_velocity,
  m_note_short_octave, m_note_normal,
}

unfoldable pub debounce_types : MessageType → Bool
debounce_types m_ctrl_change = true
debounce_types m_pgm_change = true
debounce_types m_sysex_johannus_9 = true
debounce_types m_sysex_johannus_11 = true
debounce_types m_sysex_viscount_toggle = true
debounce_types m_note_on = true
debounce_types m_note_off = true
debounce_types m_note_on_off = true
debounce_types m_note_fixed_on = true
debounce_types m_note_fixed_off = true
debounce_types m_ctrl_change_on = true
debounce_types m_ctrl_change_off = true
debounce_types m_ctrl_change_on_off = true
debounce_types m_ctrl_change_fixed_on = true
debounce_types m_ctrl_change_fixed_off = true
debounce_types m_ctrl_change_fixed_on_off = true
debounce_types m_rpn_on = true
debounce_types m_rpn_off = true
debounce_types m_rpn_on_off = true
debounce_types m_nrpn_on = true
debounce_types m_nrpn_off = true
debounce_types m_nrpn_on_off = true
debounce_types _ = false

unfoldable pub has_debounce : ReceiverType → MessageType → Bool
has_debounce r t = not (is_manual r) && not (is_enclosure r) && debounce_types t

unfoldable pub has_lower_limit : MessageType → Bool
has_lower_limit m_note = true
has_lower_limit m_ctrl_change = true
has_lower_limit m_pgm_range = true
has_lower_limit m_sysex_johannus_11 = true
has_lower_limit m_sysex_viscount = true
has_lower_limit m_sysex_viscount_toggle = true
has_lower_limit m_sysex_rodgers_stop_change = true
has_lower_limit m_sysex_ahlborn_galanti = true
has_lower_limit m_sysex_ahlborn_galanti_toggle = true
has_lower_limit m_ctrl_bit = true
has_lower_limit m_ctrl_change_fixed = true
has_lower_limit m_rpn = true
has_lower_limit m_nrpn = true
has_lower_limit m_rpn_range = true
has_lower_limit m_nrpn_range = true
has_lower_limit m_note_off = true
has_lower_limit m_note_on_off = true
has_lower_limit m_note_fixed_off = true
has_lower_limit m_ctrl_change_off = true
has_lower_limit m_ctrl_change_on_off = true
has_lower_limit m_ctrl_change_fixed_off = true
has_lower_limit m_ctrl_change_fixed_on_off = true
has_lower_limit m_rpn_off = true
has_lower_limit m_rpn_on_off = true
has_lower_limit m_nrpn_off = true
has_lower_limit m_nrpn_on_off = true
has_lower_limit m_note_no_velocity = true
has_lower_limit m_note_short_octave = true
has_lower_limit m_note_normal = true
has_lower_limit _ = false

unfoldable pub has_upper_limit : MessageType → Bool
has_upper_limit m_note = true
has_upper_limit m_ctrl_change = true
has_upper_limit m_pgm_range = true
has_upper_limit m_sysex_johannus_11 = true
has_upper_limit m_sysex_viscount = true
has_upper_limit m_sysex_ahlborn_galanti = true
has_upper_limit m_sysex_ahlborn_galanti_toggle = true
has_upper_limit m_ctrl_change_fixed = true
has_upper_limit m_rpn = true
has_upper_limit m_nrpn = true
has_upper_limit m_rpn_range = true
has_upper_limit m_nrpn_range = true
has_upper_limit m_note_on = true
has_upper_limit m_note_on_off = true
has_upper_limit m_note_fixed_on = true
has_upper_limit m_ctrl_change_on = true
has_upper_limit m_ctrl_change_on_off = true
has_upper_limit m_ctrl_change_fixed_on = true
has_upper_limit m_ctrl_change_fixed_on_off = true
has_upper_limit m_rpn_on = true
has_upper_limit m_rpn_on_off = true
has_upper_limit m_nrpn_on = true
has_upper_limit m_nrpn_on_off = true
has_upper_limit m_note_no_velocity = true
has_upper_limit m_note_short_octave = true
has_upper_limit m_note_normal = true
has_upper_limit _ = false

unfoldable pub key_limit : MessageType → ℕ
key_limit m_pgm_change = 0x200000
key_limit m_rpn_on = 0x3fff
key_limit m_rpn_off = 0x3fff
key_limit m_rpn_on_off = 0x3fff
key_limit m_rpn = 0x3fff
key_limit m_nrpn = 0x3fff
key_limit m_nrpn_on = 0x3fff
key_limit m_nrpn_off = 0x3fff
key_limit m_nrpn_on_off = 0x3fff
key_limit _ = 0x7f

unfoldable pub lower_value_limit : MessageType → ℕ
lower_value_limit m_rpn_range = 0x3fff
lower_value_limit m_nrpn_range = 0x3fff
lower_value_limit m_sysex_ahlborn_galanti = 0x3fff
lower_value_limit m_sysex_ahlborn_galanti_toggle = 0x3fff
lower_value_limit m_sysex_viscount = 0x1fffff
lower_value_limit m_sysex_viscount_toggle = 0x1fffff
lower_value_limit m_pgm_range = 0x200000
lower_value_limit m_ctrl_bit = 7
lower_value_limit m_sysex_rodgers_stop_change = 35 * 7
lower_value_limit _ = 0x7f

unfoldable pub upper_value_limit : MessageType → ℕ
upper_value_limit m_rpn_range = 0x3fff
upper_value_limit m_nrpn_range = 0x3fff
upper_value_limit m_sysex_ahlborn_galanti = 0x3fff
upper_value_limit m_sysex_ahlborn_galanti_toggle = 0x3fff
upper_value_limit m_sysex_viscount = 0x1fffff
upper_value_limit m_pgm_range = 0x200000
upper_value_limit _ = 0x7f
