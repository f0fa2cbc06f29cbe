-- ===== src/Midi/MessageType.antt =====
-- src/grandorgue/midi/events/GOMidiReceiverMessageType.h, GOMidiReceiverType.h and GOMidiMatchType.h,
-- and which fields of a pattern each type has, from src/grandorgue/midi/elements/GOMidiReceiver.cpp.
pub mod Limits
use grandorgue.Prelude.{Bool, true, false, ◌&&◌}

pub data MessageType : Type 0 where
  m_none m_note m_ctrl_change m_pgm_change m_pgm_range m_sysex_johannus_9 : MessageType
  m_sysex_johannus_11 m_sysex_viscount m_sysex_viscount_toggle : MessageType
  m_sysex_rodgers_stop_change m_sysex_ahlborn_galanti : MessageType
  m_sysex_ahlborn_galanti_toggle m_ctrl_bit m_ctrl_change_fixed m_rpn m_nrpn : MessageType
  m_rpn_range m_nrpn_range m_note_on m_note_off m_note_on_off m_note_fixed_on : MessageType
  m_note_fixed_off m_ctrl_change_on m_ctrl_change_off m_ctrl_change_on_off : MessageType
  m_ctrl_change_fixed_on m_ctrl_change_fixed_off m_ctrl_change_fixed_on_off : MessageType
  m_rpn_on m_rpn_off m_rpn_on_off m_nrpn_on m_nrpn_off m_nrpn_on_off : MessageType
  m_note_no_velocity m_note_short_octave m_note_normal : MessageType

pub data ReceiverType : Type 0 where
  recv_drawstop recv_button recv_enclosure recv_manual recv_setter recv_organ : ReceiverType

pub data MatchType : Type 0 where
  match_none match_on match_off match_change match_reset : MatchType

abbrev pub is_manual : ReceiverType → Bool
is_manual recv_manual = true
is_manual _ = false

abbrev pub is_enclosure : ReceiverType → Bool
is_enclosure recv_enclosure = true
is_enclosure _ = false

unfoldable pub has_channel : MessageType → Bool
has_channel m_note = true
has_channel m_ctrl_change = true
has_channel m_pgm_change = true
has_channel m_pgm_range = true
has_channel m_ctrl_bit = true
has_channel m_ctrl_change_fixed = true
has_channel m_rpn = true
has_channel m_nrpn = true
has_channel m_rpn_range = true
has_channel m_nrpn_range = true
has_channel m_note_on = true
has_channel m_note_off = true
has_channel m_note_on_off = true
has_channel m_note_fixed_on = true
has_channel m_note_fixed_off = true
has_channel m_ctrl_change_on = true
has_channel m_ctrl_change_off = true
has_channel m_ctrl_change_on_off = true
has_channel m_ctrl_change_fixed_on = true
has_channel m_ctrl_change_fixed_off = true
has_channel m_ctrl_change_fixed_on_off = true
has_channel m_rpn_on = true
has_channel m_rpn_off = true
has_channel m_rpn_on_off = true
has_channel m_nrpn_on = true
has_channel m_nrpn_off = true
has_channel m_nrpn_on_off = true
has_channel m_note_no_velocity = true
has_channel m_note_short_octave = true
has_channel m_note_normal = true
has_channel _ = false

unfoldable pub has_key : MessageType → Bool
has_key m_note = true
has_key m_ctrl_change = true
has_key m_pgm_change = true
has_key m_sysex_johannus_9 = true
has_key m_sysex_johannus_11 = true
has_key m_sysex_rodgers_stop_change = true
has_key m_ctrl_bit = true
has_key m_ctrl_change_fixed = true
has_key m_rpn = true
has_key m_nrpn = true
has_key m_rpn_range = true
has_key m_nrpn_range = true
has_key m_note_on = true
has_key m_note_off = true
has_key m_note_on_off = true
has_key m_note_fixed_on = true
has_key m_note_fixed_off = true
has_key m_ctrl_change_on = true
has_key m_ctrl_change_off = true
has_key m_ctrl_change_on_off = true
has_key m_ctrl_change_fixed_on = true
has_key m_ctrl_change_fixed_off = true
has_key m_ctrl_change_fixed_on_off = true
has_key m_rpn_on = true
has_key m_rpn_off = true
has_key m_rpn_on_off = true
has_key m_nrpn_on = true
has_key m_nrpn_off = true
has_key m_nrpn_on_off = true
has_key m_note_no_velocity = true
has_key m_note_short_octave = true
has_key m_note_normal = true
has_key _ = false

-- `HasLowKey` and `HasHighKey` name the same types.
unfoldable pub low_key_types : MessageType → Bool
low_key_types m_note = true
low_key_types m_note_no_velocity = true
low_key_types m_note_short_octave = true
low_key_types m_note_normal = true
low_key_types _ = false

unfoldable pub has_low_key : ReceiverType → MessageType → Bool
has_low_key r t = is_manual r && low_key_types t

unfoldable pub has_high_key : ReceiverType → MessageType → Bool
has_high_key r t = is_manual r && low_key_types t

unfoldable pub default_midi_type : ReceiverType → MessageType
default_midi_type recv_manual = m_note
default_midi_type recv_enclosure = m_ctrl_change
default_midi_type _ = m_pgm_change
