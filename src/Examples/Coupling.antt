-- ===== src/Examples/Coupling.antt =====
-- src/grandorgue/model/GOCoupler.cpp with a bass coupler of four keys.
use grandorgue.Prelude.{some, none, ℕ, zero, suc, ◌⊎◌, true, false, List, [], ◌∷◌, ◌≡◌, refl}
use grandorgue.Prelude.Int.{pos}
use grandorgue.Couplers.{
  Coupler, coupler_bass, set_out_at, set_out, first_pressed, drop_keys, next_pressed_key,
  new_last_tone, cancel_tone, choose_tone, send_tone, note_last, change_single, change_key,
  greatest, set_key, refresh_out, on_drawstop_state_changed,
}
use grandorgue.Couplers.Output.{Tells}
use grandorgue.Couplers.Single.{IsSingle, change_single-IsSingle}
use grandorgue.Couplers.Runs.{Event, changes, engages, happen, run, run-Tells}

abbrev four_zeros : List ℕ
four_zeros = 0 ∷ 0 ∷ 0 ∷ 0 ∷ []

abbrev bass : Coupler
bass = record {
  coupler_type = coupler_bass;
  unison_off = false;
  is_new_bas_mel = true;
  is_engaged = true;
  is_intermanual = true;
  keyshift = pos 0;
  destination_keyshift = pos 0;
  first_logical_key = 0;
  number_of_keys = 4;
  key_velocity = four_zeros;
  internal_velocity = four_zeros;
  out_velocity = four_zeros;
  current_tone = none;
  last_tone = none;
}

-- Keys 2 and 1 are pressed, then key 1 is released: the coupler sounds 2, then 1, then nothing.
abbrev played : List Event
played =
    changes 2 ((9, none) ∷ [])
    ∷ changes 1 ((5, none) ∷ [])
    ∷ changes 1 ((0, none) ∷ [])
    ∷ engages false
    ∷ []

calls_test : (run bass played).1 ≡ (2, 8) ∷ (2, 0) ∷ (1, 4) ∷ (1, 0) ∷ []
unfolding run happen set_key greatest change_key change_single next_pressed_key first_pressed
    drop_keys new_last_tone cancel_tone choose_tone send_tone note_last set_out set_out_at
    on_drawstop_state_changed refresh_out
calls_test = refl

run-Tells_example : Tells bass (run bass played)
run-Tells_example = run-Tells played bass refl

-- The bass coupler with key 2 sounding, when key 1 is pressed as well.
abbrev sounding : Coupler
sounding = record bass {
  key_velocity = 0 ∷ 5 ∷ 9 ∷ 0 ∷ [];
  internal_velocity = 0 ∷ 0 ∷ 9 ∷ 0 ∷ [];
  out_velocity = 0 ∷ 0 ∷ 8 ∷ 0 ∷ [];
  current_tone = some 2;
  last_tone = some 2;
}

sounding-IsSingle : IsSingle sounding
sounding-IsSingle zero h = absurd (h refl)
sounding-IsSingle (suc zero) h = absurd (h refl)
sounding-IsSingle (suc (suc zero)) h = (2, refl, refl)
sounding-IsSingle (suc (suc (suc zero))) h = absurd (h refl)
sounding-IsSingle (suc (suc (suc (suc i)))) h = absurd (h refl)

change_single-IsSingle_example :
    IsSingle (change_single 1 5 sounding).0
    × (((change_single 1 5 sounding).0.current_tone ≡ next_pressed_key none sounding)
        ⊎ ((change_single 1 5 sounding).0.current_tone ≡ none))
change_single-IsSingle_example = change_single-IsSingle 1 5 sounding sounding-IsSingle
