-- ===== src/Examples/Circling.antt =====
-- Two manuals of one key whose unison couplers lead from each to the other.
use grandorgue.Prelude.{
  ℕ, zero, suc, ◌<◌, true, false, Option, none, some, [], ◌∷◌, ◌≡◌, refl, arith, length, ◌-◌, List,
  sym, ap, ◌∙◌,
}
use grandorgue.Prelude.Int.{pos}
use grandorgue.Manuals.{
  Manual, inputs, set_division_key_state, strongest, sum_up, store_key, announce,
}
use grandorgue.Couplers.{
  velocity_at, Coupler, Flags, coupler_normal, may_follow, greatest, set_out, set_out_at,
}
use grandorgue.Network.{
  Wiring, Network, paired, send, deliver, change_key, coupled_velocity, set_key, propagate_key,
  set_key_state, ◌>>=◌,
}
use grandorgue.Network.Rows.{entry}
use grandorgue.Network.Calm.{IsWired}
use grandorgue.Network.Delivery.{Returns}
use grandorgue.Network.Settled.{IsSettled, Keys, held_after, play, play_settles}

abbrev one_key : Manual
one_key = record {
  key_velocity = 0 ∷ [];
  remote_velocity = 0 ∷ [];
  velocity = 0 ∷ [];
  division_velocities = 0 ∷ [];
  velocities_by_coupler = (0 ∷ 0 ∷ []) ∷ [];
  first_logical_key = 1;
  logical_keys = 1;
  first_midi_note = 36;
  accessible_keys = 1;
  input_couplers = 2;
  unison_off = 0;
}

abbrev unison : Coupler
unison = record {
  coupler_type = coupler_normal;
  unison_off = false;
  is_new_bas_mel = false;
  is_engaged = true;
  is_intermanual = true;
  keyshift = pos 0;
  destination_keyshift = pos 0;
  first_logical_key = 0;
  number_of_keys = 1;
  key_velocity = 0 ∷ [];
  internal_velocity = 0 ∷ [];
  out_velocity = 0 ∷ [];
  current_tone = none;
  last_tone = none;
}

abbrev goes_on : Flags
goes_on = record {
  unison_intermanual = true;
  upward_intermanual = true;
  downward_intermanual = true;
  upward_intramanual = true;
  downward_intramanual = true;
}

-- Coupler 0 leads from manual 0 to manual 1, and coupler 1 back.
abbrev circle : Wiring
circle = record {
  coupler_count = 2;
  source = λ i. i;
  destination = λ i. 1 - i;
  index_in_dest = λ i. 1;
  input_couplers = λ m. none ∷ some goes_on ∷ [];
}

abbrev silent : Network
silent = record { manuals = λ m. one_key; couplers = λ i. unison }

abbrev heard : Option Network → List ℕ
heard none = []
heard (some net) =
    entry (net.manuals 0) 0 0 ∷ entry (net.manuals 0) 0 1 ∷ entry (net.manuals 1) 0 1 ∷ []

circle_test : heard (set_key_state circle 15 0 0 7 0 silent) ≡ 7 ∷ 5 ∷ 6 ∷ []
unfolding set_key_state propagate_key set_key change_key deliver send coupled_velocity paired
    greatest may_follow set_out set_out_at store_key sum_up strongest announce
    set_division_key_state
circle_test = refl

release_test :
    heard (set_key_state circle 15 0 0 7 0 silent >>= set_key_state circle 15 0 0 0 0)
    ≡ 0 ∷ 0 ∷ 0 ∷ []
unfolding set_key_state propagate_key set_key change_key deliver send coupled_velocity paired
    greatest may_follow set_out set_out_at store_key sum_up strongest announce
    set_division_key_state
release_test = refl

circle-IsWired : IsWired circle
circle-IsWired = record {
  apart = λ i j lt lt' e n. omega (arith, lt, lt', e);
  not_player = λ i lt. omega arith;
}

zero_at : (k : ℕ) → velocity_at (0 ∷ []) k ≡ 0
zero_at zero = refl
zero_at (suc k) = refl

quiet : (k n : ℕ) → entry one_key k n ≡ 0
quiet zero zero = refl
quiet zero (suc zero) = refl
quiet zero (suc (suc n)) = refl
quiet (suc k) n = refl

taken_at : (i k : ℕ) → coupled_velocity circle i k silent ≡ 0
unfolding coupled_velocity paired greatest may_follow
taken_at i zero = refl
taken_at i (suc k) = refl

deep_at : (k n : ℕ) → k < 1 → n < 2 → n < length (inputs one_key k)
deep_at zero n h h' = omega (arith, h')
deep_at (suc k) n h h' = absurd (omega (arith, h))

silent-IsSettled : IsSettled circle 7 1 (λ m k. 0) silent
silent-IsSettled = record {
  normal = λ i lt. refl;
  told = λ i k lt r. zero_at k ∙ sym (taken_at i k);
  kept = λ i k j lt u r hit inside. zero_at j ∙ sym (zero_at k);
  sent = λ i j lt u e inside. quiet j 1 ∙ sym (ap (λ v. v - 1) (zero_at j));
  low = λ i k. rw (zero_at k) (omega arith);
  wide = λ i. omega arith;
  own = λ m k inside. quiet k 0;
  small = λ m k coupler. rw (quiet k coupler) (omega arith);
  rows = λ m. refl;
  head = λ m k inside. deep_at k 0 inside (omega arith);
  deep = λ i k lt inside. deep_at k 1 inside (omega arith);
}

-- Both keys are pressed, then the first is released.
abbrev played : Keys
played = (0, 0, 7) ∷ (1, 0, 4) ∷ (0, 0, 0) ∷ []

play_settles_example :
    Returns (IsSettled circle 7 1 (held_after (λ m k. 0) played)) (play circle 15 played silent)
play_settles_example =
    play_settles circle 7 1 15 played (λ m k. 0) silent circle-IsWired (omega arith)
      (omega arith, (omega arith, (omega arith, tt))) silent-IsSettled

play_test : heard (play circle 15 played silent) ≡ 0 ∷ 3 ∷ 2 ∷ []
unfolding play set_key_state propagate_key set_key change_key deliver send coupled_velocity paired
    greatest may_follow set_out set_out_at store_key sum_up strongest announce
    set_division_key_state
play_test = refl
