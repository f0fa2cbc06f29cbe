-- ===== src/Manuals/Division.antt =====
-- The division of a manual from `PreparePlayback` on: what its keys are set to.
use grandorgue.Prelude.{
  ℕ, zero, suc, ◌/◌, List, [], ◌∷◌, length, get_or, drop, ltb, if◌then◌else◌, ◌≡◌, refl, ap, sym,
  ◌∙◌, arith, inl, inr, Bool-cases,
}
use grandorgue.Manuals.{
  Manual, velocity_of, inputs, audible, prepare_playback, silence, silence_all,
}
use grandorgue.Manuals.Sources.{greatest, IsSummed}
use grandorgue.Manuals.Runs.{IsFollowing, Event, run, unison_after, IsBalanced, run-IsFollowing}

pub length-silence : (l : List ℕ) → length (silence l) ≡ length l
unfolding silence
length-silence [] = refl
length-silence (v ∷ l) = ap suc (length-silence l)

pub length-silence_all : (l : List (List ℕ)) → length (silence_all l) ≡ length l
unfolding silence_all
length-silence_all [] = refl
length-silence_all (row ∷ l) = ap suc (length-silence_all l)

pub velocity_of-silence : (l : List ℕ) (key : ℕ) → velocity_of (silence l) key ≡ 0
unfolding silence
velocity_of-silence [] key = refl
velocity_of-silence (v ∷ l) zero = refl
velocity_of-silence (v ∷ l) (suc key) = velocity_of-silence l key

pub get_or-silence_all :
    (l : List (List ℕ)) (key : ℕ) → get_or (silence_all l) key [] ≡ silence (get_or l key [])
unfolding silence silence_all
get_or-silence_all [] key = refl
get_or-silence_all (row ∷ l) zero = refl
get_or-silence_all (row ∷ l) (suc key) = get_or-silence_all l key

greatest-silence : (l : List ℕ) → greatest (silence l) ≡ 0
unfolding greatest silence
greatest-silence [] = refl
greatest-silence (v ∷ l) = ground (arith, greatest-silence l)

greatest-drop-silence : (l : List ℕ) → greatest (drop 1 (silence l)) ≡ 0
unfolding greatest silence
greatest-drop-silence [] = refl
greatest-drop-silence (v ∷ l) = greatest-silence l

-- As `Resize` leaves the vectors: they have one size.
pub record IsLaidOut (m : Manual) : Type 0 where
  pub rows : length m.velocities_by_coupler ≡ length m.velocity
  pub remotes : length m.remote_velocity ≡ length m.velocity
  pub divisions : length m.division_velocities ≡ length m.velocity

prepare_playback-IsSummed : (m : Manual) → IsLaidOut m → IsSummed (prepare_playback m).0
unfolding prepare_playback
prepare_playback-IsSummed m h = record {
  rows = length-silence_all m.velocities_by_coupler ∙ h.rows ∙ sym (length-silence m.velocity);
  remotes = length-silence m.remote_velocity ∙ h.remotes ∙ sym (length-silence m.velocity);
  divisions = length-silence m.division_velocities ∙ h.divisions ∙ sym (length-silence m.velocity);
  sums = λ key.
      velocity_of-silence m.velocity key
      ∙ sym (
          ap greatest (get_or-silence_all m.velocities_by_coupler key)
          ∙ greatest-silence (inputs m key));
  remote_sums = λ key.
      velocity_of-silence m.remote_velocity key
      ∙ sym (
          ap (λ l. greatest (drop 1 l)) (get_or-silence_all m.velocities_by_coupler key)
          ∙ greatest-drop-silence (inputs m key));
}

pub prepare_playback-IsFollowing : (m : Manual) → IsLaidOut m → IsFollowing 0 (prepare_playback m).0
unfolding prepare_playback
prepare_playback-IsFollowing m h = record {
  counted = refl;
  summed = prepare_playback-IsSummed m h;
  keys = λ key.
      velocity_of-silence m.division_velocities key
      ∙ sym (ap (λ (v : ℕ). v / 4) (velocity_of-silence m.velocity key));
}

-- The velocities that a key of the division is to follow: with the unison off, those of the couplers.
abbrev pub heard : ℕ → List ℕ → List ℕ
heard off row = if ltb 0 off then drop 1 row else row

audible-heard :
    (off : ℕ) (m : Manual) (key : ℕ)
    → IsFollowing off m
    → audible key m ≡ greatest (heard off (inputs m key))
audible-heard off m key f =
    ap (λ n. if ltb 0 n then velocity_of m.remote_velocity key else velocity_of m.velocity key)
      f.counted
    ∙ elim (Bool-cases (ltb 0 off)) [
      | inl e ↦ rw e (f.summed.remote_sums key)
      | inr e ↦ rw e (f.summed.sums key)
    ]

-- From `PreparePlayback` on, whatever the player, the couplers (with all calls that come back while a
-- key is passed on) and the unison offs do: each key of the division has a fourth of the greatest
-- velocity that the manual holds for it, of the player or of any coupler; while a coupler has switched
-- the unison off, of the couplers alone. This supposes that the vectors have one size, that nothing
-- switches the unison on again that has not switched it off, and fewer than 2^32 unison offs.
pub run-division :
    (m : Manual) (es : List Event) (key : ℕ)
    → IsLaidOut m
    → IsBalanced 0 es
    → velocity_of (run es (prepare_playback m).0).0.division_velocities key
      ≡ greatest (heard (unison_after 0 es) (inputs (run es (prepare_playback m).0).0 key)) / 4
run-division m es key h b =
    let f = run-IsFollowing es 0 (prepare_playback m).0 b (prepare_playback-IsFollowing m h) in
    f.keys key ∙ ap (λ (v : ℕ). v / 4) (audible-heard (unison_after 0 es) _ key f)
