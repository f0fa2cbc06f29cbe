-- ===== src/Manuals/Runs.antt =====
-- All that happens to a manual from `PreparePlayback` on.
use grandorgue.Prelude.{
  ℕ, zero, suc, ◌+◌, ◌-◌, ◌/◌, ◌^◌, ◌<◌, ◌||◌, Bool, true, false, List, [], ◌∷◌, ◌++◌, length, set,
  leb, ltb, ltb→lt, ◌==◌, if◌then◌else◌, ◌≡◌, ◌≢◌, refl, ap, sym, ◌∙◌, inl, inr, arith, Bool-cases,
}
use grandorgue.Manuals.{
  Manual, Call, KeyCalls, velocity_of, u32, set_division_key_state, audible, set_key_states,
  set_key_state, set_note_at, set_midi_note_state, refresh_division, set_unison_off, notes_off_from,
  all_notes_off, on_midi_received,
}
use grandorgue.Midi.MessageType.{
  MatchType, match_none, match_on, match_off, match_change, match_reset,
}
use grandorgue.Manuals.Sources.{
  IsSummed, IsSetAt, Keeps, set_division_key_state_lem, written-IsSummed, beyond-IsSetAt,
}
use grandorgue.Manuals.Keys.{set_key_states-Keeps, announced, announced-IsSetAt}

-- Every key of the division is set as the inputs of the manual say, and `off` couplers have switched
-- the unison off.
pub record IsFollowing (off : ℕ) (m : Manual) : Type 0 where
  pub counted : m.unison_off ≡ off
  pub summed : IsSummed m
  pub keys : (key : ℕ) → IsSetAt m key

Keeps-IsFollowing : {off : ℕ} {m m' : Manual} → Keeps m m' → IsFollowing off m → IsFollowing off m'
Keeps-IsFollowing k f = record {
  counted = k.frame.same_unison_off ∙ f.counted;
  summed = k.summed f.summed;
  keys = λ key. k.keys key f.summed (f.keys key);
}

-- A key of the player: only what he holds changes besides.
held-Keeps :
    (off : ℕ) (m : Manual) (l : List ℕ)
    → IsFollowing off m
    → IsFollowing off (record m { key_velocity = l })
held-Keeps off m l f = record {
  counted = f.counted;
  summed = record {
    rows = f.summed.rows;
    remotes = f.summed.remotes;
    divisions = f.summed.divisions;
    sums = f.summed.sums;
    remote_sums = f.summed.remote_sums;
  };
  keys = f.keys;
}

set_midi_note_state-IsFollowing :
    (off note velocity : ℕ) (nested : KeyCalls) (m : Manual)
    → IsFollowing off m
    → IsFollowing off (set_midi_note_state note velocity nested m).0
unfolding set_midi_note_state set_note_at set_key_state
set_midi_note_state-IsFollowing off note velocity nested m f =
    elim (Bool-cases
      (ltb note m.first_midi_note || leb (m.first_midi_note + length m.key_velocity) note)) [
        | inl e ↦ rw e f
        | inr e ↦
            rw e
              (elim (Bool-cases
                (velocity_of m.key_velocity (note - m.first_midi_note) == velocity)) [
                  | inl q ↦ rw q f
                  | inr q ↦ rw q (
                      Keeps-IsFollowing (set_key_states-Keeps _ _) (
                        held-Keeps off m (set m.key_velocity (note - m.first_midi_note) velocity)
                          f))
                ])
      ]

notes_off_from-IsFollowing :
    (off : ℕ) (nested : ℕ → KeyCalls) (left j : ℕ) (m : Manual)
    → IsFollowing off m
    → IsFollowing off (notes_off_from nested left j m).0
unfolding notes_off_from
notes_off_from-IsFollowing off nested zero j m f = f
notes_off_from-IsFollowing off nested (suc left) j m f =
    notes_off_from-IsFollowing off nested left (suc j) _
      (set_midi_note_state-IsFollowing off (m.first_midi_note + j) 0 (nested j) m f)

on_midi_received-IsFollowing :
    (off : ℕ) (t : MatchType) (key value : ℕ) (nested : ℕ → KeyCalls) (m : Manual)
    → IsFollowing off m
    → IsFollowing off (on_midi_received t key value nested m).0
unfolding on_midi_received all_notes_off
on_midi_received-IsFollowing off match_on key value nested m f =
    set_midi_note_state-IsFollowing off key _ (nested key) m f
on_midi_received-IsFollowing off match_off key value nested m f =
    set_midi_note_state-IsFollowing off key 0 (nested key) m f
on_midi_received-IsFollowing off match_reset key value nested m f =
    notes_off_from-IsFollowing off nested m.accessible_keys 0 m f
on_midi_received-IsFollowing off match_none key value nested m f = f
on_midi_received-IsFollowing off match_change key value nested m f = f

lt_of_ne : (key k : ℕ) → key ≢ k → k < suc key → k < key
lt_of_ne key k ne lt = omega arith

-- The loop of `SetUnisonOff` sets every key from the first on.
module _ (on : Bool) (off : ℕ) (agrees : ltb 0 off ≡ on) where
  from-audible :
      (key : ℕ) (m : Manual)
      → m.unison_off ≡ off
      → (if on then velocity_of m.remote_velocity key else velocity_of m.velocity key)
        ≡ audible key m
  from-audible key m e =
      ap (λ b. if b then velocity_of m.remote_velocity key else velocity_of m.velocity key)
        (sym agrees ∙ ap (ltb 0) (sym e))

  refresh_division-IsFollowing :
      (left key : ℕ) (m : Manual)
      → m.unison_off ≡ off
      → IsSummed m
      → left + key ≡ length m.velocity
      → ((k : ℕ) → k < key → IsSetAt m k)
      → IsFollowing off (refresh_division on left key m).0
  unfolding refresh_division
  refresh_division-IsFollowing zero key m e s size h = record {
    counted = e;
    summed = s;
    keys = λ k. elim (Bool-cases (ltb k key)) [
      | inl q ↦ h k (ltb→lt k key q)
      | inr q ↦ beyond-IsSetAt k m s (ground arith)
    ];
  }
  refresh_division-IsFollowing (suc left) key m e s size h =
      let same : (set_division_key_state key
            (if on then velocity_of m.remote_velocity key else velocity_of m.velocity key) m).0
          ≡ announced key m =
        set_division_key_state_lem key _ m
        ∙ ap (λ v. record m { division_velocities = set m.division_velocities key (v / 4) })
            (from-audible key m e) in
      rw same (
        refresh_division-IsFollowing left (suc key) (announced key m) e
          (written-IsSummed key (audible key m / 4) m s) (omega (arith, size))
          (λ k lt. announced-IsSetAt key m k s (λ ne. h k (lt_of_ne key k ne lt))))

counted-IsSummed : (n : ℕ) (m : Manual) → IsSummed m → IsSummed (record m { unison_off = n })
counted-IsSummed n m s = record {
  rows = s.rows;
  remotes = s.remotes;
  divisions = s.divisions;
  sums = s.sums;
  remote_sums = s.remote_sums;
}

-- A count that stays above 0 changes nothing.
still-IsFollowing :
    (off n : ℕ) (m : Manual)
    → 0 < off
    → 0 < n
    → IsFollowing off m
    → IsFollowing n (record m { unison_off = n })
still-IsFollowing off n m h k f = record {
  counted = refl;
  summed = counted-IsSummed n m f.summed;
  keys = λ key.
      let same : ltb 0 m.unison_off ≡ ltb 0 n = ground (arith, f.counted) in
      f.keys key
      ∙ ap (λ b. (if b then velocity_of m.remote_velocity key else velocity_of m.velocity key) / 4)
          same;
}

unison_on-IsFollowing :
    (off : ℕ) (m : Manual)
    → off + 1 < 2 ^ 32
    → IsFollowing off m
    → IsFollowing (off + 1) (set_unison_off true m).0
unfolding set_unison_off
unison_on-IsFollowing off m h f =
    let next : u32 (m.unison_off + 1) ≡ off + 1 = omega (arith, f.counted) in
    rw next (elim (Bool-cases (ltb 0 m.unison_off)) [
      | inl e ↦ rw e (still-IsFollowing off (off + 1) m (ground (arith, f.counted)) (omega arith) f)
      | inr e ↦ rw e (
          refresh_division-IsFollowing true (off + 1) (ground arith) (length m.velocity) 0
            (record m { unison_off = off + 1 }) refl (counted-IsSummed (off + 1) m f.summed)
            (omega arith) (λ k lt. absurd (omega arith)))
    ])

unison_off-IsFollowing :
    (off : ℕ) (m : Manual)
    → 0 < off
    → off < 2 ^ 32
    → IsFollowing off m
    → IsFollowing (off - 1) (set_unison_off false m).0
unfolding set_unison_off
unison_off-IsFollowing off m h k f =
    let next : u32 (m.unison_off + 2 ^ 32 - 1) ≡ off - 1 = omega (arith, f.counted) in
    rw next (elim (Bool-cases (ltb 0 (off - 1))) [
      | inl e ↦ rw e (still-IsFollowing off (off - 1) m h (ltb→lt _ _ e) f)
      | inr e ↦ rw e (
          refresh_division-IsFollowing false (off - 1) e (length m.velocity) 0
            (record m { unison_off = off - 1 }) refl (counted-IsSummed (off - 1) m f.summed)
            (omega arith) (λ k lt. absurd (omega arith)))
    ])

pub data Event : Type 0 where
  -- Couplers call `SetKeyState`.
  couples : KeyCalls → Event
  -- `SetMidiNoteState` from the screen, `OnMidiReceived`, `AbortPlayback`.
  plays : ℕ → ℕ → KeyCalls → Event
  receives : MatchType → ℕ → ℕ → (ℕ → KeyCalls) → Event
  aborts : (ℕ → KeyCalls) → Event
  switches_unison_off : Bool → Event

unfoldable pub happen : Event → Manual → Manual × List Call
happen (couples calls) m = set_key_states calls m
happen (plays note velocity nested) m = set_midi_note_state note velocity nested m
happen (receives t key value nested) m = on_midi_received t key value nested m
happen (aborts nested) m = all_notes_off nested m
happen (switches_unison_off on) m = set_unison_off on m

unfoldable pub run : List Event → Manual → Manual × List Call
run [] m = (m, [])
run (e ∷ es) m = let (m', calls) = happen e m in let (m'', more) = run es m' in (m'', calls ++ more)

-- How many couplers have switched the unison off, if so many had before.
abbrev pub unison_after : ℕ → List Event → ℕ
unison_after n [] = n
unison_after n (switches_unison_off true ∷ es) = unison_after (n + 1) es
unison_after n (switches_unison_off false ∷ es) = unison_after (n - 1) es
unison_after n (_ ∷ es) = unison_after n es

-- No coupler switches the unison on again that has not switched it off, and they are not 2^32.
abbrev pub IsBalanced : ℕ → List Event → Type 0
IsBalanced n [] = Unit {0}
IsBalanced n (switches_unison_off true ∷ es) = (n + 1 < 2 ^ 32) × IsBalanced (n + 1) es
IsBalanced n (switches_unison_off false ∷ es) = (0 < n) × (n < 2 ^ 32) × IsBalanced (n - 1) es
IsBalanced n (_ ∷ es) = IsBalanced n es

pub run-IsFollowing :
    (es : List Event) (off : ℕ) (m : Manual)
    → IsBalanced off es
    → IsFollowing off m
    → IsFollowing (unison_after off es) (run es m).0
unfolding run happen all_notes_off
run-IsFollowing [] off m b f = f
run-IsFollowing (couples calls ∷ es) off m b f =
    run-IsFollowing es off _ b (Keeps-IsFollowing (set_key_states-Keeps calls m) f)
run-IsFollowing (plays note velocity nested ∷ es) off m b f =
    run-IsFollowing es off _ b (set_midi_note_state-IsFollowing off note velocity nested m f)
run-IsFollowing (receives t key value nested ∷ es) off m b f =
    run-IsFollowing es off _ b (on_midi_received-IsFollowing off t key value nested m f)
run-IsFollowing (aborts nested ∷ es) off m b f =
    run-IsFollowing es off _ b (notes_off_from-IsFollowing off nested m.accessible_keys 0 m f)
run-IsFollowing (switches_unison_off true ∷ es) off m b f =
    run-IsFollowing es (off + 1) _ b.1 (unison_on-IsFollowing off m b.0 f)
run-IsFollowing (switches_unison_off false ∷ es) off m b f =
    run-IsFollowing es (off - 1) _ b.2 (unison_off-IsFollowing off m b.0 b.1 f)
