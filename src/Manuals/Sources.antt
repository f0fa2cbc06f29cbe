-- ===== src/Manuals/Sources.antt =====
-- What a manual keeps of the velocities of its keys, and what `SetKeyState` does to it with all calls
-- that come back meanwhile.
use native.Mathlib.Nat.{max-zero}
use grandorgue.Prelude.{
  ℕ, zero, suc, ◌/◌, ◌<◌, ◌≤◌, max, List, [], ◌∷◌, length, length-set, get_or, set, drop,
  get_or-set_self, get_or-set_ne, get_or_of_le, leb, ltb, leb→le, ◌==◌, if◌then◌else◌, ◌≡◌, ◌≢◌,
  refl, ap, sym, subst, ◌∙◌, inl, inr, arith, Bool-cases, ==_iff,
}
use grandorgue.Manuals.{
  Manual, velocity_of, inputs, set_division_key_state, strongest, sum_up, store_key, audible,
}

unfoldable pub greatest : List ℕ → ℕ
greatest [] = 0
greatest (v ∷ l) = max v (greatest l)

strongest-greatest :
    (v r : ℕ) (l : List ℕ) → strongest v r l ≡ (max v (greatest l), max r (greatest l))
unfolding strongest greatest
strongest-greatest v r [] = ground (arith, max-zero v, max-zero r)
strongest-greatest v r (x ∷ l) =
    strongest-greatest (if ltb v x then x else v) (if ltb r x then x else r) l ∙ ground arith

pub sum_up-greatest : (l : List ℕ) → sum_up l ≡ (greatest l, greatest (drop 1 l))
unfolding sum_up greatest
sum_up-greatest [] = refl
sum_up-greatest (v ∷ l) = strongest-greatest v 0 l ∙ ground arith

pub set_same : (l : List ℕ) (i : ℕ) → set l i (velocity_of l i) ≡ l
set_same [] i = refl
set_same (x ∷ l) zero = refl
set_same (x ∷ l) (suc i) = ap (◌∷◌ x) (set_same l i)

set_beyond : (l : List ℕ) (i v : ℕ) → length l ≤ i → set l i v ≡ l
set_beyond [] i v h = refl
set_beyond (x ∷ l) zero v h = absurd (omega arith)
set_beyond (x ∷ l) (suc i) v h = ap (◌∷◌ x) (set_beyond l i v (omega arith))

-- On every branch, the division has the new velocity afterwards, if it has the key.
pub set_division_key_state_lem :
    (key v : ℕ) (m : Manual)
    → (set_division_key_state key v m).0
      ≡ record m { division_velocities = set m.division_velocities key (v / 4) }
unfolding set_division_key_state
set_division_key_state_lem key v m = elim (Bool-cases (leb (length m.division_velocities) key)) [
  | inl e ↦ rw e (
      ap (λ l. record m { division_velocities = l })
        (sym (set_beyond m.division_velocities key (v / 4) (leb→le _ _ e))))
  | inr e ↦ rw e (elim (Bool-cases (velocity_of m.division_velocities key == v / 4)) [
    | inl q ↦ rw q (
        ap (λ l. record m { division_velocities = l })
          (sym (set_same m.division_velocities key)
            ∙ ap (set m.division_velocities key) ((==_iff _ _).0 q)))
    | inr q ↦ rw q
  ])
]

-- The sums that the manual keeps are those of its inputs, for each of its keys.
pub record IsSummed (m : Manual) : Type 0 where
  pub rows : length m.velocities_by_coupler ≡ length m.velocity
  pub remotes : length m.remote_velocity ≡ length m.velocity
  pub divisions : length m.division_velocities ≡ length m.velocity
  pub sums : (key : ℕ) → velocity_of m.velocity key ≡ greatest (inputs m key)
  pub remote_sums : (key : ℕ) → velocity_of m.remote_velocity key ≡ greatest (drop 1 (inputs m key))

-- The division has a key as the manual's sums say.
abbrev pub IsSetAt : Manual → ℕ → Type 0
IsSetAt m key = velocity_of m.division_velocities key ≡ audible key m / 4

-- What calls of `SetKeyState` leave alone.
pub record IsSameFrame (m m' : Manual) : Type 0 where
  pub same_unison_off : m'.unison_off ≡ m.unison_off
  pub same_key_velocity : m'.key_velocity ≡ m.key_velocity
  pub same_first_logical_key : m'.first_logical_key ≡ m.first_logical_key
  pub same_first_midi_note : m'.first_midi_note ≡ m.first_midi_note
  pub same_accessible_keys : m'.accessible_keys ≡ m.accessible_keys
  pub same_size : length m'.velocity ≡ length m.velocity

pub record Keeps (m m' : Manual) : Type 0 where
  pub frame : IsSameFrame m m'
  pub summed : IsSummed m → IsSummed m'
  pub keys : (key : ℕ) → IsSummed m → IsSetAt m key → IsSetAt m' key

pub Keeps-refl : (m : Manual) → Keeps m m
Keeps-refl m = record {
  frame = record {
    same_unison_off = refl;
    same_key_velocity = refl;
    same_first_logical_key = refl;
    same_first_midi_note = refl;
    same_accessible_keys = refl;
    same_size = refl;
  };
  summed = λ s. s;
  keys = λ key s h. h;
}

pub IsSameFrame-trans : {a b c : Manual} → IsSameFrame a b → IsSameFrame b c → IsSameFrame a c
IsSameFrame-trans f g = record {
  same_unison_off = g.same_unison_off ∙ f.same_unison_off;
  same_key_velocity = g.same_key_velocity ∙ f.same_key_velocity;
  same_first_logical_key = g.same_first_logical_key ∙ f.same_first_logical_key;
  same_first_midi_note = g.same_first_midi_note ∙ f.same_first_midi_note;
  same_accessible_keys = g.same_accessible_keys ∙ f.same_accessible_keys;
  same_size = g.same_size ∙ f.same_size;
}

pub Keeps-trans : {a b c : Manual} → Keeps a b → Keeps b c → Keeps a c
Keeps-trans f g = record {
  frame = IsSameFrame-trans f.frame g.frame;
  summed = λ s. g.summed (f.summed s);
  keys = λ key s h. g.keys key (f.summed s) (f.keys key s h);
}

-- A write of the division: the sums stay, and the key is set if the velocity is the audible one.
module _ (key v : ℕ) (m : Manual) where
  abbrev written : Manual
  written = record m { division_velocities = set m.division_velocities key v }

  pub written-IsSummed : IsSummed m → IsSummed written
  written-IsSummed s = record {
    rows = s.rows;
    remotes = s.remotes;
    divisions = length-set m.division_velocities key v ∙ s.divisions;
    sums = s.sums;
    remote_sums = s.remote_sums;
  }

  pub written-IsSetAt_ne : (k : ℕ) → key ≢ k → IsSetAt m k → IsSetAt written k
  written-IsSetAt_ne k ne h = get_or-set_ne m.division_velocities key k v 0 ne ∙ h

pub beyond-IsSetAt : (key : ℕ) (m : Manual) → IsSummed m → length m.velocity ≤ key → IsSetAt m key
beyond-IsSetAt key m s out =
    let none_remote = get_or_of_le m.remote_velocity key 0 (omega (arith, s.remotes)) in
    let none_velocity = get_or_of_le m.velocity key 0 out in
    let none_division = get_or_of_le m.division_velocities key 0 (omega (arith, s.divisions)) in
    ground (arith, none_remote, none_velocity, none_division)

pub written-IsSetAt :
    (key : ℕ) (m : Manual)
    → IsSummed m
    → IsSetAt
        (record m { division_velocities = set m.division_velocities key (audible key m / 4) })
        key
written-IsSetAt key m s = elim (Bool-cases (leb (length m.velocity) key)) [
  | inl e ↦
      beyond-IsSetAt key
        (record m { division_velocities = set m.division_velocities key (audible key m / 4) })
        (written-IsSummed key (audible key m / 4) m s) (leb→le _ _ e)
  | inr e ↦
      let size : key < length m.division_velocities = ground (arith, s.divisions) in
      get_or-set_self m.division_velocities key (audible key m / 4) 0 size
]

pub row_of_store :
    (key velocity coupler k : ℕ) (m : Manual)
    → key < length m.velocities_by_coupler
    → inputs (store_key key velocity coupler m) k
      ≡ (if key == k then set (inputs m key) coupler velocity else inputs m k)
unfolding store_key
row_of_store key velocity coupler k m h = elim (Bool-cases (key == k)) [
  | inl e ↦ rw e (
      subst
        (λ n.
          get_or (set m.velocities_by_coupler key (set (inputs m key) coupler velocity)) n []
          ≡ set (inputs m key) coupler velocity)
        ((==_iff key k).0 e) (get_or-set_self m.velocities_by_coupler key _ [] h))
  | inr e ↦
      rw e (get_or-set_ne m.velocities_by_coupler key k _ [] (λ q. cc (sym e ∙ (==_iff key k).1 q)))
]
