-- ===== src/Manuals/Keys.antt =====
-- `SetKeyState` keeps the sums of a manual and leaves every key of the division set.
use grandorgue.Prelude.{
  ℕ, ◌/◌, ◌<◌, Bool, true, false, List, length, length-set, set, drop, get_or-set_self,
  get_or-set_ne, ◌==◌, if◌then◌else◌, ◌≡◌, ◌≢◌, refl, ap, sym, subst, ◌∙◌, inl, inr, arith,
  Bool-cases, ==_iff,
}
use grandorgue.Manuals.{
  Manual, Call, KeyCalls, no_calls, key_call, velocity_of, inputs, sum_up, store_key, audible,
  announce, is_news, set_key_states,
}
use grandorgue.Manuals.Sources.{
  greatest, sum_up-greatest, IsSummed, IsSetAt, IsSameFrame, Keeps, Keeps-refl, Keeps-trans,
  IsSameFrame-trans, set_division_key_state_lem, written-IsSummed, written-IsSetAt_ne,
  written-IsSetAt, row_of_store,
}

write_sum :
    (l : List ℕ) (key k v w : ℕ)
    → key < length l
    → velocity_of l k ≡ w
    → velocity_of (set l key v) k ≡ (if key == k then v else w)
write_sum l key k v w h e = elim (Bool-cases (key == k)) [
  | inl q ↦ rw q (
      subst (λ n. velocity_of (set l key v) n ≡ v) ((==_iff key k).0 q)
        (get_or-set_self l key v 0 h))
  | inr q ↦ rw q (get_or-set_ne l key k v 0 (λ p. cc (sym q ∙ (==_iff key k).1 p)) ∙ e)
]

module _ (key velocity coupler : ℕ) (m : Manual) (has : key < length m.velocity) where
  abbrev stored : Manual
  stored = store_key key velocity coupler m

  abbrev row : List ℕ
  row = set (inputs m key) coupler velocity

  -- A sum of the inputs, written for the key that changes.
  store_sum :
      (sum : List ℕ → ℕ) (l : List ℕ)
      → length l ≡ length m.velocity
      → length m.velocities_by_coupler ≡ length m.velocity
      → ((k : ℕ) → velocity_of l k ≡ sum (inputs m k))
      → (k : ℕ) → velocity_of (set l key (sum row)) k ≡ sum (inputs stored k)
  store_sum sum l size rows h k =
      write_sum l key k (sum row) (sum (inputs m k)) (omega (arith, size)) (h k)
      ∙ sym
          (ap sum (row_of_store key velocity coupler k m (omega (arith, rows))) ∙ branch (key == k))
    where
      branch :
          (b : Bool)
          → sum (if b then row else inputs m k) ≡ (if b then sum row else sum (inputs m k))
      branch true = refl
      branch false = refl

  store_key-IsSummed : IsSummed m → IsSummed stored
  store_key-IsSummed s = record {
    rows =
        unfold store_key in
        length-set m.velocities_by_coupler key row ∙ s.rows ∙ sym (length-set m.velocity key _);
    remotes =
        unfold store_key in
        length-set m.remote_velocity key _ ∙ s.remotes ∙ sym (length-set m.velocity key _);
    divisions = unfold store_key in s.divisions ∙ sym (length-set m.velocity key _);
    sums = λ k.
        unfold store_key in
        ap (λ (p : ℕ × ℕ). velocity_of (set m.velocity key p.0) k) (sum_up-greatest row)
        ∙ store_sum greatest m.velocity refl s.rows s.sums k;
    remote_sums = λ k.
        unfold store_key in
        ap (λ (p : ℕ × ℕ). velocity_of (set m.remote_velocity key p.1) k) (sum_up-greatest row)
        ∙ store_sum (λ l. greatest (drop 1 l)) m.remote_velocity s.remotes s.rows s.remote_sums k;
  }

  store_key-IsSameFrame : IsSameFrame m stored
  unfolding store_key
  store_key-IsSameFrame = record {
    same_unison_off = refl;
    same_key_velocity = refl;
    same_first_logical_key = refl;
    same_first_midi_note = refl;
    same_accessible_keys = refl;
    same_size = length-set m.velocity key _;
  }

  store_key-IsSetAt : (k : ℕ) → key ≢ k → IsSetAt m k → IsSetAt stored k
  unfolding store_key
  store_key-IsSetAt k ne h =
      rw
        (
          get_or-set_ne m.velocity key k (sum_up row).0 0 ne,
          get_or-set_ne m.remote_velocity key k (sum_up row).1 0 ne,
        )
        h

written-IsSameFrame :
    (m : Manual) (l : List ℕ) → IsSameFrame m (record m { division_velocities = l })
written-IsSameFrame m l = record {
  same_unison_off = refl;
  same_key_velocity = refl;
  same_first_logical_key = refl;
  same_first_midi_note = refl;
  same_accessible_keys = refl;
  same_size = refl;
}

-- The key that is announced is set, and the others stay as they were.
module _ (key : ℕ) (m : Manual) where
  abbrev pub announced : Manual
  announced = record m { division_velocities = set m.division_velocities key (audible key m / 4) }

  pub announced-IsSetAt : (k : ℕ) → IsSummed m → (key ≢ k → IsSetAt m k) → IsSetAt announced k
  announced-IsSetAt k s h = elim (Bool-cases (key == k)) [
    | inl e ↦ subst (λ n. IsSetAt announced n) ((==_iff key k).0 e) (written-IsSetAt key m s)
    | inr e ↦
        let ne : key ≢ k = λ p. cc (sym e ∙ (==_iff key k).1 p) in
        written-IsSetAt_ne key (audible key m / 4) m k ne (h ne)
  ]

  pub announce_lem : (calls : List Call) → (announce key (m, calls)).0 ≡ announced
  unfolding announce
  announce_lem calls = set_division_key_state_lem key (audible key m) m

-- One call that is news, with what comes back from the couplers.
news-Keeps :
    (key velocity coupler : ℕ) (m : Manual) (back : Manual × List Call)
    → key < length m.velocity
    → Keeps (store_key key velocity coupler m) back.0
    → Keeps m (announce key back).0
news-Keeps key velocity coupler m (m2, calls) has k =
    subst (Keeps m) (sym (announce_lem key m2 calls)) (record {
      frame =
          IsSameFrame-trans
            (IsSameFrame-trans (store_key-IsSameFrame key velocity coupler m has) k.frame)
            (written-IsSameFrame m2 _);
      summed = λ s.
          written-IsSummed key _ m2 (k.summed (store_key-IsSummed key velocity coupler m has s));
      keys = λ i s h.
          let s1 = store_key-IsSummed key velocity coupler m has s in
          announced-IsSetAt key m2 i (k.summed s1)
            (λ ne. k.keys i s1 (store_key-IsSetAt key velocity coupler m has i ne h));
    })

pub set_key_states-Keeps : (calls : KeyCalls) (m : Manual) → Keeps m (set_key_states calls m).0
unfolding set_key_states
set_key_states-Keeps no_calls m = Keeps-refl m
set_key_states-Keeps (key_call key velocity coupler nested rest) m =
    let inner = set_key_states-Keeps nested (store_key key velocity coupler m) in
    elim (Bool-cases (is_news key velocity coupler m)) [
      | inl e ↦ rw e (
          Keeps-trans
            (news-Keeps key velocity coupler m
              (set_key_states nested (store_key key velocity coupler m)) (ground arith) inner)
            (set_key_states-Keeps rest
              (announce key (set_key_states nested (store_key key velocity coupler m))).0))
      | inr e ↦ rw e (set_key_states-Keeps rest m)
    ]
