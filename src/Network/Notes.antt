-- ===== src/Network/Notes.antt =====
-- `SetOut` of src/grandorgue/model/GOCoupler.cpp for the note of a key that `SetKey` has just noted.
use grandorgue.Prelude.{
  ℕ, ◌-◌, ◌<◌, Bool, true, false, List, [], ◌∷◌, length, length-set, set, leb, ◌==◌, not, ◌≡◌, ◌≢◌,
  ◌⊎◌, inl, inr, refl, ap, sym, ◌∙◌, arith, Bool-cases, ==_iff, if◌then◌else◌, subst,
  get_or-set_self, get_or-set_ne,
}
use grandorgue.Prelude.Int.{ℤ, pos, negsuc, ◌+ℤ◌, eq_ℤ}
use grandorgue.Couplers.{Coupler, Calls, velocity_at, set_out, set_out_at, may_follow}
use grandorgue.Network.{is_coupled}
use grandorgue.Network.Calm.{hits, IsKeySet}

abbrev pub noted : ℕ → ℕ → Coupler → Coupler
noted note v c = record c { key_velocity = set c.key_velocity note v }

range-noted : (note v k : ℕ) (c : Coupler) → is_coupled k (noted note v c) ≡ is_coupled k c
range-noted note v k c = rw (length-set c.key_velocity note v) refl

module _ (note v : ℕ) (c : Coupler) where
  -- Nothing is to be done for the note.
  pub noted-IsKeySet :
      ((j : ℕ)
        → c.unison_off ≡ false
        → hits note c j ≡ true
        → j < length c.internal_velocity
        → velocity_at c.internal_velocity j ≡ v)
      → IsKeySet c note v (noted note v c)
  unfolding may_follow
  noted-IsKeySet h = record {
    same_type = refl;
    same_unison = refl;
    same_engaged = refl;
    same_shift = refl;
    same_range = λ k. range-noted note v k c;
    same_follow = λ f. refl;
    keys = refl;
    same_length = refl;
    at = h;
    others = λ j miss. refl;
  }

  abbrev sounded : ℕ → List ℕ → Coupler
  sounded j out = record (noted note v c) {
    internal_velocity = set c.internal_velocity j v;
    out_velocity = out;
  }

  sounded-IsKeySet :
      (j : ℕ) (out : List ℕ)
      → pos note +ℤ c.keyshift ≡ pos j
      → j < length c.internal_velocity
      → IsKeySet c note v (sounded j out)
  unfolding may_follow
  sounded-IsKeySet j out e inside = record {
    same_type = refl;
    same_unison = refl;
    same_engaged = refl;
    same_shift = refl;
    same_range = λ k. range-noted note v k c;
    same_follow = λ f. refl;
    keys = refl;
    same_length = length-set c.internal_velocity j v;
    at = λ n u hit within.
        let same : j ≡ n =
          let hit' : eq_ℤ (pos j) (pos n) ≡ true = subst (λ z. eq_ℤ z (pos n) ≡ true) e hit in
          ground (arith, hit') in
        rw (← same) (get_or-set_self c.internal_velocity j v 0 inside);
    others = λ n miss.
        let apart : j ≢ n = λ q.
          let miss' : eq_ℤ (pos j) (pos n) ≡ false = subst (λ z. eq_ℤ z (pos n) ≡ false) e miss in
          absurd (ground (arith, q, miss')) in
        get_or-set_ne c.internal_velocity j n v 0 apart;
  }

  -- The coupler is done, or it calls its destination.
  abbrev pub IsQuiet : Coupler × Calls → Type 0
  IsQuiet (c', calls) =
      (calls ≡ [])
      × IsKeySet c note v c'
      × ((j : ℕ)
          → c.is_engaged ≡ true
          → hits note c j ≡ true
          → velocity_at c'.internal_velocity j ≡ velocity_at c.internal_velocity j)

  pub record IsCalling (j : ℕ) (r : Coupler × Calls) : Type 0 where
    pub calls : r.1 ≡ (j, v - 1) ∷ []
    pub key_set : IsKeySet c note v r.0
    pub engaged : c.is_engaged ≡ true
    pub goes_to : pos note +ℤ c.keyshift ≡ pos j
    pub inside : j < length c.internal_velocity

  abbrev pub Does : Coupler × Calls → Type 0
  Does r = IsQuiet r ⊎ ((j : ℕ) × IsCalling j r)

  -- Quiet, since the note is not one of the destination's or has the velocity already.
  quiet_note :
      ((j : ℕ)
        → hits note c j ≡ true
        → j < length c.internal_velocity
        → velocity_at c.internal_velocity j ≡ v)
      → Does (noted note v c, [])
  quiet_note h = inl (refl, noted-IsKeySet (λ j u hit inside. h j hit inside), λ j e hit. refl)

  set_out_at_lem : (j : ℕ) → pos note +ℤ c.keyshift ≡ pos j → Does (set_out_at j v (noted note v c))
  unfolding set_out_at
  set_out_at_lem j e =
      let same : (n : ℕ) → hits note c n ≡ true → j ≡ n = λ n hit.
        let hit' : eq_ℤ (pos j) (pos n) ≡ true = subst (λ z. eq_ℤ z (pos n) ≡ true) e hit in
        ground (arith, hit') in
      elim (Bool-cases (leb (length c.internal_velocity) j)) [
        | inl past ↦ rw past (
            quiet_note
              (λ n hit inside. let q = same n hit in absurd (ground (arith, past, q, inside))))
        | inr within ↦ rw within (elim (Bool-cases (velocity_at c.internal_velocity j == v)) [
          | inl q ↦ rw q (
              quiet_note (λ n hit inside.
                ap (velocity_at c.internal_velocity) (sym (same n hit)) ∙ (==_iff _ _).0 q))
          | inr q ↦ rw q (at_switch c.is_engaged refl (ground (arith, within)))
        ])
      ]
    where
      at_switch :
          (on : Bool)
          → c.is_engaged ≡ on
          → j < length c.internal_velocity
          → Does (
              if not on
              then (sounded j c.out_velocity, [])
              else (sounded j (set c.out_velocity j (v - 1)), (j, v - 1) ∷ []))
      at_switch true on inside = inr (
        j,
        record {
          calls = refl;
          key_set = sounded-IsKeySet j (set c.out_velocity j (v - 1)) e inside;
          engaged = on;
          goes_to = e;
          inside = inside;
        },
      )
      at_switch false off inside =
          inl (
            refl,
            sounded-IsKeySet j c.out_velocity e inside,
            λ n on hit. absurd (cc (sym off ∙ on)),
          )

  pub set_out_lem : Does (set_out (pos note +ℤ c.keyshift) v (noted note v c))
  unfolding set_out
  set_out_lem = at_note (pos note +ℤ c.keyshift) refl
    where
      at_note : (z : ℤ) → pos note +ℤ c.keyshift ≡ z → Does (set_out z v (noted note v c))
      at_note (pos j) e = set_out_at_lem j e
      at_note (negsuc n) e = quiet_note (λ j hit inside.
          let hit' : eq_ℤ (negsuc n) (pos j) ≡ true = subst (λ z. eq_ℤ z (pos j) ≡ true) e hit in
          absurd (ground (arith, hit')))
