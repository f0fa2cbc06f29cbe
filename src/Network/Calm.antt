-- ===== src/Network/Calm.antt =====
-- What holds of a network while calls of `SetKeyState` are under way, and once they are done.
pub mod Writes
pub mod Stores
pub mod Quiet
use grandorgue.Prelude.{
  ℕ, ◌+◌, ◌-◌, ◌<◌, ◌≤◌, Bool, true, false, length, set, ◌==◌, ◌≡◌, ◌≢◌, ◌⊎◌, inl, inr, refl, ap,
  sym, ◌∙◌, arith, Bool-cases, ==_iff, if◌then◌else◌,
}
use grandorgue.Prelude.Int.{ℤ, pos, ◌+ℤ◌, eq_ℤ}
use grandorgue.Manuals.{Manual, velocity_of, inputs}
use grandorgue.Couplers.{Coupler, coupler_normal, velocity_at, Flags, may_follow, greatest}
use grandorgue.Network.{
  Wiring, Network, is_coupled, coupled_velocity, put_coupler, put_manual, paired,
}
use grandorgue.Network.Weights.{Toward}
use grandorgue.Network.Rows.{entry, greatest-same}

-- As `RegisterCoupler` numbers the couplers: no two that lead to one manual have the same number, and
-- 0 is the player's.
pub record IsWired (w : Wiring) : Type 0 where
  pub apart :
      (i j : ℕ)
      → i < w.coupler_count
      → j < w.coupler_count
      → w.destination i ≡ w.destination j
      → w.index_in_dest i ≡ w.index_in_dest j
      → i ≡ j
  pub not_player : (i : ℕ) → i < w.coupler_count → 0 < w.index_in_dest i

-- Does the coupler send its key k to the note j?
abbrev pub hits : ℕ → Coupler → ℕ → Bool
hits k c j = eq_ℤ (pos k +ℤ c.keyshift) (pos j)

pub hits-one : (k n j : ℕ) (c : Coupler) → hits k c j ≡ true → hits n c j ≡ true → k ≡ n
hits-one k n j c h h' = ground arith

-- Some keys of couplers (X) are still to be told, and their inputs have moved on; some inputs of
-- manuals (L), named by manual, key and number, are still to be written. `player` has what the player
-- holds. No velocity is above `limit`, and no
-- coupler has more than `keys` keys.
pub record IsCalmBut (w : Wiring) (up : Bool) (limit keys : ℕ) (X : ℕ → ℕ → Type 0)
    (L : ℕ → ℕ → ℕ → Type 0) (player : ℕ → ℕ → ℕ) (net : Network) : Type 0 where
  pub normal : (i : ℕ) → i < w.coupler_count → (net.couplers i).coupler_type ≡ coupler_normal
  pub told :
      (i k : ℕ)
      → i < w.coupler_count
      → is_coupled k (net.couplers i) ≡ true
      → Toward up (velocity_at (net.couplers i).key_velocity k) (coupled_velocity w i k net)
        × (X i k ⊎ (velocity_at (net.couplers i).key_velocity k ≡ coupled_velocity w i k net))
  pub kept :
      (i k j : ℕ)
      → i < w.coupler_count
      → (net.couplers i).unison_off ≡ false
      → is_coupled k (net.couplers i) ≡ true
      → hits k (net.couplers i) j ≡ true
      → j < length (net.couplers i).internal_velocity
      → velocity_at (net.couplers i).internal_velocity j
        ≡ velocity_at (net.couplers i).key_velocity k
  pub sent :
      (i j : ℕ)
      → i < w.coupler_count
      → (net.couplers i).unison_off ≡ false
      → (net.couplers i).is_engaged ≡ true
      → j < length (net.manuals (w.destination i)).velocity
      → L (w.destination i) j (w.index_in_dest i)
        ⊎ (entry (net.manuals (w.destination i)) j (w.index_in_dest i)
            ≡ velocity_at (net.couplers i).internal_velocity j - 1)
  pub low : (i k : ℕ) → velocity_at (net.couplers i).key_velocity k ≤ limit
  pub wide : (i : ℕ) → length (net.couplers i).key_velocity ≤ keys
  pub own :
      (m k : ℕ)
      → k < length (net.manuals m).velocity
      → L m k 0 ⊎ (entry (net.manuals m) k 0 ≡ player m k)
  pub small : (m k coupler : ℕ) → entry (net.manuals m) k coupler ≤ limit
  pub rows :
      (m : ℕ) → length (net.manuals m).velocities_by_coupler ≡ length (net.manuals m).velocity
  pub head : (m k : ℕ) → k < length (net.manuals m).velocity → 0 < length (inputs (net.manuals m) k)
  pub deep :
      (i k : ℕ)
      → i < w.coupler_count
      → k < length (net.manuals (w.destination i)).velocity
      → w.index_in_dest i < length (inputs (net.manuals (w.destination i)) k)

pub IsCalmBut-weaken :
    {w : Wiring} {up : Bool} {limit keys : ℕ} {X X' : ℕ → ℕ → Type 0} {L : ℕ → ℕ → ℕ → Type 0}
    {player : ℕ → ℕ → ℕ} {net : Network}
    → ((i k : ℕ)
        → i < w.coupler_count
        → is_coupled k (net.couplers i) ≡ true
        → X i k
        → X' i k ⊎ (velocity_at (net.couplers i).key_velocity k ≡ coupled_velocity w i k net))
    → IsCalmBut w up limit keys X L player net
    → IsCalmBut w up limit keys X' L player net
IsCalmBut-weaken f c = record {
  normal = c.normal;
  told = λ i k lt h.
      ((c.told i k lt h).0, elim (c.told i k lt h).1 [ inl x ↦ f i k lt h x | inr e ↦ inr e ]);
  kept = c.kept;
  sent = c.sent;
  low = c.low;
  wide = c.wide;
  own = c.own;
  small = c.small;
  rows = c.rows;
  head = c.head;
  deep = c.deep;
}

pub IsCalmBut-written :
    {w : Wiring} {up : Bool} {limit keys : ℕ} {X : ℕ → ℕ → Type 0} {L L' : ℕ → ℕ → ℕ → Type 0}
    {player : ℕ → ℕ → ℕ} {net : Network}
    → ((i j : ℕ)
        → i < w.coupler_count
        → (net.couplers i).unison_off ≡ false
        → (net.couplers i).is_engaged ≡ true
        → j < length (net.manuals (w.destination i)).velocity
        → L (w.destination i) j (w.index_in_dest i)
        → L' (w.destination i) j (w.index_in_dest i)
          ⊎ (entry (net.manuals (w.destination i)) j (w.index_in_dest i)
              ≡ velocity_at (net.couplers i).internal_velocity j - 1))
    → ((m k : ℕ)
        → k < length (net.manuals m).velocity
        → L m k 0
        → L' m k 0 ⊎ (entry (net.manuals m) k 0 ≡ player m k))
    → IsCalmBut w up limit keys X L player net
    → IsCalmBut w up limit keys X L' player net
IsCalmBut-written f g c = record {
  normal = c.normal;
  told = c.told;
  kept = c.kept;
  sent = λ i j lt u e h. elim (c.sent i j lt u e h) [ inl x ↦ f i j lt u e h x | inr q ↦ inr q ];
  low = c.low;
  wide = c.wide;
  own = λ m k h. elim (c.own m k h) [ inl x ↦ g m k h x | inr q ↦ inr q ];
  small = c.small;
  rows = c.rows;
  head = c.head;
  deep = c.deep;
}

-- A coupler after `SetKey` has noted the velocity v for its key, and `SetOut` the same for its note.
pub record IsKeySet (c : Coupler) (note v : ℕ) (c' : Coupler) : Type 0 where
  pub same_type : c'.coupler_type ≡ c.coupler_type
  pub same_unison : c'.unison_off ≡ c.unison_off
  pub same_engaged : c'.is_engaged ≡ c.is_engaged
  pub same_shift : c'.keyshift ≡ c.keyshift
  pub same_range : (k : ℕ) → is_coupled k c' ≡ is_coupled k c
  pub same_follow : (f : Flags) → may_follow c' f ≡ may_follow c f
  pub keys : c'.key_velocity ≡ set c.key_velocity note v
  pub same_length : length c'.internal_velocity ≡ length c.internal_velocity
  pub at :
      (j : ℕ)
      → c.unison_off ≡ false
      → hits note c j ≡ true
      → j < length c.internal_velocity
      → velocity_at c'.internal_velocity j ≡ v
  pub others :
      (j : ℕ)
      → hits note c j ≡ false
      → velocity_at c'.internal_velocity j ≡ velocity_at c.internal_velocity j
