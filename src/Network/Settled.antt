-- ===== src/Network/Settled.antt =====
-- A network of normal couplers that is at rest, before and after a key of the player.
use grandorgue.Prelude.{
  ◌*◌, List, [], ◌∷◌, Option, some, All, ℕ, ◌-◌, ◌<◌, ◌≤◌, Bool, true, false, ◌&&◌, length, leb,
  leb→le, ◌==◌, ◌≡◌, ◌⊎◌, inl, inr, refl, ◌∙◌, arith, Bool-cases, ==_iff, if◌then◌else◌,
}
use grandorgue.Manuals.{inputs}
use grandorgue.Couplers.{coupler_normal, velocity_at}
use grandorgue.Network.{Wiring, Network, is_coupled, coupled_velocity, set_key_state, ◌>>=◌}
use grandorgue.Network.Weights.{Toward, weight_of, weight_of_limit}
use grandorgue.Network.Rows.{entry}
use grandorgue.Network.Calm.{IsWired, hits, IsCalmBut}
use grandorgue.Network.Calm.Writes.{Toward-refl}
use grandorgue.Network.Calm.Stores.{Slot, Nobody, IsDue}
use grandorgue.Network.Delivery.{Returns, Returns-map, Returns-bind}
use grandorgue.Network.Settling.{Done}
use grandorgue.Network.Cascade.{set_key_state-IsTeller}

-- The player holds such velocities. Each coupler has taken the greatest velocity of the inputs that it
-- may follow, keeps it for the note that it sends the key to, and, while it is engaged, its destination
-- has one less from it. No velocity is above `limit`, no coupler has more than `keys` keys, and the
-- vectors have the sizes that the code gives them.
pub record IsSettled (w : Wiring) (limit keys : ℕ) (player : ℕ → ℕ → ℕ) (net : Network)
    : Type 0 where
  pub normal : (i : ℕ) → i < w.coupler_count → (net.couplers i).coupler_type ≡ coupler_normal
  pub told :
      (i k : ℕ)
      → i < w.coupler_count
      → is_coupled k (net.couplers i) ≡ true
      → velocity_at (net.couplers i).key_velocity k ≡ coupled_velocity w i k net
  pub kept :
      (i k j : ℕ)
      → i < w.coupler_count
      → (net.couplers i).unison_off ≡ false
      → is_coupled k (net.couplers i) ≡ true
      → hits k (net.couplers i) j ≡ true
      → j < length (net.couplers i).internal_velocity
      → velocity_at (net.couplers i).internal_velocity j
        ≡ velocity_at (net.couplers i).key_velocity k
  pub sent :
      (i j : ℕ)
      → i < w.coupler_count
      → (net.couplers i).unison_off ≡ false
      → (net.couplers i).is_engaged ≡ true
      → j < length (net.manuals (w.destination i)).velocity
      → entry (net.manuals (w.destination i)) j (w.index_in_dest i)
        ≡ velocity_at (net.couplers i).internal_velocity j - 1
  pub low : (i k : ℕ) → velocity_at (net.couplers i).key_velocity k ≤ limit
  pub wide : (i : ℕ) → length (net.couplers i).key_velocity ≤ keys
  pub own : (m k : ℕ) → k < length (net.manuals m).velocity → entry (net.manuals m) k 0 ≡ player m k
  pub small : (m k coupler : ℕ) → entry (net.manuals m) k coupler ≤ limit
  pub rows :
      (m : ℕ) → length (net.manuals m).velocities_by_coupler ≡ length (net.manuals m).velocity
  pub head : (m k : ℕ) → k < length (net.manuals m).velocity → 0 < length (inputs (net.manuals m) k)
  pub deep :
      (i k : ℕ)
      → i < w.coupler_count
      → k < length (net.manuals (w.destination i)).velocity
      → w.index_in_dest i < length (inputs (net.manuals (w.destination i)) k)

-- The player holds v at the key, and the rest as before.
abbrev pub held : (ℕ → ℕ → ℕ) → ℕ → ℕ → ℕ → ℕ → ℕ → ℕ
held player m key v m' k = if m' == m && k == key then v else player m' k

settled-IsCalmBut :
    (w : Wiring) (up : Bool) (limit keys : ℕ) (player : ℕ → ℕ → ℕ) (m key v : ℕ) (net : Network)
    → IsSettled w limit keys player net
    → IsCalmBut w up limit keys (λ i k. ⊥) (Slot m key 0) (held player m key v) net
settled-IsCalmBut w up limit keys player m key v net s = record {
  normal = s.normal;
  told = λ i k lt r. (rw (s.told i k lt r) (Toward-refl up _), inr (s.told i k lt r));
  kept = s.kept;
  sent = λ i j lt u e inside. inr (s.sent i j lt u e inside);
  low = s.low;
  wide = s.wide;
  own = own;
  small = s.small;
  rows = s.rows;
  head = s.head;
  deep = s.deep;
}
  where
    own :
        (n k : ℕ)
        → k < length (net.manuals n).velocity
        → Slot m key 0 n k 0 ⊎ (entry (net.manuals n) k 0 ≡ held player m key v n k)
    own n k inside = elim (Bool-cases (n == m)) [
      | inr e ↦ inr (s.own n k inside ∙ rw e refl)
      | inl e ↦ (elim (Bool-cases (k == key)) [
        | inr e' ↦ inr (s.own n k inside ∙ rw (e, e') refl)
        | inl e' ↦ inl ((==_iff n m).0 e, (==_iff k key).0 e', refl)
      ])
    ]

calm-IsSettled :
    (w : Wiring) (up : Bool) (limit keys : ℕ) (player : ℕ → ℕ → ℕ) (net : Network)
    → IsCalmBut w up limit keys (λ i k. ⊥) Nobody player net
    → IsSettled w limit keys player net
calm-IsSettled w up limit keys player net c = record {
  normal = c.normal;
  told = λ i k lt r. right (c.told i k lt r).1;
  kept = c.kept;
  sent = λ i j lt u e inside. right (c.sent i j lt u e inside);
  low = c.low;
  wide = c.wide;
  own = λ m k inside. right (c.own m k inside);
  small = c.small;
  rows = c.rows;
  head = c.head;
  deep = c.deep;
}
  where
    right : {A : Type 0} → ⊥ ⊎ A → A
    right (inl e) = absurd e
    right (inr a) = a

module _ (w : Wiring) (limit keys fuel m key v : ℕ) (player : ℕ → ℕ → ℕ) (net : Network) where
  settles_one_way :
      (up : Bool)
      → IsWired w
      → IsSettled w limit keys player net
      → v ≤ limit
      → Toward up (entry (net.manuals m) key 0) v
      → weight_of w up limit net < fuel
      → Returns (IsSettled w limit keys (held player m key v)) (set_key_state w fuel m key v 0 net)
  settles_one_way up wired s le toward light =
      Returns-map (Done w wired up limit keys (held player m key v) (λ i k. ⊥) net)
        (IsSettled w limit keys (held player m key v)) (set_key_state w fuel m key v 0 net)
        (λ n d. calm-IsSettled w up limit keys (held player m key v) n d.0)
        (set_key_state-IsTeller w wired up limit keys (held player m key v) fuel (λ i k. ⊥) m key v
          0 net (settled-IsCalmBut w up limit keys player m key v net s) due (λ within. toward) le
          light)
    where
      self : v ≡ held player m key v m key
      self =
          let e : (m == m) ≡ true = ground arith in
          let e' : (key == key) ≡ true = ground arith in rw (e, e') refl

      due : IsDue w (held player m key v) m key v 0 net
      due = (λ z. self, λ i lt to n. absurd (let p = wired.not_player i lt in omega (arith, n, p)))

  pub key_settles :
      IsWired w
      → IsSettled w limit keys player net
      → v ≤ limit
      → w.coupler_count * (keys * limit) < fuel
      → Returns (IsSettled w limit keys (held player m key v)) (set_key_state w fuel m key v 0 net)
  key_settles wired s le enough = elim (Bool-cases (leb (entry (net.manuals m) key 0) v)) [
    | inl e ↦ settles_one_way true wired s le (leb→le _ _ e) (light true)
    | inr e ↦ settles_one_way false wired s le (ground (arith, e)) (light false)
  ]
    where
      light : (up : Bool) → weight_of w up limit net < fuel
      light up =
          let most = weight_of_limit w up limit keys net s.low s.wide in omega (arith, most, enough)

-- Keys of the player, one after the other: the manual, the key, the velocity.
abbrev pub Keys : Type 0
Keys = List (ℕ × ℕ × ℕ)

unfoldable pub play : Wiring → ℕ → Keys → Network → Option Network
play w fuel [] net = some net
play w fuel ((m, key, v) ∷ l) net = set_key_state w fuel m key v 0 net >>= play w fuel l

abbrev pub held_after : (ℕ → ℕ → ℕ) → Keys → ℕ → ℕ → ℕ
held_after player [] = player
held_after player ((m, key, v) ∷ l) = held_after (held player m key v) l

-- In a settled network of normal couplers, which may lead from manual to manual in a circle, whatever
-- keys the player presses and releases: the calls that follow from each come to an end, and after the
-- last the network is settled for what the player then holds. Fuel is enough if it is more than the
-- number of couplers times the greatest number of keys of one times the greatest velocity.
pub play_settles :
    (w : Wiring) (limit keys fuel : ℕ) (l : Keys) (player : ℕ → ℕ → ℕ) (net : Network)
    → IsWired w
    → w.coupler_count * (keys * limit) < fuel
    → All (λ (k : ℕ × ℕ × ℕ). k.2 ≤ limit) l
    → IsSettled w limit keys player net
    → Returns (IsSettled w limit keys (held_after player l)) (play w fuel l net)
unfolding play
play_settles w limit keys fuel [] player net wired enough le s = s
play_settles w limit keys fuel ((m, key, v) ∷ l) player net wired enough le s =
    Returns-bind (IsSettled w limit keys (held player m key v))
      (IsSettled w limit keys (held_after (held player m key v) l))
      (set_key_state w fuel m key v 0 net) (play w fuel l)
      (key_settles w limit keys fuel m key v player net wired s le.0 enough)
      (λ n s'. play_settles w limit keys fuel l (held player m key v) n wired enough le.1 s')
