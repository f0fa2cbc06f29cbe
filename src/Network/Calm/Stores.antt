-- ===== src/Network/Calm/Stores.antt =====
-- The writes of a manual, as part of a cascade of calls: of an input of a key, and of its division.
use grandorgue.Prelude.{
  ℕ, ◌-◌, ◌<◌, ◌≤◌, Bool, true, false, length, length-set, ◌≡◌, ◌≢◌, List, Option, ℕ_discrete, ◌⊎◌,
  inl, inr, refl, ap, sym, ◌∙◌, arith, subst,
}
use grandorgue.Manuals.{Manual, inputs, store_key}
use grandorgue.Couplers.{Flags, Coupler, velocity_at, greatest}
use grandorgue.Network.{Wiring, Network, is_coupled, coupled_velocity, put_manual, paired, write}
use grandorgue.Network.Weights.{Toward}
use grandorgue.Network.Rows.{
  entry, store_key_self, store_key_other, set_small, inputs-store_key, greatest-set,
  store_key-sizes,
}
use grandorgue.Network.Calm.{IsCalmBut}
use grandorgue.Network.Calm.Writes.{write-holds, Toward-refl}

-- The input of one key of one manual, and none.
abbrev pub Slot : ℕ → ℕ → ℕ → ℕ → ℕ → ℕ → Type 0
Slot m key coupler m' k n = (m' ≡ m) × (k ≡ key) × (n ≡ coupler)

abbrev pub Nobody : ℕ → ℕ → ℕ → Type 0
Nobody m k n = ⊥

Toward-trans : (up : Bool) (a b c : ℕ) → Toward up a b → Toward up b c → Toward up a c
Toward-trans true a b c h h' = omega (arith, h, h')
Toward-trans false a b c h h' = omega (arith, h, h')

-- A write that moves an input in the direction of the cascade.
module _ (up : Bool) (key v coupler : ℕ) (a : Manual)
    (toward : Toward up (entry a key coupler) v) where
  row-moves :
      (c : Coupler) (k : ℕ) (l : List (Option Flags))
      → Toward up
          (greatest c 0 (paired (inputs a k) l))
          (greatest c 0 (paired (inputs (store_key key v coupler a) k) l))
        × ((k ≡ key)
            ⊎ (greatest c 0 (paired (inputs a k) l)
                ≡ greatest c 0 (paired (inputs (store_key key v coupler a) k) l)))
  row-moves c k l = elim (inputs-store_key key v coupler k a) [
    | inl e ↦ rw e (Toward-refl up _, inr refl)
    | inr (e, changed) ↦ rw changed (
      greatest-set up c (inputs a k) l coupler v
          (subst (λ n. Toward up (entry a n coupler) v) (sym e) toward),
      inl e,
    )
  ]

-- The input m, key, coupler of the network, where the coupler that it belongs to, if any, sends v.
abbrev pub IsDue : Wiring → (ℕ → ℕ → ℕ) → ℕ → ℕ → ℕ → ℕ → Network → Type 0
IsDue w player m key v coupler net =
    (coupler ≡ 0 → v ≡ player m key)
    × ((i : ℕ)
        → i < w.coupler_count
        → w.destination i ≡ m
        → w.index_in_dest i ≡ coupler
        → (net.couplers i).unison_off ≡ false
        → (net.couplers i).is_engaged ≡ true
        → v ≡ velocity_at (net.couplers i).internal_velocity key - 1)

module _ (w : Wiring) (up : Bool) (limit keys : ℕ) (X : ℕ → ℕ → Type 0) (player : ℕ → ℕ → ℕ)
    (m key v coupler : ℕ) (net : Network) (toward : Toward up (entry (net.manuals m) key coupler) v)
    (le : v ≤ limit) (due : IsDue w player m key v coupler net)
    (c : IsCalmBut w up limit keys X (Slot m key coupler) player net) where
  abbrev a : Manual
  a = net.manuals m

  abbrev a' : Manual
  a' = store_key key v coupler a

  sizes :
      (length a'.velocities_by_coupler ≡ length a.velocities_by_coupler)
      × (length a'.velocity ≡ length a.velocity)
  sizes = store_key-sizes key v coupler a

  row_size : (k : ℕ) → length (inputs a' k) ≡ length (inputs a k)
  row_size k = elim (inputs-store_key key v coupler k a) [
    | inl e ↦ rw e refl
    | inr (e, changed) ↦ rw changed (length-set (inputs a k) coupler v)
  ]

  held : (k : ℕ) → k < length a.velocity → entry a' k 0 ≡ player m k
  held k inside =
      let apart : (k ≢ key) ⊎ (0 ≢ coupler) → entry a' k 0 ≡ player m k = λ ne.
        store_key_other key v coupler k 0 a ne ∙ elim (c.own m k inside) [
          | inl late ↦ elim ne [ inl d ↦ absurd (d late.1) | inr d ↦ absurd (d late.2) ]
          | inr p ↦ p
        ] in
      elim (ℕ_discrete k key) [
        | no d ↦ apart (inl d)
        | yes k' ↦ (elim (ℕ_discrete 0 coupler) [
          | no d ↦ apart (inr d)
          | yes z ↦
              let at : key < length a.velocities_by_coupler = omega (arith, inside, k', c.rows m) in
              let deep' : coupler < length (inputs a key) =
                subst (λ n. coupler < length (inputs a n)) k'
                  (subst (λ n. n < length (inputs a k)) z (c.head m k inside)) in
              ap (entry a' k) z
              ∙ ap (λ n. entry a' n coupler) k'
              ∙ store_key_self key v coupler a at deep'
              ∙ due.0 (sym z)
              ∙ ap (player m) (sym k')
        ])
      ]

  own :
      (n k : ℕ)
      → k < length (write net.manuals m a' n).velocity
      → Nobody n k 0 ⊎ (entry (write net.manuals m a' n) k 0 ≡ player n k)
  own n k =
      write-holds (λ n d. k < length d.velocity → Nobody n k 0 ⊎ (entry d k 0 ≡ player n k))
        net.manuals m a' (λ inside. inr (held k (omega (arith, inside, sizes.1))))
        (λ n ne inside. elim (c.own n k inside) [ inl late ↦ absurd (ne late.0) | inr p ↦ inr p ]) n

  small : (k cp : ℕ) → entry a' k cp ≤ limit
  small k cp = elim (inputs-store_key key v coupler k a) [
    | inl e ↦ rw e (c.small m k cp)
    | inr (e, changed) ↦ rw changed (set_small limit v (inputs a k) coupler le (c.small m k) cp)
  ]

  abbrev taken : ℕ → ℕ → Manual → ℕ
  taken i k d = greatest (net.couplers i) 0 (paired (inputs d k) (w.input_couplers (w.source i)))

  abbrev Old : ℕ → ℕ → ℕ → Type 0
  Old i k n =
      Toward up (velocity_at (net.couplers i).key_velocity k) (taken i k (net.manuals n))
      × (X i k ⊎ (velocity_at (net.couplers i).key_velocity k ≡ taken i k (net.manuals n)))

  abbrev Fits : ℕ → ℕ → ℕ → Manual → Type 0
  Fits i k n d =
      Toward up (velocity_at (net.couplers i).key_velocity k) (taken i k d)
      × ((X i k ⊎ ((w.source i ≡ m) × (k ≡ key)))
          ⊎ (velocity_at (net.couplers i).key_velocity k ≡ taken i k d))

  left_alone : (i k n : ℕ) → Old i k n → Fits i k n (net.manuals n)
  left_alone i k n t = (t.0, elim t.1 [ inl x ↦ inl (inl x) | inr e ↦ inr e ])

  moved : (i k : ℕ) → w.source i ≡ m → Old i k m → Fits i k m a'
  moved i k q t =
      let move =
        row-moves up key v coupler a toward (net.couplers i) k (w.input_couplers (w.source i)) in
      (
        Toward-trans up _ _ _ t.0 move.0,
        elim t.1 [
          | inl x ↦ inl (inl x)
          | inr e ↦ (elim move.1 [ inl k' ↦ inl (inr (q, k')) | inr same ↦ inr (e ∙ same) ])
        ],
      )

  told :
      (i k : ℕ)
      → i < w.coupler_count
      → is_coupled k (net.couplers i) ≡ true
      → Toward up (velocity_at (net.couplers i).key_velocity k) (
          greatest (net.couplers i) 0 (
            paired
              (inputs (write net.manuals m a' (w.source i)) k)
              (w.input_couplers (w.source i))))
        × ((X i k ⊎ ((w.source i ≡ m) × (k ≡ key)))
            ⊎ (velocity_at (net.couplers i).key_velocity k
                ≡ greatest (net.couplers i) 0 (
                    paired
                      (inputs (write net.manuals m a' (w.source i)) k)
                      (w.input_couplers (w.source i)))))
  unfolding coupled_velocity
  told i k lt r =
      write-holds (λ n d. w.source i ≡ n → Fits i k n d) net.manuals m a'
        (λ q. moved i k q (subst (Old i k) q (c.told i k lt r)))
        (λ n ne q. left_alone i k n (subst (Old i k) q (c.told i k lt r))) (w.source i) refl

  deep :
      (n i k : ℕ)
      → i < w.coupler_count
      → w.destination i ≡ n
      → k < length (write net.manuals m a' n).velocity
      → w.index_in_dest i < length (inputs (write net.manuals m a' n) k)
  deep n i k lt =
      write-holds
        (λ n d.
          w.destination i ≡ n → k < length d.velocity → w.index_in_dest i < length (inputs d k))
        net.manuals m a'
        (λ q inside.
          let was : w.index_in_dest i < length (inputs a k) =
            subst
              (λ n.
                k < length (net.manuals n).velocity
                → w.index_in_dest i < length (inputs (net.manuals n) k))
              q (c.deep i k lt) (omega (arith, inside, sizes.1)) in
          rw (row_size k) was)
        (λ n ne q.
          subst
            (λ n.
              k < length (net.manuals n).velocity
              → w.index_in_dest i < length (inputs (net.manuals n) k))
            q (c.deep i k lt))
        n

  abbrev Heard : ℕ → ℕ → ℕ → Type 0
  Heard i j n =
      j < length (net.manuals n).velocity
      → Slot m key coupler n j (w.index_in_dest i)
        ⊎ (entry (net.manuals n) j (w.index_in_dest i)
            ≡ velocity_at (net.couplers i).internal_velocity j - 1)

  written :
      (i j : ℕ)
      → i < w.coupler_count
      → (net.couplers i).unison_off ≡ false
      → (net.couplers i).is_engaged ≡ true
      → w.destination i ≡ m
      → j < length a.velocity
      → entry a' j (w.index_in_dest i) ≡ velocity_at (net.couplers i).internal_velocity j - 1
  written i j lt u e q inside =
      let was = subst (Heard i j) q (c.sent i j lt u e) inside in
      let apart : (j ≢ key) ⊎ (w.index_in_dest i ≢ coupler)
          → entry a' j (w.index_in_dest i) ≡ velocity_at (net.couplers i).internal_velocity j - 1 =
        λ ne. store_key_other key v coupler j (w.index_in_dest i) a ne ∙ elim was [
          | inl late ↦ elim ne [ inl d ↦ absurd (d late.1) | inr d ↦ absurd (d late.2) ]
          | inr p ↦ p
        ] in
      elim (ℕ_discrete j key) [
        | no d ↦ apart (inl d)
        | yes j' ↦ (elim (ℕ_discrete (w.index_in_dest i) coupler) [
          | no d ↦ apart (inr d)
          | yes n' ↦
              let row : w.index_in_dest i < length (inputs a j) =
                subst
                  (λ n.
                    j < length (net.manuals n).velocity
                    → w.index_in_dest i < length (inputs (net.manuals n) j))
                  q (c.deep i j lt) inside in
              let at : key < length a.velocities_by_coupler = omega (arith, inside, j', c.rows m) in
              let deep' : coupler < length (inputs a key) =
                subst (λ n. coupler < length (inputs a n)) j'
                  (subst (λ n. n < length (inputs a j)) n' row) in
              rw (j', n', store_key_self key v coupler a at deep', due.1 i lt q n' u e) refl
        ])
      ]

  sent :
      (n i j : ℕ)
      → i < w.coupler_count
      → w.destination i ≡ n
      → (net.couplers i).unison_off ≡ false
      → (net.couplers i).is_engaged ≡ true
      → j < length (write net.manuals m a' n).velocity
      → Nobody n j (w.index_in_dest i)
        ⊎ (entry (write net.manuals m a' n) j (w.index_in_dest i)
            ≡ velocity_at (net.couplers i).internal_velocity j - 1)
  sent n i j lt to u e =
      write-holds
        (λ n d.
          w.destination i ≡ n
          → j < length d.velocity
          → Nobody n j (w.index_in_dest i)
            ⊎ (entry d j (w.index_in_dest i)
                ≡ velocity_at (net.couplers i).internal_velocity j - 1))
        net.manuals m a' (λ q inside. inr (written i j lt u e q (omega (arith, inside, sizes.1))))
        (λ n ne q inside. elim (subst (Heard i j) q (c.sent i j lt u e) inside) [
          | inl late ↦ absurd (ne late.0)
          | inr p ↦ inr p
        ])
        n to

  -- The write of the input that is due: the key is then still to be told to the couplers.
  pub put_manual-IsCalmBut :
      IsCalmBut w up limit keys
        (λ j k. X j k ⊎ ((w.source j ≡ m) × (k ≡ key)))
        Nobody
        player
        (put_manual m a' net)
  unfolding coupled_velocity
  put_manual-IsCalmBut = record {
    normal = c.normal;
    told = told;
    kept = c.kept;
    sent = λ i j lt u e. sent (w.destination i) i j lt refl u e;
    low = c.low;
    wide = c.wide;
    own = own;
    head =
        write-holds (λ n d. (k : ℕ) → k < length d.velocity → 0 < length (inputs d k)) net.manuals m
          a' (λ k inside. rw (row_size k) (c.head m k (omega (arith, inside, sizes.1))))
          (λ n ne. c.head n);
    small =
        write-holds (λ n d. (k cp : ℕ) → entry d k cp ≤ limit) net.manuals m a' small
          (λ n ne. c.small n);
    rows =
        write-holds (λ n d. length d.velocities_by_coupler ≡ length d.velocity) net.manuals m a'
          (sizes.0 ∙ c.rows m ∙ sym sizes.1) (λ n ne. c.rows n);
    deep = λ i k lt. deep (w.destination i) i k lt refl;
  }
