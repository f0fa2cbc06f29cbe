-- ===== src/Network/Calm/Writes.antt =====
-- The write of a coupler that is told of a key, as part of a cascade of calls.
use grandorgue.Prelude.{
  ◌≤◌, length-set, ℕ, ◌-◌, ◌<◌, Bool, true, false, length, set, ◌==◌, ◌≡◌, ◌≢◌, ◌⊎◌, inl, inr, refl,
  ap, sym, ◌∙◌, arith, Bool-cases, ==_iff, get_or-set_self, get_or-set_ne,
}
use grandorgue.Couplers.{Coupler, coupler_normal, velocity_at}
use grandorgue.Network.{Wiring, Network, is_coupled, coupled_velocity, put_coupler, write}
use grandorgue.Network.Weights.{Toward}
use grandorgue.Network.Rows.{set_small, entry, greatest-same}
use grandorgue.Network.Calm.{hits, hits-one, IsCalmBut, IsKeySet}

-- A property of a function that is written at one place.
pub write-holds {ℓ κ} :
    {A : Type ℓ} (P : ℕ → A → Type κ) (f : ℕ → A) (i : ℕ) (a : A)
    → P i a
    → ((j : ℕ) → j ≢ i → P j (f j))
    → (j : ℕ) → P j (write f i a j)
write-holds P f i a here there j = elim (Bool-cases (j == i)) [
  | inl e ↦ rw (e, (==_iff j i).0 e) here
  | inr e ↦ rw e (there j (λ q. absurd (ground (arith, q, e))))
]

pub Toward-refl : (up : Bool) (a : ℕ) → Toward up a a
Toward-refl true a = omega arith
Toward-refl false a = omega arith

-- What a coupler takes does not depend on what it keeps.
coupled_velocity-put :
    (w : Wiring) (i j k : ℕ) (note v : ℕ) (c' : Coupler) (net : Network)
    → IsKeySet (net.couplers i) note v c'
    → coupled_velocity w j k (put_coupler i c' net) ≡ coupled_velocity w j k net
unfolding coupled_velocity
coupled_velocity-put w i j k note v c' net s = elim (Bool-cases (j == i)) [
  | inr e ↦ rw e refl
  | inl e ↦ rw (e, (==_iff j i).0 e) (greatest-same (net.couplers i) c' 0 _ s.same_follow)
]

-- Each part of the invariant, as it says something of one coupler.
abbrev Told : Bool → (ℕ → Type 0) → ℕ → ℕ → Coupler → Type 0
Told up X v k c =
    is_coupled k c ≡ true
    → Toward up (velocity_at c.key_velocity k) v × (X k ⊎ (velocity_at c.key_velocity k ≡ v))

abbrev Kept : ℕ → ℕ → Coupler → Type 0
Kept k n c =
    c.unison_off ≡ false
    → is_coupled k c ≡ true
    → hits k c n ≡ true
    → n < length c.internal_velocity
    → velocity_at c.internal_velocity n ≡ velocity_at c.key_velocity k

abbrev Sent : Type 0 → ℕ → ℕ → Coupler → Type 0
Sent late heard n c =
    c.unison_off ≡ false
    → c.is_engaged ≡ true
    → late ⊎ (heard ≡ velocity_at c.internal_velocity n - 1)

module _ {c c' : Coupler} {note v : ℕ} (s : IsKeySet c note v c') where
  coupled-inside : is_coupled note c ≡ true → note < length c.key_velocity
  coupled-inside h = ground (arith, h)

  set-Told :
      (up : Bool) (X : ℕ → Type 0) (k : ℕ) (u : ℕ)
      → is_coupled note c ≡ true
      → (k ≡ note → u ≡ v)
      → Told up (λ n. X n ⊎ (n ≡ note)) u k c
      → Told up X u k c'
  set-Told up X k u coupled now told r = elim (Bool-cases (k == note)) [
    | inl e ↦
        let e' : k ≡ note = (==_iff k note).0 e in
        let self : velocity_at (set c.key_velocity note v) note ≡ v =
          get_or-set_self c.key_velocity note v 0 (coupled-inside coupled) in
        rw (s.keys, e', self, now e') (Toward-refl up v, inr refl)
    | inr e ↦
        let ne : note ≢ k = λ q. absurd (ground (arith, q, e)) in
        let t = told (sym (s.same_range k) ∙ r) in
        rw (s.keys, get_or-set_ne c.key_velocity note k v 0 ne)
          (
            t.0,
            elim t.1 [ inl (inl x) ↦ inl x | inl (inr q) ↦ absurd (ne (sym q)) | inr q ↦ inr q ],
          )
  ]

  set-Kept : (k n : ℕ) → is_coupled note c ≡ true → Kept k n c → Kept k n c'
  set-Kept k n coupled kept u r hit inside =
      let u' = sym s.same_unison ∙ u in
      let r' = sym (s.same_range k) ∙ r in
      let hit' : hits k c n ≡ true = rw (← s.same_shift) hit in
      let inside' : n < length c.internal_velocity = omega (arith, inside, s.same_length) in
      elim (Bool-cases (hits note c n)) [
        | inl e ↦
            let e' : k ≡ note = hits-one k note n c hit' e in
            let self : velocity_at (set c.key_velocity note v) note ≡ v =
              get_or-set_self c.key_velocity note v 0 (coupled-inside coupled) in
            rw (s.at n u' e inside', s.keys, e', self) refl
        | inr e ↦
            let ne : note ≢ k = λ q. absurd (cc (sym e ∙ ap (λ z. hits z c n) q ∙ hit')) in
            rw (s.others n e, s.keys, get_or-set_ne c.key_velocity note k v 0 ne)
              (kept u' r' hit' inside')
      ]

  set-Sent :
      (late late' : Type 0) (heard n : ℕ)
      → (late → late')
      → (c.unison_off ≡ false
          → c.is_engaged ≡ true
          → hits note c n ≡ true
          → late' ⊎ (velocity_at c'.internal_velocity n ≡ velocity_at c.internal_velocity n))
      → Sent late heard n c
      → Sent late' heard n c'
  set-Sent late late' heard n more due sent u e =
      let u' = sym s.same_unison ∙ u in
      let e' = sym s.same_engaged ∙ e in
      let same : velocity_at c'.internal_velocity n ≡ velocity_at c.internal_velocity n
          → late' ⊎ (heard ≡ velocity_at c'.internal_velocity n - 1) =
        λ q. elim (sent u' e') [ inl x ↦ inl (more x) | inr p ↦ inr (rw q p) ] in
      elim (Bool-cases (hits note c n)) [
        | inr miss ↦ same (s.others n miss)
        | inl hit ↦ (elim (due u' e' hit) [ inl x ↦ inl x | inr q ↦ same q ])
      ]

-- The coupler i is told of its key: it is done but for the write in the manual that it leads to.
pub put_coupler-IsCalmBut :
    {w : Wiring} {up : Bool} {limit keys : ℕ} {X : ℕ → ℕ → Type 0} {L L' : ℕ → ℕ → ℕ → Type 0}
    {player : ℕ → ℕ → ℕ} (i note : ℕ) (c' : Coupler) (net : Network)
    → i < w.coupler_count
    → is_coupled note (net.couplers i) ≡ true
    → coupled_velocity w i note net ≤ limit
    → IsKeySet (net.couplers i) note (coupled_velocity w i note net) c'
    → ((j : ℕ)
        → (net.couplers i).unison_off ≡ false
        → (net.couplers i).is_engaged ≡ true
        → hits note (net.couplers i) j ≡ true
        → L' (w.destination i) j (w.index_in_dest i)
          ⊎ (velocity_at c'.internal_velocity j ≡ velocity_at (net.couplers i).internal_velocity j))
    → ((m j n : ℕ) → L m j n → L' m j n)
    → IsCalmBut w up limit keys (λ j k. X j k ⊎ ((j ≡ i) × (k ≡ note))) L player net
    → IsCalmBut w up limit keys X L' player (put_coupler i c' net)
put_coupler-IsCalmBut {w} {up} {limit} {keys} {X} {L} {L'} {player} i note c' net lt coupled le s
      late more c =
    record {
      normal =
          write-holds (λ j d. j < w.coupler_count → d.coupler_type ≡ coupler_normal) net.couplers i
            c' (λ h. s.same_type ∙ c.normal i lt) (λ j ne h. c.normal j h);
      told = λ j k h. rw (coupled_velocity-put w i j k note _ c' net s) (told j k h);
      kept = λ j k n h.
          write-holds (λ j d. j < w.coupler_count → Kept k n d) net.couplers i c'
            (λ h. set-Kept s k n coupled (c.kept i k n lt)) (λ j ne h. c.kept j k n h) j h;
      sent = λ j n h u e inside. sent j n h inside u e;
      low = λ j k.
          write-holds (λ j (d : Coupler). velocity_at d.key_velocity k ≤ limit) net.couplers i c'
            (rw s.keys (set_small limit _ (net.couplers i).key_velocity note le (c.low i) k))
            (λ j ne. c.low j k) j;
      wide = λ j.
          write-holds (λ j (d : Coupler). length d.key_velocity ≤ keys) net.couplers i c'
            (rw (s.keys, length-set (net.couplers i).key_velocity note _) (c.wide i))
            (λ j ne. c.wide j) j;
      own = λ m k h. elim (c.own m k h) [ inl x ↦ inl (more m k 0 x) | inr q ↦ inr q ];
      small = c.small;
      rows = c.rows;
      head = c.head;
      deep = c.deep;
    }
  where
    told :
        (j k : ℕ)
        → j < w.coupler_count
        → Told up (X j) (coupled_velocity w j k net) k (write net.couplers i c' j)
    told j k h =
        write-holds (λ j d. j < w.coupler_count → Told up (X j) (coupled_velocity w j k net) k d)
          net.couplers i c'
          (λ h.
            set-Told s up (X i) k (coupled_velocity w i k net) coupled
              (λ e. ap (λ n. coupled_velocity w i n net) e)
              (λ r. (
                (c.told i k lt r).0,
                elim (c.told i k lt r).1 [
                  | inl (inl x) ↦ inl (inl x)
                  | inl (inr q) ↦ inl (inr q.1)
                  | inr q ↦ inr q
                ],
              )))
          (λ j ne h r. (
            (c.told j k h r).0,
            elim (c.told j k h r).1 [
              | inl (inl x) ↦ inl x
              | inl (inr q) ↦ absurd (ne q.0)
              | inr q ↦ inr q
            ],
          ))
          j h

    sent :
        (j n : ℕ)
        → j < w.coupler_count
        → n < length (net.manuals (w.destination j)).velocity
        → Sent
            (L' (w.destination j) n (w.index_in_dest j))
            (entry (net.manuals (w.destination j)) n (w.index_in_dest j))
            n
            (write net.couplers i c' j)
    sent j n h inside =
        write-holds
          (λ j d.
            j < w.coupler_count
            → n < length (net.manuals (w.destination j)).velocity
            → Sent (L' (w.destination j) n (w.index_in_dest j))
                (entry (net.manuals (w.destination j)) n (w.index_in_dest j)) n d)
          net.couplers i c'
          (λ h inside. set-Sent s _ _ _ n (more _ _ _) (late n) (λ u e. c.sent i n lt u e inside))
          (λ j ne h inside u e. elim (c.sent j n h u e inside) [
            | inl x ↦ inl (more _ _ _ x)
            | inr q ↦ inr q
          ])
          j h inside
