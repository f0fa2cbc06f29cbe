-- ===== src/Network/Settling.antt =====
-- A cascade of calls ends, and leaves the network calm.
use grandorgue.Prelude.{
  ℕ, ◌-◌, ◌<◌, ◌≤◌, Bool, true, false, length, ◌≡◌, ◌≢◌, ◌⊎◌, inl, inr, refl, ap, sym, ◌∙◌, arith,
  Bool-cases, subst,
}
use grandorgue.Prelude.Int.{pos, ◌+ℤ◌, eq_ℤ}
use grandorgue.Couplers.{Coupler, velocity_at, Calls, set_out}
use grandorgue.Network.{
  Wiring, Network, Teller, write, put_coupler, send, deliver, change_key, is_coupled,
  coupled_velocity,
}
use grandorgue.Network.Weights.{Toward, weight_of, weight_of-put}
use grandorgue.Network.Rows.{entry, greatest_limit}
use grandorgue.Network.Calm.{IsWired, hits, IsCalmBut, IsKeySet}
use grandorgue.Network.Calm.Writes.{put_coupler-IsCalmBut}
use grandorgue.Network.Calm.Stores.{Slot, Nobody, IsDue}
use grandorgue.Network.Notes.{noted, noted-IsKeySet, set_out_lem, Does}
use grandorgue.Network.Delivery.{
  Returns, Returns-map, change_key_lem, change_key_silent, write_self, deliver_lem, send_one,
  send_none,
}

module _ (w : Wiring) (wired : IsWired w) (up : Bool) (limit keys : ℕ) (player : ℕ → ℕ → ℕ) where
  -- Calm but for X, and no heavier than it was.
  abbrev pub Done : (ℕ → ℕ → Type 0) → Network → Network → Type 0
  Done X before net =
      IsCalmBut w up limit keys X Nobody player net
      × (weight_of w up limit net ≤ weight_of w up limit before)

  -- What a teller does to lighter networks.
  abbrev pub IsTeller : ℕ → Teller → Type 1
  IsTeller bound tell =
      (X : ℕ → ℕ → Type 0) (m key v coupler : ℕ) (net : Network)
      → IsCalmBut w up limit keys X (Slot m key coupler) player net
      → IsDue w player m key v coupler net
      → (key < length (net.manuals m).velocity → Toward up (entry (net.manuals m) key coupler) v)
      → v ≤ limit
      → weight_of w up limit net < bound
      → Returns (Done X net) (tell m key v coupler net)

  Toward-pred : (a b : ℕ) → Toward up a b → Toward up (a - 1) (b - 1)
  Toward-pred a b h = by_way up h
    where
      by_way : (d : Bool) → Toward d a b → Toward d (a - 1) (b - 1)
      by_way true h = omega (arith, h)
      by_way false h = omega (arith, h)

  coupled-inside :
      (note : ℕ) (c : Coupler) → is_coupled note c ≡ true → note < length c.key_velocity
  coupled-inside note c h = ground (arith, h)

  same_note :
      (c : Coupler) (note n j : ℕ) → hits note c n ≡ true → pos note +ℤ c.keyshift ≡ pos j → n ≡ j
  same_note c note n j hit to =
      let hit' : eq_ℤ (pos j) (pos n) ≡ true = subst (λ z. eq_ℤ z (pos n) ≡ true) to hit in
      ground (arith, hit')

  module _ (tell : Teller) (bound : ℕ) (teller : IsTeller bound tell) (X : ℕ → ℕ → Type 0)
      (i note : ℕ) (net : Network) (lt : i < w.coupler_count)
      (coupled : is_coupled note (net.couplers i) ≡ true)
      (calm : IsCalmBut w up limit keys
        (λ j k. X j k ⊎ ((j ≡ i) × (k ≡ note)))
        Nobody
        player
        net) where
    abbrev old : Coupler
    old = net.couplers i

    abbrev taken : ℕ
    taken = coupled_velocity w i note net

    taken_limit : taken ≤ limit
    unfolding coupled_velocity
    taken_limit = greatest_limit old limit _ _ (calm.small (w.source i) note)

    -- The call that the coupler makes of its destination.
    calling :
        (j : ℕ) (c' : Coupler)
        → old.unison_off ≡ false
        → velocity_at old.key_velocity note ≢ taken
        → weight_of w up limit net ≤ bound
        → IsKeySet old note taken c'
        → old.is_engaged ≡ true
        → pos note +ℤ old.keyshift ≡ pos j
        → j < length old.internal_velocity
        → Returns
            (Done X net)
            (tell (w.destination i) j (taken - 1) (w.index_in_dest i) (put_coupler i c' net))
    calling j c' u ne light s on to inside =
        let hit : hits note old j ≡ true =
          let self : eq_ℤ (pos j) (pos j) ≡ true = ground arith in
          ap (λ z. eq_ℤ z (pos j)) to ∙ self in
        let move = (calm.told i note lt coupled).0 in
        let at_once =
          put_coupler-IsCalmBut {L' = Slot (w.destination i) j (w.index_in_dest i)} i note c' net lt
            coupled taken_limit s (λ n u e hit'. inl (refl, same_note old note n j hit' to, refl))
            (λ m k n e. absurd e) calm in
        let lighter =
          weight_of-put w up limit i note taken c' net lt s.keys (coupled-inside note old coupled)
            move ne taken_limit in
        Returns-map (Done X (put_coupler i c' net)) (Done X net) _
          (λ n d. (d.0, omega (arith, d.1, lighter)))
          (teller X (w.destination i) j (taken - 1) (w.index_in_dest i) (put_coupler i c' net)
            at_once (due j c' (s.at j u hit inside))
            (λ within.
              toward j (calm.sent i j lt u on within) (calm.kept i note j lt u coupled hit inside)
                move)
            (omega (arith, taken_limit)) (omega (arith, lighter, light)))
      where
        due :
            (j : ℕ) (c' : Coupler)
            → velocity_at c'.internal_velocity j ≡ taken
            → IsDue w player
                (w.destination i)
                j
                (taken - 1)
                (w.index_in_dest i)
                (put_coupler i c' net)
        due j c' at = (
          λ z. absurd (let p = wired.not_player i lt in omega (arith, z, p)),
          λ k klt to n u e.
              let same = wired.apart k i klt lt to n in
              ap (λ x. x - 1)
                (sym at
                  ∙ sym (
                      ap (λ c. velocity_at c.internal_velocity j)
                        (ap (write net.couplers i c') same ∙ write_self net.couplers i c'))),
        )

        toward :
            (j : ℕ)
            → ⊥
              ⊎ (entry (net.manuals (w.destination i)) j (w.index_in_dest i)
                  ≡ velocity_at old.internal_velocity j - 1)
            → velocity_at old.internal_velocity j ≡ velocity_at old.key_velocity note
            → Toward up (velocity_at old.key_velocity note) taken
            → Toward up (entry (net.manuals (w.destination i)) j (w.index_in_dest i)) (taken - 1)
        toward j (inl e) kept move = absurd e
        toward j (inr e) kept move = rw (e, kept) (Toward-pred _ taken move)

    -- `SetKey` once it has found a new velocity.
    pub told_anew :
        velocity_at old.key_velocity note ≢ taken
        → weight_of w up limit net ≤ bound
        → Returns
            (Done X net)
            (change_key w tell i note taken (put_coupler i (noted note taken old) net))
    told_anew ne light = elim (Bool-cases old.unison_off) [
      | inl u ↦
          subst (Returns (Done X net))
            (sym (change_key_silent w tell i note taken _ (ap (λ c. c.unison_off) self ∙ u)))
            (done (noted note taken old)
              (noted-IsKeySet note taken old (λ j v. absurd (cc (sym u ∙ v))))
              (λ j v. absurd (cc (sym u ∙ v))))
      | inr u ↦
          subst (Returns (Done X net))
            (sym (
              change_key_lem w tell i note taken _ (ap (λ c. c.unison_off) self ∙ u)
                (ap (λ c. c.coupler_type) self ∙ calm.normal i lt)
              ∙ ap
                  (λ (c : Coupler).
                    deliver w tell i (pos note +ℤ c.keyshift) taken
                      (put_coupler i (noted note taken old) net))
                  self
              ∙ deliver_lem w tell i taken (pos note +ℤ old.keyshift) (noted note taken old) net))
            (outcome u (set_out_lem note taken old))
    ]
      where
        self : write net.couplers i (noted note taken old) i ≡ noted note taken old
        self = write_self net.couplers i (noted note taken old)

        r : Coupler × Calls
        r = set_out (pos note +ℤ old.keyshift) taken (noted note taken old)

        done :
            (c' : Coupler)
            → IsKeySet old note taken c'
            → ((j : ℕ)
                → old.unison_off ≡ false
                → old.is_engaged ≡ true
                → hits note old j ≡ true
                → velocity_at c'.internal_velocity j ≡ velocity_at old.internal_velocity j)
            → Done X net (put_coupler i c' net)
        done c' s same = (
          put_coupler-IsCalmBut {L' = Nobody} i note c' net lt coupled taken_limit s
              (λ j u on hit. inr (same j u on hit)) (λ m k n e. absurd e) calm,
          let lighter =
                weight_of-put w up limit i note taken c' net lt s.keys
                  (coupled-inside note old coupled) (calm.told i note lt coupled).0 ne
                  taken_limit in
              omega (arith, lighter),
        )

        outcome :
            old.unison_off ≡ false
            → Does note taken old r
            → Returns (Done X net) (send w tell i r.1 (put_coupler i r.0 net))
        outcome u (inl (e, s, same)) =
            subst (λ cs. Returns (Done X net) (send w tell i cs (put_coupler i r.0 net))) (sym e)
              (subst (Returns (Done X net)) (sym (send_none w tell i (put_coupler i r.0 net)))
                (done r.0 s (λ j u on hit. same j on hit)))
        outcome u (inr (j, q)) =
            subst (λ cs. Returns (Done X net) (send w tell i cs (put_coupler i r.0 net)))
              (sym q.calls)
              (subst (Returns (Done X net))
                (sym (send_one w tell i j (taken - 1) (put_coupler i r.0 net)))
                (calling j r.0 u ne light q.key_set q.engaged q.goes_to q.inside))
