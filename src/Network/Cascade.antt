-- ===== src/Network/Cascade.antt =====
-- All calls that follow from one call of `SetKeyState` of src/grandorgue/model/GOManual.cpp.
use grandorgue.Prelude.{
  ℕ, zero, suc, ◌+◌, ◌<◌, ◌≤◌, Bool, true, false, some, [], length, ◌==◌, ◌≡◌, ◌⊎◌, inl, inr, refl,
  ap, sym, ◌∙◌, arith, Bool-cases, ==_iff, if◌then◌else◌, subst,
}
use grandorgue.Manuals.{store_key, is_news, announce}
use grandorgue.Manuals.Keys.{announce_lem}
use grandorgue.Couplers.{velocity_at}
use grandorgue.Network.{
  Wiring, Network, Teller, put_manual, ◌>>=◌, is_coupled, coupled_velocity, set_key, propagate_key,
  set_key_state,
}
use grandorgue.Network.Weights.{weight_of}
use grandorgue.Network.Calm.{IsWired, IsCalmBut, IsCalmBut-weaken}
use grandorgue.Network.Calm.Quiet.{old_news-IsCalmBut, put_manual-same}
use grandorgue.Network.Calm.Stores.{Nobody, put_manual-IsCalmBut}
use grandorgue.Network.Delivery.{Returns, Returns-bind, Returns-map}
use grandorgue.Network.Settling.{Done, IsTeller, told_anew}

set_key_state_old :
    (w : Wiring) (fuel m key v coupler : ℕ) (net : Network)
    → is_news key v coupler (net.manuals m) ≡ false
    → set_key_state w (suc fuel) m key v coupler net ≡ some net
unfolding set_key_state
set_key_state_old w fuel m key v coupler net h = rw (h, set_key_state) refl

set_key_state_news :
    (w : Wiring) (fuel m key v coupler : ℕ) (net : Network)
    → is_news key v coupler (net.manuals m) ≡ true
    → set_key_state w (suc fuel) m key v coupler net ≡ (
        propagate_key w
          (set_key_state w fuel)
          m
          key
          w.coupler_count
          0
          (put_manual m (store_key key v coupler (net.manuals m)) net)
        >>= (λ n. some (put_manual m (announce key (n.manuals m, [])).0 n)))
unfolding set_key_state
set_key_state_news w fuel m key v coupler net h = rw (h, set_key_state) refl

module _ (w : Wiring) (wired : IsWired w) (up : Bool) (limit keys : ℕ) (player : ℕ → ℕ → ℕ) where
  -- The key of the manual is still to be told to the couplers from the i-th on.
  abbrev Ahead : (ℕ → ℕ → Type 0) → ℕ → ℕ → ℕ → ℕ → ℕ → Type 0
  Ahead X m key i j k = X j k ⊎ ((i ≤ j) × (w.source j ≡ m) × (k ≡ key))

  module _ (tell : Teller) (bound : ℕ)
      (teller : IsTeller w wired up limit keys player bound tell) where
    set_key-Done :
        (X : ℕ → ℕ → Type 0) (i note : ℕ) (net : Network)
        → i < w.coupler_count
        → IsCalmBut w up limit keys (λ j k. X j k ⊎ ((j ≡ i) × (k ≡ note))) Nobody player net
        → weight_of w up limit net ≤ bound
        → Returns (Done w wired up limit keys player X net) (set_key w tell i note net)
    unfolding set_key
    set_key-Done X i note net lt calm light = elim (Bool-cases (is_coupled note (net.couplers i))) [
      | inr out ↦ rw out (
        IsCalmBut-weaken
            (λ j k jlt r x. elim x [
              | inl y ↦ inl y
              | inr (e, e') ↦ absurd (
                  cc (
                    sym out
                    ∙ ap (λ n. is_coupled n (net.couplers i)) (sym e')
                    ∙ ap (λ n. is_coupled k (net.couplers n)) (sym e)
                    ∙ r))
            ])
            calm,
        omega arith,
      )
      | inl inside ↦
          rw inside
            (elim (Bool-cases
              (velocity_at (net.couplers i).key_velocity note == coupled_velocity w i note net)) [
                | inl same ↦ rw same (
                  IsCalmBut-weaken
                      (λ j k jlt r x. elim x [
                        | inl y ↦ inl y
                        | inr (e, e') ↦ inr (rw (e, e') ((==_iff _ _).0 same))
                      ])
                      calm,
                  omega arith,
                )
                | inr news ↦ rw news (
                    told_anew w wired up limit keys player tell bound teller X i note net lt inside
                      calm (λ q. absurd (ground (arith, q, news))) light)
              ])
    ]

    propagate_key-Done :
        (X : ℕ → ℕ → Type 0) (m key left i : ℕ) (net : Network)
        → left + i ≡ w.coupler_count
        → IsCalmBut w up limit keys (Ahead X m key i) Nobody player net
        → weight_of w up limit net ≤ bound
        → Returns (Done w wired up limit keys player X net) (propagate_key w tell m key left i net)
    unfolding propagate_key
    propagate_key-Done X m key zero i net size calm light = (
      IsCalmBut-weaken
          (λ j k jlt r x. elim x [
            | inl y ↦ inl y
            | inr (le, s, e) ↦ absurd (omega (arith, le, jlt, size))
          ])
          calm,
      omega arith,
    )
    propagate_key-Done X m key (suc left) i net size calm light =
        Returns-bind (Done w wired up limit keys player (Ahead X m key (suc i)) net)
          (Done w wired up limit keys player X net)
          (if w.source i == m then set_key w tell i key net else some net)
          (propagate_key w tell m key left (suc i)) first
          (λ n d.
            Returns-map (Done w wired up limit keys player X n)
              (Done w wired up limit keys player X net) _
              (λ n' d'. (d'.0, omega (arith, d.1, d'.1)))
              (propagate_key-Done X m key left (suc i) n (omega (arith, size)) d.0
                (omega (arith, d.1, light))))
      where
        here :
            (j k : ℕ)
            → Ahead X m key i j k
            → Ahead X m key (suc i) j k ⊎ ((j ≡ i) × (w.source j ≡ m) × (k ≡ key))
        here j k (inl x) = inl (inl x)
        here j k (inr (le, s, e)) = elim (Bool-cases (j == i)) [
          | inl q ↦ inr ((==_iff j i).0 q, s, e)
          | inr q ↦ inl (inr (ground (arith, q, le), s, e))
        ]

        first :
            Returns
              (Done w wired up limit keys player (Ahead X m key (suc i)) net)
              (if w.source i == m then set_key w tell i key net else some net)
        first = elim (Bool-cases (w.source i == m)) [
          | inl q ↦ rw q (
              set_key-Done (Ahead X m key (suc i)) i key net (omega (arith, size))
                (IsCalmBut-weaken
                  (λ j k jlt r x. elim (here j k x) [
                    | inl y ↦ inl (inl y)
                    | inr (e, s, e') ↦ inl (inr (e, e'))
                  ])
                  calm)
                light)
          | inr q ↦ rw q (
            IsCalmBut-weaken
                (λ j k jlt r x. elim (here j k x) [
                  | inl y ↦ inl y
                  | inr (e, s, e') ↦ absurd (
                      let other : w.source i ≡ m = ap w.source (sym e) ∙ s in
                      ground (arith, q, other))
                ])
                calm,
            omega arith,
          )
        ]

  pub set_key_state-IsTeller :
      (fuel : ℕ) → IsTeller w wired up limit keys player fuel (set_key_state w fuel)
  unfolding set_key_state
  set_key_state-IsTeller zero X m key v coupler net calm due toward le light =
      absurd (omega (arith, light))
  set_key_state-IsTeller (suc fuel) X m key v coupler net calm due toward le light =
      elim (Bool-cases (is_news key v coupler (net.manuals m))) [
        | inr old ↦
            subst (Returns (Done w wired up limit keys player X net))
              (sym (set_key_state_old w fuel m key v coupler net old))
              (old_news-IsCalmBut m key v coupler net old due calm, omega arith)
        | inl news ↦
            let stored : Network = put_manual m (store_key key v coupler (net.manuals m)) net in
            let within : key < length (net.manuals m).velocity = ground (arith, news) in
            let calm' =
              put_manual-IsCalmBut w up limit keys X player m key v coupler net (toward within) le
                due calm in
            subst (Returns (Done w wired up limit keys player X net))
              (sym (set_key_state_news w fuel m key v coupler net news))
              (Returns-bind (Done w wired up limit keys player X net)
                (Done w wired up limit keys player X net)
                (propagate_key w (set_key_state w fuel) m key w.coupler_count 0 stored)
                (λ n. some (put_manual m (announce key (n.manuals m, [])).0 n))
                (propagate_key-Done (set_key_state w fuel) fuel (set_key_state-IsTeller fuel) X m
                  key w.coupler_count 0 stored (omega arith)
                  (IsCalmBut-weaken
                    (λ j k jlt r x. elim x [
                      | inl y ↦ inl (inl y)
                      | inr (s, e) ↦ inl (inr (omega arith, s, e))
                    ])
                    calm')
                  (omega (arith, light)))
                (λ n d. (told n d.0, d.1)))
      ]
    where
      told :
          (n : Network)
          → IsCalmBut w up limit keys X Nobody player n
          → IsCalmBut w up limit keys X Nobody player
              (put_manual m (announce key (n.manuals m, [])).0 n)
      told n c =
          let e = announce_lem key (n.manuals m) [] in
          put_manual-same m (announce key (n.manuals m, [])).0 n
            (ap (λ a. a.velocities_by_coupler) e) (ap (λ a. length a.velocity) e) c
