-- ===== src/Network/Calm/Quiet.antt =====
-- Calls of `SetKeyState` that change no input, as part of a cascade.
use grandorgue.Prelude.{ℕ, ◌<◌, Bool, false, length, ◌≡◌, inr, refl, ap, sym, ◌∙◌, arith, subst}
use grandorgue.Manuals.{Manual, is_news}
use grandorgue.Network.{Wiring, Network, coupled_velocity, put_manual, write}
use grandorgue.Network.Rows.{entry}
use grandorgue.Network.Calm.{IsCalmBut, IsCalmBut-written}
use grandorgue.Network.Calm.Writes.{write-holds}
use grandorgue.Network.Calm.Stores.{Slot, Nobody, IsDue}

module _ {w : Wiring} {up : Bool} {limit keys : ℕ} {X : ℕ → ℕ → Type 0} {player : ℕ → ℕ → ℕ} where
  -- `SetKeyState` returns at once: the input is already what it is to be.
  pub old_news-IsCalmBut :
      (m key v coupler : ℕ) (net : Network)
      → is_news key v coupler (net.manuals m) ≡ false
      → IsDue w player m key v coupler net
      → IsCalmBut w up limit keys X (Slot m key coupler) player net
      → IsCalmBut w up limit keys X Nobody player net
  old_news-IsCalmBut m key v coupler net old due c =
      IsCalmBut-written
        (λ i j lt u e inside late. inr (
          rw (late.0, late.1, late.2, same late.0 late.1 inside, due.1 i lt late.0 late.2 u e)
            refl))
        (λ n k inside late.
          let same' = same late.0 late.1 inside in
          inr (
            rw (late.0, late.1)
              (ap (entry (net.manuals m) key) late.2 ∙ same' ∙ due.0 (sym late.2))))
        c
    where
      same :
          {n j : ℕ}
          → n ≡ m
          → j ≡ key
          → j < length (net.manuals n).velocity
          → entry (net.manuals m) key coupler ≡ v
      same {n} {j} e e' inside =
          let within : key < length (net.manuals m).velocity =
            subst (λ n. n < length (net.manuals m).velocity) e'
              (subst (λ n. j < length (net.manuals n).velocity) e inside) in
          ground (arith, old, within)

  -- A write of a manual that leaves its inputs alone.
  pub put_manual-same :
      {L : ℕ → ℕ → ℕ → Type 0} (m : ℕ) (a' : Manual) (net : Network)
      → a'.velocities_by_coupler ≡ (net.manuals m).velocities_by_coupler
      → length a'.velocity ≡ length (net.manuals m).velocity
      → IsCalmBut w up limit keys X L player net
      → IsCalmBut w up limit keys X L player (put_manual m a' net)
  unfolding coupled_velocity
  put_manual-same {L} m a' net rows size c = record {
    normal = c.normal;
    told = λ i k lt r. rw (same (w.source i)) (c.told i k lt r);
    kept = c.kept;
    sent = λ i j lt u e inside.
        rw (same (w.destination i))
          (c.sent i j lt u e (omega (arith, inside, sized (w.destination i))));
    low = c.low;
    wide = c.wide;
    own = λ n k inside. rw (same n) (c.own n k (omega (arith, inside, sized n)));
    head = λ n k inside. rw (same n) (c.head n k (omega (arith, inside, sized n)));
    small = λ n k cp. rw (same n) (c.small n k cp);
    rows = λ n. rw (same n) (c.rows n ∙ sym (sized n));
    deep = λ i k lt inside.
        rw (same (w.destination i))
          (c.deep i k lt (omega (arith, inside, sized (w.destination i))));
  }
    where
      same :
          (n : ℕ)
          → (write net.manuals m a' n).velocities_by_coupler ≡ (net.manuals n).velocities_by_coupler
      same n =
          write-holds (λ n d. d.velocities_by_coupler ≡ (net.manuals n).velocities_by_coupler)
            net.manuals m a' rows (λ n ne. refl) n

      sized : (n : ℕ) → length (write net.manuals m a' n).velocity ≡ length (net.manuals n).velocity
      sized n =
          write-holds (λ n d. length d.velocity ≡ length (net.manuals n).velocity) net.manuals m a'
            size (λ n ne. refl) n
