-- ===== src/Sound/Round/Shares.antt =====
-- What a step of one thread keeps in an open round: the account, and what is owed of chain runs.
use grandorgue.Prelude.{
  ℕ, ◌+◌, ◌≤◌, ◌<◌, ◌≡◌, refl, ap, sym, ◌∙◌, subst, inl, inr, ◌⊎◌, Bool, List, [], ◌++◌, arith, All,
  Bool-cases, List-cases, ltb, leb,
}
use grandorgue.Sound.Cell.{
  Cell, Dsp, Player, in_progress, partly_done, state_code, join, process_one, merge, store_share,
  leave, publish_done,
}
use grandorgue.Sound.Round.{
  Which, Place, outside, entering, getting, holding, merging, with_list, take_next, drops_old,
  advance,
}
use grandorgue.Sound.Round.Invariant.{
  takes_part, CellInv, SameRound, process_one-SameRound, RunState-cases, take_next-nil,
  take_next-cons,
}
use grandorgue.Sound.Round.Steps.{enter-Enters, merge-lists}
use grandorgue.Sound.Round.Ledger.{
  IsMild, voices, count, in_cell, at_place, chain_total, MildPlace, MildCell, count-append,
  process_one-mild, process_one-count,
}

-- A thread that has a share to merge keeps the round open.
is_open :
    (c : Cell) (n : ℕ)
    → CellInv c n
    → 0 < n
    → (c.run_state ≡ in_progress) ⊎ (c.run_state ≡ partly_done)
unfolding state_code
is_open c n inv h = elim (RunState-cases c.run_state) [
  | inl e ↦ absurd (omega (arith, inv.idle (ap state_code e)))
  | inr (inl e) ↦ inl e
  | inr (inr (inl e)) ↦ inr e
  | inr (inr (inr e)) ↦ absurd (omega (arith, inv.ended (ap state_code e)))
]

store_share-partly :
    (c : Cell) (l : List ℕ)
    → c.run_state ≡ partly_done
    → store_share l c ≡ record c { buffer = c.buffer ++ l }
unfolding store_share
store_share-partly c l e = simp (e, store_share)

store_share-share :
    (p : Player) (c : Cell) (l : List ℕ)
    → (c.run_state ≡ in_progress) ⊎ (c.run_state ≡ partly_done)
    → (state_code (store_share l c).run_state ≡ 2)
      × ((x : ℕ) → in_cell p x (store_share l c) ≡ in_cell p x c + count x l)
      × (chain_total (store_share l c) ≡ chain_total c)
unfolding store_share in_cell chain_total state_code
store_share-share p c l (inl e) = rw (e, store_share) (refl, λ x. omega arith, refl)
store_share-share p c l (inr e) =
    let k = ap state_code e in
    rw (store_share-partly c l e) (k, λ x. rw k (omega (arith, count-append x c.buffer l)), refl)

leave-share :
    (p : Player) (c : Cell)
    → state_code c.run_state ≡ 2
    → ((x : ℕ) → in_cell p x (leave c) ≡ in_cell p x c)
      × (2 ≤ state_code (leave c).run_state)
      × (chain_total (leave c) ≡ chain_total c)
unfolding leave publish_done in_cell chain_total state_code
leave-share p c h = elim (Bool-cases (leb c.active_count 1)) [
  | inl e ↦ rw (e, h, leave) (λ x. refl, omega arith, omega arith)
  | inr e ↦ rw (e, h, leave) (λ x. refl, omega arith, omega arith)
]

-- What a step of a thread keeps once the round has begun.
pub record Keeps (p : Player) (c : Cell) (t : Place) (r : Cell × Place) : Type 0 where
  pub account : (x : ℕ) → in_cell p x r.0 + at_place p x r.1 ≡ in_cell p x c + at_place p x t
  pub chain : chain_total r.0 ≡ chain_total c
  pub begun : 1 ≤ state_code r.0.run_state
  pub mild_cell : MildCell r.0
  pub mild_place : MildPlace r.1

module _ (p : Player) (c : Cell) (begins : 1 ≤ state_code c.run_state) (mild : MildCell c) where
  stays-Keeps :
      (t t' : Place)
      → ((x : ℕ) → at_place p x t' ≡ at_place p x t)
      → MildPlace t'
      → Keeps p c t (c, t')
  stays-Keeps t t' e m = record {
    account = λ x. omega (arith, e x);
    chain = refl;
    begun = begins;
    mild_cell = mild;
    mild_place = m;
  }

  join-Keeps : Keeps p c entering (join c, getting Which.active [])
  unfolding in_cell at_place join chain_total MildPlace
  join-Keeps = record {
    account = λ x. refl;
    chain = refl;
    begun = begins;
    mild_cell = mild;
    mild_place = tt;
  }

  take_next-Keeps : (w : Which) (l : List ℕ) → Keeps p c (getting w l) (take_next w l c)
  unfolding in_cell at_place with_list chain_total MildPlace
  take_next-Keeps Which.active l = elim (List-cases c.active.get_list) [
    | inl e ↦ rw (take_next-nil Which.active l c e) (stays-Keeps _ _ (λ x. refl) tt)
    | inr (y, ys, e) ↦
        let (my, mys) = subst (All IsMild) e mild.0 in
        rw (take_next-cons Which.active l c y ys e) (record {
          account = λ x. omega (arith, ap (voices p x) e);
          chain = refl;
          begun = begins;
          mild_cell = (mys, mild.1);
          mild_place = my;
        })
  ]
  take_next-Keeps Which.release l = elim (List-cases c.release.get_list) [
    | inl e ↦ rw (take_next-nil Which.release l c e) (stays-Keeps _ _ (λ x. refl) tt)
    | inr (y, ys, e) ↦
        let (my, mys) = subst (All IsMild) e mild.1 in
        rw (take_next-cons Which.release l c y ys e) (record {
          account = λ x. omega (arith, ap (voices p x) e);
          chain = refl;
          begun = begins;
          mild_cell = (mild.0, mys);
          mild_place = my;
        })
  ]

  SameRound-Keeps :
      (c' : Cell) (t t' : Place)
      → SameRound c' c
      → ((x : ℕ) → at_place p x t' ≡ at_place p x t)
      → MildPlace t'
      → Keeps p c t (c', t')
  unfolding in_cell chain_total
  SameRound-Keeps c' t t' (_, s, a, r, b, k) e m = record {
    account = λ x. rw (s, a, r, b, e x) refl;
    chain = rw (s, k) refl;
    begun = rw s begins;
    mild_cell = rw (a, r) mild;
    mild_place = m;
  }

  merge-Keeps :
      (l : List ℕ) (n : ℕ) → CellInv c n → 0 < n → Keeps p c (merging l) (merge l c, outside)
  unfolding merge at_place chain_total MildPlace
  merge-Keeps l n inv h =
      let (code, k, same) = store_share-share p c l (is_open c n inv h) in
      let (e, later, same') = leave-share p (store_share l c) code in
      let (a, r) = merge-lists l c in
      record {
        account = λ x. omega (arith, k x, e x);
        chain = same' ∙ same;
        begun = omega (arith, later);
        mild_cell = (
          subst (λ q. All IsMild q.get_list) (sym a) mild.0,
          subst (λ q. All IsMild q.get_list) (sym r) mild.1,
        );
        mild_place = tt;
      }

module _ (d : Dsp) (p : Player) (c : Cell) (n : ℕ) (inv : CellInv c n) where
  pub advance-Keeps :
      (stops : Bool) (t : Place)
      → takes_part t ≤ n
      → 1 ≤ state_code c.run_state
      → MildCell c
      → MildPlace t
      → Keeps p c t (advance d p stops t c)
  unfolding advance at_place MildPlace takes_part state_code
  advance-Keeps stops outside le b m mt = elim (Bool-cases (ltb (state_code c.run_state) 3)) [
    | inl h ↦ rw h (stays-Keeps p c b m outside entering (λ x. refl) tt)
    | inr h ↦ rw h (stays-Keeps p c b m outside outside (λ x. refl) tt)
  ]
  advance-Keeps stops entering le b m mt = elim (enter-Enters c n inv stops) [
    | inl e ↦ rw e (stays-Keeps p c b m entering outside (λ x. refl) tt)
    | inr (inl (e, s)) ↦ absurd (omega (arith, ap state_code s))
    | inr (inr (e, s)) ↦ rw e (join-Keeps p c b m)
  ]
  advance-Keeps stops (getting w l) le b m mt = take_next-Keeps p c b m w l
  advance-Keeps stops (holding w y l) le b m mt =
      SameRound-Keeps p c b m (process_one d p (drops_old w) y l c).0 (holding w y l)
        (getting w (process_one d p (drops_old w) y l c).1)
        (process_one-SameRound d p (drops_old w) y l c)
        (λ x. rw (process_one-mild d p (drops_old w) y l c mt) (process_one-count d p x y l c)) tt
  advance-Keeps stops (merging l) le b m mt = merge-Keeps p c b m l n inv (omega arith)
