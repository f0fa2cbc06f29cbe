-- ===== src/Sound/Round/Steps.antt =====
-- A step of any thread keeps what holds between the state of the round, its participants and its lists.
use grandorgue.Prelude.{
  ℕ, ◌+◌, ◌≤◌, ◌≡◌, refl, ap, ◌∙◌, subst, inl, inr, ◌⊎◌, Bool, true, false, List, [], arith,
  Bool-cases, List-cases, ltb, leb,
}
use grandorgue.Sound.SamplerList.{Sampler, is_nil}
use grandorgue.Sound.Cell.{
  Cell, Dsp, Player, not_started, in_progress, partly_done, done, state_code, claim, join,
  process_one, merge, store_share, leave, publish_done,
}
use grandorgue.Sound.Round.{
  Which, Place, outside, entering, getting, holding, merging, with_list, drops_old, enter,
  take_next, advance,
}
use grandorgue.Sound.Round.Invariant.{
  takes_part, Fits, CellInv, SameRound, process_one-SameRound, RunState-cases, claim-CellInv,
  join-CellInv, take_active, take_release, take_next-nil, take_next-cons, merge-CellInv,
}

-- What the first lock does: nothing, a claim, or joining an open round whose lists are not empty.
abbrev pub Enters : Cell → Cell × Place → Type 0
Enters c r =
    (r ≡ (c, outside))
    ⊎ ((r ≡ (claim c, getting Which.active [])) × (c.run_state ≡ not_started))
    ⊎ ((r ≡ (join c, getting Which.active [])) × (c.run_state ≡ in_progress))

module _ (c : Cell) (n : ℕ) (inv : CellInv c n) where
  not_drained :
      (c.run_state ≡ partly_done) ⊎ (c.run_state ≡ done)
      → (is_nil c.active.get_list ≡ true) × (is_nil c.release.get_list ≡ true)
  unfolding state_code
  not_drained (inl e) = inv.drained (omega (arith, ap state_code e))
  not_drained (inr e) = inv.drained (omega (arith, ap state_code e))

  pub enter-Enters : (stops : Bool) → Enters c (enter stops c)
  unfolding enter
  enter-Enters true = inl refl
  enter-Enters false = elim (RunState-cases c.run_state) [
    | inl e ↦ inr (inl (simp (e, enter), e))
    | inr (inl e) ↦ elim (Bool-cases (is_nil c.active.get_list)) [
      | inl a ↦ elim (Bool-cases (is_nil c.release.get_list)) [
        | inl r ↦ inl (simp (e, a, r, enter))
        | inr r ↦ inr (inr (simp (e, a, r, enter), e))
      ]
      | inr a ↦ inr (inr (simp (e, a, enter), e))
    ]
    | inr (inr (inl e)) ↦ inl (let (a, r) = not_drained (inl e) in simp (e, a, r, enter))
    | inr (inr (inr e)) ↦ inl (let (a, r) = not_drained (inr e) in simp (e, a, r, enter))
  ]

-- What a step owes: the invariant for the new number of participants, and the thread's own place.
abbrev Steps : Cell × Place → ℕ → Type 0
Steps r m = CellInv r.0 (m + takes_part r.1) × Fits r.0 r.1

module _ (c : Cell) (m : ℕ) where
  enter-Steps : (stops : Bool) → CellInv c m → Steps (enter stops c) m
  unfolding takes_part Fits state_code
  enter-Steps stops inv =
      let same : m + 0 ≡ m = omega arith in
      elim (enter-Enters c m inv stops) [
        | inl e ↦ rw (e, same) (inv, tt)
        | inr (inl (e, s)) ↦ rw e (claim-CellInv c m inv (ap state_code s), tt)
        | inr (inr (e, s)) ↦
            let k = ap state_code s in
            rw e (join-CellInv c m inv (omega (arith, k)) (omega (arith, k)), tt)
      ]

  take_next-Steps :
      (w : Which) (l : List ℕ)
      → CellInv c (m + 1)
      → Fits c (getting w l)
      → Steps (take_next w l c) m
  take_next-Steps Which.active l inv f = let (i, g, e) = take_active c (m + 1) l inv in rw e (i, g)
  take_next-Steps Which.release l inv f =
      let (i, g, e) = take_release c (m + 1) l inv f in rw e (i, g)

-- The invariant speaks of the parts that the processing of a sampler leaves alone.
pub SameRound-CellInv : (c c' : Cell) (n : ℕ) → SameRound c' c → CellInv c n → CellInv c' n
SameRound-CellInv c c' n (count, state, active, rel, _, _) inv = record {
  counted = count ∙ inv.counted;
  idle = λ h. inv.idle (subst (λ r. state_code r ≡ 0) state h);
  ended = λ h. inv.ended (subst (λ r. state_code r ≡ 3) state h);
  open_round = λ h k.
      inv.open_round (subst (λ r. 1 ≤ state_code r) state h)
        (subst (λ r. state_code r ≤ 2) state k);
  drained = λ h.
      let (a, r) = inv.drained (subst (λ r. 2 ≤ state_code r) state h) in
      (ap is_nil active ∙ a, ap is_nil rel ∙ r);
}

-- An empty list stays empty.
abbrev Shrinks : Cell → Cell → Type 0
Shrinks c' c =
    (is_nil c.active.get_list ≡ true → is_nil c'.active.get_list ≡ true)
    × (is_nil c.release.get_list ≡ true → is_nil c'.release.get_list ≡ true)

Shrinks-Fits : (c c' : Cell) (t : Place) → Shrinks c' c → Fits c t → Fits c' t
unfolding Fits
Shrinks-Fits c c' outside s f = tt
Shrinks-Fits c c' entering s f = tt
Shrinks-Fits c c' (getting Which.active l) s f = tt
Shrinks-Fits c c' (getting Which.release l) (a, r) f = a f
Shrinks-Fits c c' (holding Which.active y l) s f = tt
Shrinks-Fits c c' (holding Which.release y l) (a, r) f = a f
Shrinks-Fits c c' (merging l) (a, r) (f, g) = (a f, r g)

SameRound-Shrinks : (c c' : Cell) → SameRound c' c → Shrinks c' c
SameRound-Shrinks c c' (_, _, a, r, _, _) = (λ h. ap is_nil a ∙ h, λ h. ap is_nil r ∙ h)

pub SameRound-Fits : (c c' : Cell) (t : Place) → SameRound c' c → Fits c t → Fits c' t
SameRound-Fits c c' t s f = Shrinks-Fits c c' t (SameRound-Shrinks c c' s) f

Fits-returns :
    (c : Cell) (w : Which) (y : Sampler) (l l' : List ℕ)
    → Fits c (holding w y l)
    → Fits c (getting w l')
unfolding Fits
Fits-returns c Which.active y l l' f = tt
Fits-returns c Which.release y l l' f = f

module _ (d : Dsp) (p : Player) (c : Cell) (m : ℕ) where
  pub advance-Steps :
      (stops : Bool) (t : Place)
      → CellInv c (m + takes_part t)
      → Fits c t
      → Steps (advance d p stops t c) m
  unfolding advance takes_part Fits
  advance-Steps stops outside inv f = elim (Bool-cases (ltb (state_code c.run_state) 3)) [
    | inl h ↦ rw h (inv, tt)
    | inr h ↦ rw h (inv, tt)
  ]
  advance-Steps stops entering inv f =
      let same : m + 0 ≡ m = omega arith in enter-Steps c m stops (subst (CellInv c) same inv)
  advance-Steps stops (getting w l) inv f = take_next-Steps c m w l inv f
  advance-Steps stops (holding w y l) inv f =
      let s = process_one-SameRound d p (drops_old w) y l c in
      (
        SameRound-CellInv c (process_one d p (drops_old w) y l c).0 (m + 1) s inv,
        Shrinks-Fits c (process_one d p (drops_old w) y l c).0 (getting w _)
            (SameRound-Shrinks c (process_one d p (drops_old w) y l c).0 s)
            (Fits-returns c w y l _ f),
      )
  advance-Steps stops (merging l) inv f =
      let same : m + 0 ≡ m = omega arith in rw same (merge-CellInv c m l inv f, tt)

take_next-Shrinks : (c : Cell) (w : Which) (l : List ℕ) → Shrinks (take_next w l c).0 c
unfolding with_list
take_next-Shrinks c Which.active l = elim (List-cases c.active.get_list) [
  | inl e ↦ rw (take_next-nil Which.active l c e) (λ h. h, λ h. h)
  | inr (y, ys, e) ↦
      rw (take_next-cons Which.active l c y ys e) (λ h. absurd (ground (arith, e, h)), λ h. h)
]
take_next-Shrinks c Which.release l = elim (List-cases c.release.get_list) [
  | inl e ↦ rw (take_next-nil Which.release l c e) (λ h. h, λ h. h)
  | inr (y, ys, e) ↦
      rw (take_next-cons Which.release l c y ys e) (λ h. h, λ h. absurd (ground (arith, e, h)))
]

leave-lists : (c : Cell) → ((leave c).active ≡ c.active) × ((leave c).release ≡ c.release)
unfolding leave publish_done
leave-lists c = elim (Bool-cases (leb c.active_count 1)) [
  | inl e ↦ rw e (refl, refl)
  | inr e ↦ rw e (refl, refl)
]

store_share-lists :
    (l : List ℕ) (c : Cell)
    → ((store_share l c).active ≡ c.active) × ((store_share l c).release ≡ c.release)
unfolding store_share
store_share-lists l c = elim (RunState-cases c.run_state) [
  | inl e ↦ rw (e, store_share) (refl, refl)
  | inr (inl e) ↦ rw (e, store_share) (refl, refl)
  | inr (inr (inl e)) ↦ rw (e, store_share) (refl, refl)
  | inr (inr (inr e)) ↦ rw (e, store_share) (refl, refl)
]

pub merge-lists :
    (l : List ℕ) (c : Cell) → ((merge l c).active ≡ c.active) × ((merge l c).release ≡ c.release)
unfolding merge
merge-lists l c =
    let (a, r) = store_share-lists l c in
    let (a', r') = leave-lists (store_share l c) in (a' ∙ a, r' ∙ r)

merge-Shrinks : (l : List ℕ) (c : Cell) → Shrinks (merge l c) c
merge-Shrinks l c =
    let (a, r) = merge-lists l c in
    (λ h. ap (λ q. is_nil q.get_list) a ∙ h, λ h. ap (λ q. is_nil q.get_list) r ∙ h)

pub Fits-apart : (c : Cell) (u : Place) → takes_part u ≤ 0 → Fits c u
unfolding Fits takes_part
Fits-apart c outside h = tt
Fits-apart c entering h = tt
Fits-apart c (getting w l) h = absurd (omega arith)
Fits-apart c (holding w y l) h = absurd (omega arith)
Fits-apart c (merging l) h = absurd (omega arith)

module _ (d : Dsp) (p : Player) (c : Cell) (n : ℕ) (inv : CellInv c n) where
  -- The step of one thread leaves the others where they are.
  pub advance-Fits :
      (stops : Bool) (t u : Place) → takes_part u ≤ n → Fits c u → Fits (advance d p stops t c).0 u
  unfolding advance join state_code
  advance-Fits stops outside u le f = f
  advance-Fits stops entering u le f = elim (enter-Enters c n inv stops) [
    | inl e ↦ rw e f
    | inr (inl (e, s)) ↦ Fits-apart _ u (omega (arith, inv.idle (ap state_code s)))
    | inr (inr (e, s)) ↦ rw e (Shrinks-Fits c (join c) u (λ h. h, λ h. h) f)
  ]
  advance-Fits stops (getting w l) u le f = Shrinks-Fits c _ u (take_next-Shrinks c w l) f
  advance-Fits stops (holding w y l) u le f =
      Shrinks-Fits c _ u
        (SameRound-Shrinks c (process_one d p (drops_old w) y l c).0
          (process_one-SameRound d p (drops_old w) y l c))
        f
  advance-Fits stops (merging l) u le f = Shrinks-Fits c _ u (merge-Shrinks l c) f
