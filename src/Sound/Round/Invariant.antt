-- ===== src/Sound/Round/Invariant.antt =====
-- What holds between the state of a round, the number of its participants and the lists.
use grandorgue.Prelude.{
  ℕ, ◌+◌, ◌≤◌, ◌<◌, ◌≡◌, refl, ap, inl, inr, ◌⊎◌, Bool-cases, List-cases, ◌&&◌, Bool, true, none,
  some, List, [], ◌∷◌, arith, ltb, leb,
}
use grandorgue.Sound.SamplerList.{Sampler, SamplerList, is_nil, get}
use grandorgue.Sound.Cell.{
  Cell, Dsp, Player, RunState, not_started, in_progress, partly_done, done, state_code, add, claim,
  join, Fate, kept, returned, released, is_late, process_one, merge, settle, store_share,
  publish_done, leave,
}
use grandorgue.Sound.Round.{
  Which, Place, outside, entering, getting, holding, merging, list_of, with_list, after_list,
  take_next,
}

-- Does a thread take part in the round?
unfoldable pub takes_part : Place → ℕ
takes_part outside = 0
takes_part entering = 0
takes_part (getting w l) = 1
takes_part (holding w y l) = 1
takes_part (merging l) = 1

-- A thread goes on only when it has found the list before empty.
unfoldable pub Fits : Cell → Place → Type 0
Fits c (getting Which.release l) = is_nil c.active.get_list ≡ true
Fits c (holding Which.release y l) = is_nil c.active.get_list ≡ true
Fits c (merging l) = (is_nil c.active.get_list ≡ true) × (is_nil c.release.get_list ≡ true)
Fits c _ = Unit

pub record CellInv (c : Cell) (n : ℕ) : Type 0 where
  pub counted : c.active_count ≡ n
  pub idle : state_code c.run_state ≡ 0 → n ≡ 0
  pub ended : state_code c.run_state ≡ 3 → n ≡ 0
  pub open_round : 1 ≤ state_code c.run_state → state_code c.run_state ≤ 2 → 0 < n
  pub drained :
      2 ≤ state_code c.run_state
      → (is_nil c.active.get_list ≡ true) × (is_nil c.release.get_list ≡ true)

code-le : (r : RunState) → state_code r ≤ 3
unfolding state_code
code-le not_started = omega arith
code-le in_progress = omega arith
code-le partly_done = omega arith
code-le done = omega arith

pub RunState-cases :
    (r : RunState) → (r ≡ not_started) ⊎ (r ≡ in_progress) ⊎ (r ≡ partly_done) ⊎ (r ≡ done)
RunState-cases not_started = inl refl
RunState-cases in_progress = inr (inl refl)
RunState-cases partly_done = inr (inr (inl refl))
RunState-cases done = inr (inr (inr refl))

-- The parts of a cell that the processing of a sampler leaves alone.
abbrev pub SameRound : Cell → Cell → Type 0
SameRound c' c =
    (c'.active_count ≡ c.active_count)
    × (c'.run_state ≡ c.run_state)
    × (c'.active.get_list ≡ c.active.get_list)
    × (c'.release.get_list ≡ c.release.get_list)
    × (c'.buffer ≡ c.buffer)
    × (c'.chain_runs ≡ c.chain_runs)

same_round : (c : Cell) → SameRound c c
same_round c = (refl, refl, refl, refl, refl, refl)

pub add-SameRound : (y : Sampler) (c : Cell) → SameRound (add y c) c
unfolding add
add-SameRound y c = elim (Bool-cases y.is_release) [
  | inl e ↦ rw e (same_round c)
  | inr e ↦ rw e (same_round c)
]

settle-SameRound : (y : Sampler) (f : Fate) (c : Cell) → SameRound (settle y f c) c
unfolding settle
settle-SameRound y kept c = add-SameRound y c
settle-SameRound y returned c = same_round c
settle-SameRound y released c = same_round c

pub process_one-SameRound :
    (d : Dsp) (p : Player) (b : Bool) (y : Sampler) (l : List ℕ) (c : Cell)
    → SameRound (process_one d p b y l c).0 c
unfolding process_one
process_one-SameRound d p b y l c = elim (Bool-cases (b && is_late p c y && ltb 3 y.drop_counter)) [
  | inl e ↦ rw e (same_round c)
  | inr e ↦ rw e (elim (Bool-cases y.windchest) [
    | inl w ↦ rw w (settle-SameRound _ _ c)
    | inr w ↦ rw w (same_round c)
  ])
]

get-nil : (q : SamplerList) → q.get_list ≡ [] → get q ≡ none
unfolding get
get-nil q e = simp (e, get)

get-cons :
    (q : SamplerList) (y : Sampler) (ys : List Sampler)
    → q.get_list ≡ y ∷ ys
    → get q ≡ some (y, record q { get_list = ys })
unfolding get
get-cons q y ys e = simp (e, get)

pub take_next-nil :
    (w : Which) (l : List ℕ) (c : Cell)
    → (list_of w c).get_list ≡ []
    → take_next w l c ≡ (c, after_list w l)
unfolding take_next
take_next-nil w l c e = rw (get-nil (list_of w c) e, take_next) refl

pub take_next-cons :
    (w : Which) (l : List ℕ) (c : Cell) (y : Sampler) (ys : List Sampler)
    → (list_of w c).get_list ≡ y ∷ ys
    → take_next w l c ≡ (with_list w (record (list_of w c) { get_list = ys }) c, holding w y l)
unfolding take_next
take_next-cons w l c y ys e = rw (get-cons (list_of w c) y ys e, take_next) refl

module _ (c : Cell) (m : ℕ) where
  pub claim-CellInv : CellInv c m → state_code c.run_state ≡ 0 → CellInv (claim c) (m + 1)
  unfolding claim state_code
  claim-CellInv inv e = record {
    counted = omega (arith, inv.counted);
    idle = λ h. absurd (omega arith);
    ended = λ h. absurd (omega arith);
    open_round = λ h k. omega arith;
    drained = λ h. absurd (omega arith);
  }

  pub join-CellInv :
      CellInv c m
      → 1 ≤ state_code c.run_state
      → state_code c.run_state < 2
      → CellInv (join c) (m + 1)
  unfolding join
  join-CellInv inv e f = record {
    counted = omega (arith, inv.counted);
    idle = λ h. absurd (omega arith);
    ended = λ h. absurd (omega arith);
    open_round = λ h k. omega arith;
    drained = λ h. absurd (omega arith);
  }

  -- A thread that takes a sampler, or goes on from an empty list.
  abbrev Takes : Which → List ℕ → Type 0
  Takes w l =
      CellInv (take_next w l c).0 m
      × Fits (take_next w l c).0 (take_next w l c).1
      × (takes_part (take_next w l c).1 ≡ 1)

  pub take_active : (l : List ℕ) → CellInv c m → Takes Which.active l
  unfolding with_list Fits takes_part
  take_active l inv = elim (List-cases c.active.get_list) [
    | inl e ↦ rw (take_next-nil Which.active l c e) (inv, ground arith, refl)
    | inr (y, ys, e) ↦ rw (take_next-cons Which.active l c y ys e) (
      record {
        counted = inv.counted;
        idle = inv.idle;
        ended = inv.ended;
        open_round = inv.open_round;
        drained = λ h. ground (arith, inv.drained h, e);
      },
      tt,
      refl,
    )
  ]

  pub take_release :
      (l : List ℕ) → CellInv c m → Fits c (getting Which.release l) → Takes Which.release l
  unfolding with_list Fits takes_part
  take_release l inv f = elim (List-cases c.release.get_list) [
    | inl e ↦ rw (take_next-nil Which.release l c e) (inv, (f, ground arith), refl)
    | inr (y, ys, e) ↦ rw (take_next-cons Which.release l c y ys e) (
      record {
        counted = inv.counted;
        idle = inv.idle;
        ended = inv.ended;
        open_round = inv.open_round;
        drained = λ h. ground (arith, inv.drained h, e);
      },
      f,
      refl,
    )
  ]

  store_share-CellInv :
      (l : List ℕ)
      → CellInv c (m + 1)
      → Fits c (merging l)
      → CellInv (store_share l c) (m + 1) × (state_code (store_share l c).run_state ≡ 2)
  unfolding store_share Fits state_code
  store_share-CellInv l inv f = elim (RunState-cases c.run_state) [
    | inl e ↦ absurd (omega (arith, inv.idle (ap state_code e)))
    | inr (inl e) ↦ rw e (
      record {
        counted = inv.counted;
        idle = λ h. absurd (omega arith);
        ended = λ h. absurd (omega arith);
        open_round = λ h k. omega arith;
        drained = λ h. f;
      },
      refl,
    )
    | inr (inr (inl e)) ↦ rw e (
      record {
        counted = inv.counted;
        idle = λ h. absurd (omega arith);
        ended = λ h. absurd (omega arith);
        open_round = λ h k. omega arith;
        drained = λ h. f;
      },
      refl,
    )
    | inr (inr (inr e)) ↦ absurd (omega (arith, inv.ended (ap state_code e)))
  ]

  leave-CellInv : CellInv c (m + 1) → state_code c.run_state ≡ 2 → CellInv (leave c) m
  unfolding leave publish_done state_code
  leave-CellInv inv e = elim (Bool-cases (leb c.active_count 1)) [
    | inl h ↦ rw h (record {
      counted = omega (arith, inv.counted);
      idle = λ k. absurd (omega arith);
      ended = λ k. ground (arith, inv.counted, h);
      open_round = λ k k'. absurd (omega arith);
      drained = λ k. inv.drained (omega (arith, e));
    })
    | inr h ↦ rw h (record {
      counted = omega (arith, inv.counted);
      idle = λ k. absurd (omega (arith, e, k));
      ended = λ k. absurd (omega (arith, e, k));
      open_round = λ k k'. ground (arith, inv.counted, h);
      drained = λ k. inv.drained (omega (arith, e));
    })
  ]

pub merge-CellInv :
    (c : Cell) (m : ℕ) (l : List ℕ) → CellInv c (m + 1) → Fits c (merging l) → CellInv (merge l c) m
unfolding merge
merge-CellInv c m l inv f =
    let (i, e) = store_share-CellInv c m l inv f in leave-CellInv (store_share l c) m i e
