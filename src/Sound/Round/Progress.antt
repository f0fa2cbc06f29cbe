-- ===== src/Sound/Round/Progress.antt =====
-- An open round can always be finished: some thread takes part, and its steps bring the end nearer.
use grandorgue.Prelude.{
  ℕ, zero, suc, ◌+◌, ◌*◌, length, ◌≤◌, ◌<◌, ◌≡◌, refl, ap, inl, inr, ◌⊎◌, Bool, false, some, List,
  [], ◌∷◌, arith, get_elem?, Option-cases, List-cases,
}
use grandorgue.Sound.SamplerList.{Sampler}
use grandorgue.Sound.Cell.{
  Cell, Dsp, Player, done, state_code, claim, join, process_one, merge, store_share, leave,
  publish_done,
}
use grandorgue.Sound.Round.{
  Which, Place, outside, entering, getting, holding, merging, with_list, take_next, drops_old,
  advance, System, Event, turns, turn, happen, run,
}
use grandorgue.Sound.Round.Threads.{total, total-set, total-get}
use grandorgue.Sound.Round.Invariant.{
  takes_part, CellInv, process_one-SameRound, RunState-cases, take_next-nil, take_next-cons,
}
use grandorgue.Sound.Round.Steps.{enter-Enters, merge-lists}
use grandorgue.Sound.Round.Protocol.{IsSound, happen-IsSound, turn-some, turn-none}

-- Two steps for a sampler in a list, and those of a thread up to its merge.
unfoldable pub left_in_cell : Cell → ℕ
left_in_cell c = 2 * (length c.active.get_list + length c.release.get_list)

unfoldable pub left_of : Place → ℕ
left_of outside = 0
left_of entering = 0
left_of (getting Which.active l) = 3
left_of (getting Which.release l) = 2
left_of (holding Which.active y l) = 4
left_of (holding Which.release y l) = 3
left_of (merging l) = 1

abbrev pub left_in : System → ℕ
left_in s = left_in_cell s.cell + total left_of s.threads

take_next-left :
    (w : Which) (l : List ℕ) (c : Cell)
    → left_in_cell (take_next w l c).0 + left_of (take_next w l c).1 + 1
      ≡ left_in_cell c + left_of (getting w l)
unfolding left_in_cell left_of with_list
take_next-left Which.active l c = elim (List-cases c.active.get_list) [
  | inl e ↦ rw (take_next-nil Which.active l c e) (omega arith)
  | inr (y, ys, e) ↦ rw (take_next-cons Which.active l c y ys e) (omega (arith, ap length e))
]
take_next-left Which.release l c = elim (List-cases c.release.get_list) [
  | inl e ↦ rw (take_next-nil Which.release l c e) (omega arith)
  | inr (y, ys, e) ↦ rw (take_next-cons Which.release l c y ys e) (omega (arith, ap length e))
]

same_left :
    (c c' : Cell)
    → c'.active.get_list ≡ c.active.get_list
    → c'.release.get_list ≡ c.release.get_list
    → left_in_cell c' ≡ left_in_cell c
unfolding left_in_cell
same_left c c' a r = rw (a, r) refl

returns_left :
    (w : Which) (y : Sampler) (l l' : List ℕ) → left_of (getting w l') + 1 ≡ left_of (holding w y l)
unfolding left_of
returns_left Which.active y l l' = refl
returns_left Which.release y l l' = refl

module _ (d : Dsp) (p : Player) where
  advance-left :
      (c : Cell) (b : Bool) (t : Place)
      → takes_part t ≡ 1
      → left_in_cell (advance d p b t c).0 + left_of (advance d p b t c).1 + 1
        ≡ left_in_cell c + left_of t
  unfolding advance takes_part left_of
  advance-left c b outside h = absurd (omega arith)
  advance-left c b entering h = absurd (omega arith)
  advance-left c b (getting w l) h = take_next-left w l c
  advance-left c b (holding w y l) h =
      let (c', l') = process_one d p (drops_old w) y l c in
      let (_, _, a, r, _, _) = process_one-SameRound d p (drops_old w) y l c in
      omega (arith, same_left c c' a r, returns_left w y l l')
  advance-left c b (merging l) h =
      let (a, r) = merge-lists l c in
      omega (arith, same_left c (merge l c) (ap (λ q. q.get_list) a) (ap (λ q. q.get_list) r))

-- The first thread that takes part.
participant :
    (ts : List Place)
    → 0 < total takes_part ts
    → (i : ℕ) × (t : Place) × (get_elem? ts i ≡ some t) × (takes_part t ≡ 1)
unfolding takes_part
participant [] h = absurd (omega arith)
participant (getting w l ∷ ts) h = (0, getting w l, refl, refl)
participant (holding w y l ∷ ts) h = (0, holding w y l, refl, refl)
participant (merging l ∷ ts) h = (0, merging l, refl, refl)
participant (outside ∷ ts) h = let (i, t, e, k) = participant ts (omega arith) in (suc i, t, e, k)
participant (entering ∷ ts) h = let (i, t, e, k) = participant ts (omega arith) in (suc i, t, e, k)

take_next-begun : (w : Which) (l : List ℕ) (c : Cell) → (take_next w l c).0.run_state ≡ c.run_state
unfolding with_list
take_next-begun Which.active l c = elim (List-cases c.active.get_list) [
  | inl e ↦ rw (take_next-nil Which.active l c e) refl
  | inr (y, ys, e) ↦ rw (take_next-cons Which.active l c y ys e) refl
]
take_next-begun Which.release l c = elim (List-cases c.release.get_list) [
  | inl e ↦ rw (take_next-nil Which.release l c e) refl
  | inr (y, ys, e) ↦ rw (take_next-cons Which.release l c y ys e) refl
]

merge-begun :
    (l : List ℕ) (c : Cell) → 1 ≤ state_code c.run_state → 1 ≤ state_code (merge l c).run_state
unfolding merge leave store_share publish_done state_code
merge-begun l c k = ground arith

module _ (d : Dsp) (p : Player) (c : Cell) (n : ℕ) where
  advance-begun :
      (b : Bool) (t : Place)
      → CellInv c n
      → 1 ≤ state_code c.run_state
      → 1 ≤ state_code (advance d p b t c).0.run_state
  unfolding advance claim join state_code
  advance-begun b outside inv k = k
  advance-begun b entering inv k = elim (enter-Enters c n inv b) [
    | inl e ↦ rw e k
    | inr (inl (e, _)) ↦ rw e (omega arith)
    | inr (inr (e, _)) ↦ rw e k
  ]
  advance-begun b (getting w l) inv k = rw (take_next-begun w l c) k
  advance-begun b (holding w y l) inv k =
      let (_, r, _, _, _, _) = process_one-SameRound d p (drops_old w) y l c in rw r k
  advance-begun b (merging l) inv k = merge-begun l c k

-- A round is open: claimed and not yet done.
abbrev pub IsOpen : System → Type 0
IsOpen s = (1 ≤ state_code s.cell.run_state) × (state_code s.cell.run_state ≤ 2)

done_or_IsOpen :
    (s : System) → 1 ≤ state_code s.cell.run_state → (s.cell.run_state ≡ done) ⊎ IsOpen s
unfolding state_code
done_or_IsOpen s lo = elim (RunState-cases s.cell.run_state) [
  | inl e ↦ absurd (omega (arith, ap state_code e))
  | inr (inl e) ↦ inr (lo, omega (arith, ap state_code e))
  | inr (inr (inl e)) ↦ inr (lo, omega (arith, ap state_code e))
  | inr (inr (inr e)) ↦ inl e
]

module _ (d : Dsp) (p : Player) where
  -- While a round is open some thread takes part, and any turn of such a thread, even one that is to
  -- stop, lowers the number of steps that are left by one.
  pub open_round_advances :
      (s : System)
      → IsSound s
      → IsOpen s
      → (i : ℕ) × ((b : Bool) → left_in (turn d p i b s) + 1 ≡ left_in s)
  open_round_advances s h (lo, hi) =
      let (i, t, e, k) = participant s.threads (h.cell_inv.open_round lo hi) in
      (
        i,
        λ b. rw (turn-some d p i b s t e) (
            omega (
              arith,
              advance-left d p s.cell b t k,
              total-set left_of s.threads i t (advance d p b t s.cell).1 e,
              total-get left_of s.threads i t e,
            )),
      )

  begun_stays :
      (i : ℕ) (b : Bool) (s : System)
      → IsSound s
      → 1 ≤ state_code s.cell.run_state
      → 1 ≤ state_code (turn d p i b s).cell.run_state
  begun_stays i b s h k = elim (Option-cases (get_elem? s.threads i)) [
    | inl e ↦ rw (turn-none d p i b s e) k
    | inr (t, e) ↦ rw (turn-some d p i b s t e) (advance-begun d p s.cell _ b t h.cell_inv k)
  ]

  finishes :
      (fuel : ℕ) (s : System)
      → IsSound s
      → 1 ≤ state_code s.cell.run_state
      → left_in s ≤ fuel
      → (es : List Event) × (length es ≤ left_in s) × ((run d p s es).cell.run_state ≡ done)
  unfolding run happen
  finishes zero s h lo le = elim (done_or_IsOpen s lo) [
    | inl e ↦ ([], omega arith, e)
    | inr o ↦ let (i, lower) = open_round_advances s h o in absurd (omega (arith, lower false))
  ]
  finishes (suc fuel) s h lo le = elim (done_or_IsOpen s lo) [
    | inl e ↦ ([], omega arith, e)
    | inr o ↦
        let (i, lower) = open_round_advances s h o in
        let (es, bound, e) =
          finishes fuel (turn d p i false s) (happen-IsSound d p s (turns i false) h)
            (begun_stays i false s h lo) (omega (arith, lower false)) in
        (turns i false ∷ es, omega (arith, bound, lower false), e)
  ]

  -- A round that has begun can always be finished, in at most as many turns as there are steps left.
  pub round_finishes :
      (s : System)
      → IsSound s
      → 1 ≤ state_code s.cell.run_state
      → (es : List Event) × (length es ≤ left_in s) × ((run d p s es).cell.run_state ≡ done)
  round_finishes s h lo = finishes (left_in s) s h lo (omega arith)
