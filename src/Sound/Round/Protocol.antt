-- ===== src/Sound/Round/Protocol.antt =====
-- The protocol of `RunState`: what holds in every run of the threads of a round.
use grandorgue.Prelude.{
  ℕ, ◌+◌, ◌-◌, ◌≡◌, refl, ap, sym, ◌∙◌, ◌≢◌, subst, inl, inr, ◌⊎◌, Bool, true, false, none, some,
  List, [], ◌∷◌, arith, get_elem?, set, All, Option-cases, ◌==◌, ◌||◌,
}
use grandorgue.Sound.Cell.{
  Cell, Dsp, Player, not_started, in_progress, done, state_code, add, new_round,
}
use grandorgue.Sound.Round.{
  Place, outside, entering, getting, holding, merging, advance, System, Event, turns, adds,
  completes, turn, happen, run,
}
use grandorgue.Sound.Round.Threads.{
  total, total-set, total-get, All-get, All-set_of_le, All-map_of_le,
}
use grandorgue.Sound.Round.Invariant.{takes_part, Fits, CellInv, SameRound, add-SameRound}
use grandorgue.Sound.Round.Steps.{
  advance-Steps, advance-Fits, Fits-apart, SameRound-CellInv, SameRound-Fits, enter-Enters,
}

-- The invariant of a system: the threads inside `Run` are counted, each is where the lists allow.
pub record IsSound (s : System) : Type 0 where
  pub cell_inv : CellInv s.cell (total takes_part s.threads)
  pub placed : All (Fits s.cell) s.threads

SameRound-IsSound :
    (s : System) (c : Cell) → SameRound c s.cell → IsSound s → IsSound (record s { cell = c })
SameRound-IsSound s c same h = record {
  cell_inv = SameRound-CellInv s.cell c (total takes_part s.threads) same h.cell_inv;
  placed =
      All-map_of_le takes_part (Fits s.cell) (Fits c) (total takes_part s.threads) s.threads
        (omega arith) (λ u _. SameRound-Fits s.cell c u same) h.placed;
}

module _ (d : Dsp) (p : Player) where
  pub turn-none :
      (i : ℕ) (b : Bool) (s : System) → get_elem? s.threads i ≡ none → turn d p i b s ≡ s
  unfolding turn
  turn-none i b s e = rw (e, turn) refl

  pub turn-some :
      (i : ℕ) (b : Bool) (s : System) (t : Place)
      → get_elem? s.threads i ≡ some t
      → turn d p i b s ≡ record {
        cell = (advance d p b t s.cell).0;
        threads = set s.threads i (advance d p b t s.cell).1;
      }
  unfolding turn
  turn-some i b s t e = rw (e, turn) refl

  turn-IsSound : (i : ℕ) (b : Bool) (s : System) → IsSound s → IsSound (turn d p i b s)
  turn-IsSound i b s h = elim (Option-cases (get_elem? s.threads i)) [
    | inl e ↦ rw (turn-none i b s e) h
    | inr (t, e) ↦
        let n = total takes_part s.threads in
        let m : ℕ = n - takes_part t in
        let le = total-get takes_part s.threads i t e in
        let split : n ≡ m + takes_part t = omega (arith, le) in
        let (c', t') = advance d p b t s.cell in
        let (inv, fit) =
          advance-Steps d p s.cell m b t (subst (CellInv s.cell) split h.cell_inv)
            (All-get (Fits s.cell) s.threads i t h.placed e) in
        let count : m + takes_part t' ≡ total takes_part (set s.threads i t') =
          omega (arith, total-set takes_part s.threads i t t' e, le) in
        rw (turn-some i b s t e) record {
          cell_inv = subst (CellInv c') count inv;
          placed =
              All-set_of_le takes_part (Fits s.cell) (Fits c') n s.threads i t' (omega arith)
                (λ u. advance-Fits d p s.cell n h.cell_inv b t u) h.placed fit;
        }
  ]

  -- Whatever happens, in any order, keeps the invariant.
  pub happen-IsSound : (s : System) (e : Event) → IsSound s → IsSound (happen d p s e)
  unfolding happen
  happen-IsSound s (turns i b) h = turn-IsSound i b s h
  happen-IsSound s (adds y) h = SameRound-IsSound s (add y s.cell) (add-SameRound y s.cell) h
  happen-IsSound s completes h =
      SameRound-IsSound s (record s.cell { is_to_complete = true })
        (refl, refl, refl, refl, refl, refl) h

  pub run-IsSound : (s : System) (es : List Event) → IsSound s → IsSound (run d p s es)
  unfolding run
  run-IsSound s [] h = h
  run-IsSound s (e ∷ es) h = run-IsSound (happen d p s e) es (happen-IsSound s e h)

-- Without participants each thread is outside, or before the first lock.
apart :
    (ts : List Place) (i : ℕ) (t : Place)
    → total takes_part ts ≡ 0
    → get_elem? ts i ≡ some t
    → takes_part t ≡ 0
apart ts i t h e = omega (arith, total-get takes_part ts i t e)

-- What a closed round does not change any more.
abbrev pub SameResult : Cell → Cell → Type 0
SameResult c' c =
    (c'.run_state ≡ c.run_state)
    × (c'.active_count ≡ c.active_count)
    × (c'.buffer ≡ c.buffer)
    × (c'.chain_runs ≡ c.chain_runs)

module _ (d : Dsp) (p : Player) where
  advance-closed :
      (c : Cell) (n : ℕ) (b : Bool) (t : Place)
      → CellInv c n
      → c.run_state ≡ done
      → takes_part t ≡ 0
      → (advance d p b t c).0 ≡ c
  unfolding advance takes_part
  advance-closed c n b outside inv e h = refl
  advance-closed c n b entering inv e h = elim (enter-Enters c n inv b) [
    | inl q ↦ ap (λ r. r.0) q
    | inr (inl (q, r)) ↦ absurd (differ (sym r ∙ e))
    | inr (inr (q, r)) ↦ absurd (differ' (sym r ∙ e))
  ]
    where
      differ : not_started ≢ done
      differ q = cc

      differ' : in_progress ≢ done
      differ' q = cc
  advance-closed c n b (getting w l) inv e h = absurd (omega arith)
  advance-closed c n b (holding w y l) inv e h = absurd (omega arith)
  advance-closed c n b (merging l) inv e h = absurd (omega arith)

  turn-closed :
      (i : ℕ) (b : Bool) (s : System)
      → IsSound s
      → s.cell.run_state ≡ done
      → (turn d p i b s).cell ≡ s.cell
  unfolding state_code
  turn-closed i b s h e = elim (Option-cases (get_elem? s.threads i)) [
    | inl q ↦ rw (turn-none d p i b s q) refl
    | inr (t, q) ↦ rw (turn-some d p i b s t q) (
        advance-closed s.cell _ b t h.cell_inv e
          (apart s.threads i t (h.cell_inv.ended (ap state_code e)) q))
  ]

  happen-closed :
      (s : System) (e : Event)
      → IsSound s
      → s.cell.run_state ≡ done
      → SameResult (happen d p s e).cell s.cell
  unfolding happen
  happen-closed s (turns i b) h q = rw (turn-closed i b s h q) (refl, refl, refl, refl)
  happen-closed s (adds y) h q = let (a, r, _, _, b, k) = add-SameRound y s.cell in (r, a, b, k)
  happen-closed s completes h q = (refl, refl, refl, refl)

  closed_stays :
      (s : System) (es : List Event)
      → IsSound s
      → s.cell.run_state ≡ done
      → SameResult (run d p s es).cell s.cell
  unfolding run
  closed_stays s [] h q = (refl, refl, refl, refl)
  closed_stays s (e ∷ es) h q =
      let (r, a, b, k) = happen-closed s e h q in
      let (r', a', b', k') = closed_stays (happen d p s e) es (happen-IsSound d p s e h) (r ∙ q) in
      (r' ∙ r, a' ∙ a, b' ∙ b, k' ∙ k)

  -- In a sound system, a round that is done stays so: whatever the threads, the player and the
  -- deadline do, in whatever order, the number of participants does not change and no thread is at a
  -- participant's place, the buffer keeps its content and the chain does not run again, until
  -- `NewRound`.
  pub done_is_final :
      (s : System) (es : List Event)
      → IsSound s
      → s.cell.run_state ≡ done
      → SameResult (run d p s es).cell s.cell × (total takes_part (run d p s es).threads ≡ 0)
  unfolding state_code
  done_is_final s es h q =
      let same = closed_stays s es h q in
      (same, (run-IsSound d p s es h).cell_inv.ended (ap state_code (same.0 ∙ q)))

resting :
    (s : System)
    → IsSound s
    → (s.cell.run_state ≡ not_started) ⊎ (s.cell.run_state ≡ done)
    → (total takes_part s.threads ≡ 0)
      × ((state_code s.cell.run_state == 0 || state_code s.cell.run_state == 3) ≡ true)
unfolding state_code
resting s h (inl e) = (h.cell_inv.idle (ap state_code e), rw e refl)
resting s h (inr e) = (h.cell_inv.ended (ap state_code e), rw e refl)

fresh_inv : (c : Cell) → c.active_count ≡ 0 → c.run_state ≡ not_started → CellInv c 0
unfolding state_code
fresh_inv c z e =
    let k = ap state_code e in
    record {
      counted = z;
      idle = λ _. refl;
      ended = λ _. refl;
      open_round = λ h _. absurd (omega (arith, k));
      drained = λ h. absurd (omega (arith, k));
    }

-- `NewRound` in a sound system between rounds: if the round has not begun or is done, its assertions
-- hold, nobody takes part, the cell may be claimed and is no more to complete, all that it has queued,
-- its buffer and what it has given away stay as they were, and the invariant is kept.
pub new_round-IsSound :
    (s : System)
    → IsSound s
    → (s.cell.run_state ≡ not_started) ⊎ (s.cell.run_state ≡ done)
    → (c : Cell) × (new_round s.cell ≡ some c)
      × (c ≡ record s.cell { active_count = 0; is_to_complete = false; run_state = not_started })
      × IsSound (record s { cell = c })
unfolding new_round
new_round-IsSound s h q =
    let (calm, code) = resting s h q in
    let zero_count : s.cell.active_count ≡ 0 = omega (arith, h.cell_inv.counted) in
    let c : Cell = record s.cell {
      active_count = 0;
      is_to_complete = false;
      run_state = not_started;
    } in
    (
      c,
      simp (zero_count, code, new_round),
      refl,
      record {
        cell_inv = rw calm (fresh_inv c refl refl);
        placed =
            All-map_of_le takes_part (Fits s.cell) (Fits c) 0 s.threads (omega (arith, calm))
              (λ u le _. Fits-apart c u le) h.placed;
      },
    )
