-- ===== src/Sound/Round/Mixing.antt =====
-- In an open round no sampler is lost and none is mixed twice.
use grandorgue.Prelude.{
  ℕ, ◌+◌, ◌≤◌, ◌≡◌, refl, ap, sym, ◌∙◌, subst, inl, inr, Bool, true, false, some, List, [], ◌∷◌,
  ◌++◌, arith, get_elem?, set, All, Option-cases,
}
use grandorgue.Sound.SamplerList.{Sampler, is_nil}
use grandorgue.Sound.Cell.{Cell, Dsp, Player, not_started, done, state_code, add, claim}
use grandorgue.Sound.Round.{
  Which, Place, outside, entering, getting, holding, merging, enter, advance, System, Event, turns,
  adds, completes, turn, happen, run,
}
use grandorgue.Sound.Round.Threads.{total, total-set, total-get, All-get, All-set_of_le}
use grandorgue.Sound.Round.Invariant.{takes_part, SameRound, add-SameRound}
use grandorgue.Sound.Round.Protocol.{IsSound, happen-IsSound, turn-some, turn-none}
use grandorgue.Sound.Round.Ledger.{
  IsMild, voices, count, in_cell, at_place, chain_total, MildPlace, MildCell,
}
use grandorgue.Sound.Round.Shares.{advance-Keeps}

-- The account of a whole system.
abbrev pub in_system : Player → ℕ → System → ℕ
in_system p x s = in_cell p x s.cell + total (at_place p x) s.threads

-- A system in an open or finished round, in which no sampler is about to be dropped.
pub record IsBegun (s : System) : Type 0 where
  pub sound : IsSound s
  pub begun : 1 ≤ state_code s.cell.run_state
  pub mild_cell : MildCell s.cell
  pub mild_places : All MildPlace s.threads

-- What a run keeps.
abbrev Same : Player → System → System → Type 0
Same p s' s =
    ((x : ℕ) → in_system p x s' ≡ in_system p x s) × (chain_total s'.cell ≡ chain_total s.cell)

module _ (d : Dsp) (p : Player) where
  turn-Same :
      (i : ℕ) (b : Bool) (s : System)
      → IsBegun s
      → IsBegun (turn d p i b s) × Same p (turn d p i b s) s
  unfolding happen
  turn-Same i b s h = elim (Option-cases (get_elem? s.threads i)) [
    | inl e ↦ rw (turn-none d p i b s e) (h, (λ x. refl, refl))
    | inr (t, e) ↦
        let n = total takes_part s.threads in
        let (c', t') = advance d p b t s.cell in
        let k =
          advance-Keeps d p s.cell n h.sound.cell_inv b t (total-get takes_part s.threads i t e)
            h.begun h.mild_cell (All-get MildPlace s.threads i t h.mild_places e) in
        let sound : IsSound (turn d p i b s) = happen-IsSound d p s (turns i b) h.sound in
        (
          record {
            sound = sound;
            begun = rw (turn-some d p i b s t e) k.begun;
            mild_cell = rw (turn-some d p i b s t e) k.mild_cell;
            mild_places = rw (turn-some d p i b s t e) (
                All-set_of_le takes_part MildPlace MildPlace n s.threads i t' (omega arith)
                  (λ u _ m. m) h.mild_places k.mild_place);
          },
          rw (turn-some d p i b s t e) (
            λ x. omega (
              arith,
              k.account x,
              total-set (at_place p x) s.threads i t t' e,
              total-get (at_place p x) s.threads i t e,
            ),
            k.chain,
          ),
        )
  ]

  SameRound-Same :
      (s : System) (c : Cell)
      → SameRound c s.cell
      → IsBegun s
      → IsSound (record s { cell = c })
      → IsBegun (record s { cell = c }) × Same p (record s { cell = c }) s
  unfolding in_cell chain_total
  SameRound-Same s c (_, e, a, r, b, k) h sound = (
    record {
      sound = sound;
      begun = rw e h.begun;
      mild_cell = rw (a, r) h.mild_cell;
      mild_places = h.mild_places;
    },
    (λ x. rw (e, a, r, b) refl, rw (e, k) refl),
  )

  happen-Same :
      (s : System) (e : Event) → IsBegun s → IsBegun (happen d p s e) × Same p (happen d p s e) s
  unfolding happen
  happen-Same s (turns i b) h = turn-Same i b s h
  happen-Same s (adds y) h =
      SameRound-Same s (add y s.cell) (add-SameRound y s.cell) h
        (happen-IsSound d p s (adds y) h.sound)
  happen-Same s completes h =
      SameRound-Same s (record s.cell { is_to_complete = true })
        (refl, refl, refl, refl, refl, refl) h (happen-IsSound d p s completes h.sound)

  run-Same :
      (s : System) (es : List Event) → IsBegun s → IsBegun (run d p s es) × Same p (run d p s es) s
  unfolding run
  run-Same s [] h = (h, (λ x. refl, refl))
  run-Same s (e ∷ es) h =
      let (g, (a, k)) = happen-Same s e h in
      let (g', (a', k')) = run-Same (happen d p s e) es g in (g', (λ x. a' x ∙ a x, k' ∙ k))

-- Without participants nothing is under way.
outside_only :
    (p : Player) (x : ℕ) (ts : List Place) → total takes_part ts ≡ 0 → total (at_place p x) ts ≡ 0
unfolding takes_part at_place
outside_only p x [] h = refl
outside_only p x (outside ∷ ts) h = omega (arith, outside_only p x ts (omega arith))
outside_only p x (entering ∷ ts) h = omega (arith, outside_only p x ts (omega arith))
outside_only p x (getting w l ∷ ts) h = absurd (omega arith)
outside_only p x (holding w y l ∷ ts) h = absurd (omega arith)
outside_only p x (merging l ∷ ts) h = absurd (omega arith)

outside_mild : (ts : List Place) → total takes_part ts ≡ 0 → All MildPlace ts
unfolding takes_part MildPlace
outside_mild [] h = tt
outside_mild (outside ∷ ts) h = (tt, outside_mild ts (omega arith))
outside_mild (entering ∷ ts) h = (tt, outside_mild ts (omega arith))
outside_mild (getting w l ∷ ts) h = absurd (omega arith)
outside_mild (holding w y l ∷ ts) h = absurd (omega arith)
outside_mild (merging l ∷ ts) h = absurd (omega arith)

nil-voices : (p : Player) (x : ℕ) (l : List Sampler) → is_nil l ≡ true → voices p x l ≡ 0
nil-voices p x [] h = refl
nil-voices p x (y ∷ l) h = absurd (ground (arith, h))

voices-append :
    (p : Player) (x : ℕ) (l l' : List Sampler) → voices p x (l ++ l') ≡ voices p x l + voices p x l'
voices-append p x [] l' = omega arith
voices-append p x (y ∷ l) l' = omega (arith, voices-append p x l l')

IsMild-append : (l l' : List Sampler) → All IsMild l → All IsMild l' → All IsMild (l ++ l')
IsMild-append [] l' h h' = h'
IsMild-append (y ∷ l) l' (q, h) h' = (q, IsMild-append l l' h h')

-- In a finished round all that was in the lists is in the buffer.
done-account :
    (p : Player) (x : ℕ) (s : System)
    → IsSound s
    → s.cell.run_state ≡ done
    → in_system p x s ≡ count x s.cell.buffer
unfolding in_cell state_code
done-account p x s h e =
    let k = ap state_code e in
    let (a, r) = h.cell_inv.drained (omega (arith, k)) in
    rw k (
      omega (
        arith,
        outside_only p x s.threads (omega (arith, h.cell_inv.ended k)),
        nil-voices p x s.cell.active.get_list a,
        nil-voices p x s.cell.release.get_list r,
      ))

done-chain : (c : Cell) → c.run_state ≡ done → chain_total c ≡ c.chain_runs
unfolding chain_total state_code
done-chain c e = rw (ap state_code e) (omega arith)

-- The first thread that gets the mutex claims the round.
module _ (d : Dsp) (p : Player) (s : System) (i : ℕ) (sound : IsSound s)
    (e : s.cell.run_state ≡ not_started) (t : get_elem? s.threads i ≡ some entering) where
  claimed : System
  claimed = record { cell = claim s.cell; threads = set s.threads i (getting Which.active []) }

  nobody : total takes_part s.threads ≡ 0
  unfolding state_code
  nobody = sound.cell_inv.idle (ap state_code e)

  turn-claims : turn d p i false s ≡ claimed
  unfolding advance enter claimed
  turn-claims = turn-some d p i false s entering t ∙ simp (e, enter)

  claimed-account :
      (x : ℕ)
      → in_system p x claimed
        ≡ voices p x s.cell.active.put_list
          + voices p x s.cell.active.get_list
          + (voices p x s.cell.release.put_list + voices p x s.cell.release.get_list)
  unfolding claimed in_cell claim state_code at_place
  claimed-account x = omega (
    arith,
    outside_only p x s.threads nobody,
    voices-append p x s.cell.active.put_list s.cell.active.get_list,
    voices-append p x s.cell.release.put_list s.cell.release.get_list,
    total-set (at_place p x) s.threads i entering (getting Which.active []) t,
  )

  claimed-chain : chain_total claimed.cell ≡ s.cell.chain_runs + 1
  unfolding claimed claim state_code chain_total
  claimed-chain = refl

  -- No sampler that is queued for the round is about to be dropped.
  abbrev pub QueuedMild : Type 0
  QueuedMild =
      All IsMild s.cell.active.put_list
      × All IsMild s.cell.active.get_list
      × All IsMild s.cell.release.put_list
      × All IsMild s.cell.release.get_list

  claimed-IsBegun : QueuedMild → IsBegun claimed
  unfolding claimed claim state_code happen MildPlace
  claimed-IsBegun (a, a', r, r') = record {
    sound = subst IsSound turn-claims (happen-IsSound d p s (turns i false) sound);
    begun = omega arith;
    mild_cell = (IsMild-append _ _ a a', IsMild-append _ _ r r');
    mild_places =
        All-set_of_le takes_part MildPlace MildPlace 0 s.threads i (getting Which.active [])
          (omega (arith, nobody)) (λ u _ m. m) (outside_mild s.threads nobody) tt;
  }

  -- From the moment a thread claims the round, whatever the threads, the player and the deadline do,
  -- and in whatever order: when the round is done, its buffer holds each sampler that was queued at
  -- the claim as often as it was queued if it has a windchest and its time has come, and no other;
  -- and the processing chain has run just once. This supposes that no queued sampler has a drop
  -- counter above three.
  pub round_mixes_once :
      QueuedMild
      → (es : List Event) → (run d p (turn d p i false s) es).cell.run_state ≡ done
      → ((x : ℕ)
          → count x (run d p (turn d p i false s) es).cell.buffer
            ≡ voices p x s.cell.active.put_list
              + voices p x s.cell.active.get_list
              + (voices p x s.cell.release.put_list + voices p x s.cell.release.get_list))
        × ((run d p (turn d p i false s) es).cell.chain_runs ≡ s.cell.chain_runs + 1)
  round_mixes_once m es = rw turn-claims λ h.
      let (g, (account, chain)) = run-Same d p claimed es (claimed-IsBegun m) in
      let last = run d p claimed es in
      (
        λ x. sym (done-account p x last g.sound h) ∙ account x ∙ claimed-account x,
        sym (done-chain last.cell h) ∙ chain ∙ claimed-chain,
      )
