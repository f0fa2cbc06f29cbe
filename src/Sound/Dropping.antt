-- ===== src/Sound/Dropping.antt =====
-- The drop counter of GOSoundWindchestGroupTask::ProcessList, of
-- src/grandorgue/sound/tasks/GOSoundWindchestGroupTask.cpp.
use grandorgue.Prelude.{
  ℕ, ◌≡◌, sym, subst, inl, inr, if◌then◌else◌, Bool, true, false, List, arith, All, Bool-cases,
}
use grandorgue.Sound.SamplerList.{Sampler, put}
use grandorgue.Sound.Cell.{
  Cell, Dsp, Player, Fate, kept, returned, released, add, settle, count_late, process_sampler,
  process_one,
}
use grandorgue.Sound.Round.Ledger.{IsMild, reset, process_one-mild}

-- A predicate on each sampler that waits for the next round.
abbrev pub Put : (Sampler → Type 0) → Cell → Type 0
Put q c = All q c.active.put_list × All q c.release.put_list

abbrev pub IsReset : Sampler → Type 0
IsReset y = y.drop_counter ≡ 0

Put-if :
    (q : Sampler → Type 0) (b : Bool) (c c' : Cell)
    → Put q c
    → Put q c'
    → Put q (if b then c else c')
Put-if q true c c' h h' = h
Put-if q false c c' h h' = h'

module _ (q : Sampler → Type 0) where
  add-Put : (y : Sampler) (c : Cell) → q y → Put q c → Put q (add y c)
  unfolding add
  add-Put y c m (a, r) =
      Put-if q y.is_release (record c { release = put y c.release })
        (record c { active = put y c.active }) (a, (m, r)) ((m, a), r)

  settle-Put : (y : Sampler) (f : Fate) (c : Cell) → q y → Put q c → Put q (settle y f c)
  unfolding settle
  settle-Put y kept c m h = add-Put y c m h
  settle-Put y returned c m h = h
  settle-Put y released c m h = h

module _ (d : Dsp) (p : Player) where
  processed_counter : (y : Sampler) → (process_sampler d p y).0.drop_counter ≡ y.drop_counter
  unfolding process_sampler
  processed_counter y = ground arith

  reset_processed : (y : Sampler) → IsReset (process_sampler d p (reset y)).0
  unfolding reset
  reset_processed y = processed_counter (reset y)

  process_one-settles :
      (y : Sampler) (l : List ℕ) (c : Cell)
      → y.windchest ≡ true
      → (process_one d p false y l c).0
        ≡ settle (process_sampler d p (reset y)).0 (process_sampler d p (reset y)).2 c
  unfolding process_one reset count_late
  process_one-settles y l c e = simp (e, process_one)

  process_one-leaves :
      (y : Sampler) (l : List ℕ) (c : Cell)
      → y.windchest ≡ false
      → (process_one d p false y l c).0 ≡ c
  unfolding process_one
  process_one-leaves y l c e = simp (e, process_one)

  plain-Put :
      (q : Sampler → Type 0)
      → ((y : Sampler) → IsReset y → q y)
      → (y : Sampler) (l : List ℕ) (c : Cell) → Put q c
      → Put q (process_one d p false y l c).0
  plain-Put q zero_holds y l c h = elim (Bool-cases y.windchest) [
    | inl e ↦ subst (Put q) (sym (process_one-settles y l c e)) (
        settle-Put q (process_sampler d p (reset y)).0 (process_sampler d p (reset y)).2 c
          (zero_holds _ (reset_processed y)) h)
    | inr e ↦ subst (Put q) (sym (process_one-leaves y l c e)) h
  ]

  -- A sampler whose drop counter is at most three is processed in the same way whether or not old
  -- samplers are to be dropped and the deadline has come: it is not dropped, and the step up of its
  -- counter leaves no trace. If no sampler that waits for the next round has a counter above three,
  -- none has one afterwards, and if each has the counter 0, each has it afterwards.
  pub process_one_never_drops :
      (b : Bool) (y : Sampler) (l : List ℕ) (c : Cell)
      → IsMild y
      → Put IsMild c
      → (process_one d p b y l c ≡ process_one d p false y l c)
        × Put IsMild (process_one d p b y l c).0
        × (Put IsReset c → Put IsReset (process_one d p b y l c).0)
  process_one_never_drops b y l c m h =
      let same = process_one-mild d p b y l c m in
      (
        same,
        rw same (plain-Put IsMild (λ x e. omega (arith, e)) y l c h),
        λ k. rw same (plain-Put IsReset (λ x e. e) y l c k),
      )
