-- ===== src/Sound/Round.antt =====
-- `Run` of src/grandorgue/sound/tasks/GOSoundWindchestGroupTask.cpp by several threads at once: the
-- steps of a thread, and runs in which the threads take turns in any order.
pub mod Threads
pub mod Invariant
pub mod Steps
pub mod Protocol
pub mod Ledger
pub mod Shares
pub mod Mixing
pub mod Progress
use grandorgue.Prelude.{
  ℕ, suc, ◌+◌, ◌-◌, Bool, true, false, Option, none, some, List, [], ◌∷◌, ◌++◌, get_elem?, set, ltb,
  if◌then◌else◌,
}
use grandorgue.Sound.SamplerList.{Sampler, SamplerList, is_nil, get}
use grandorgue.Sound.Cell.{
  Cell, Dsp, Player, RunState, not_started, in_progress, partly_done, done, state_code, add, claim,
  join, process_one, merge,
}

-- Which list `ProcessList` works on.
pub data Which : Type 0 where
  active release : Which

-- Where a thread is, with its local buffer: outside `Run`, before the first lock, in the loop of
-- `ProcessList` without and with a sampler, and before the second lock.
pub data Place : Type 0 where
  outside entering : Place
  getting : Which → List ℕ → Place
  holding : Which → Sampler → List ℕ → Place
  merging : List ℕ → Place

abbrev pub list_of : Which → Cell → SamplerList
list_of active c = c.active
list_of release c = c.release

unfoldable pub with_list : Which → SamplerList → Cell → Cell
with_list active q c = record c { active = q }
with_list release q c = record c { release = q }

-- `isToDropOld` of the two calls.
abbrev pub drops_old : Which → Bool
drops_old active = false
drops_old release = true

abbrev pub after_list : Which → List ℕ → Place
after_list active local = getting release local
after_list release local = merging local

-- The first lock. `stops` tells that the thread was to stop and has not got it.
unfoldable pub enter : Bool → Cell → Cell × Place
enter true c = (c, outside)
enter false c = elim c.run_state [
  | not_started ↦ (claim c, getting active [])
  | _ ↦
      if is_nil c.active.get_list
      then (if is_nil c.release.get_list then (c, outside) else (join c, getting active []))
      else (join c, getting active [])
]

unfoldable pub take_next : Which → List ℕ → Cell → Cell × Place
take_next w local c = elim (get (list_of w c)) [
  | some (y, q) ↦ (with_list w q c, holding w y local)
  | none ↦ (c, after_list w local)
]

module _ (d : Dsp) (p : Player) where
  -- One step of a thread.
  unfoldable pub advance : Bool → Place → Cell → Cell × Place
  advance stops outside c = (c, (if ltb (state_code c.run_state) 3 then entering else outside))
  advance stops entering c = enter stops c
  advance stops (getting w local) c = take_next w local c
  advance stops (holding w y local) c =
      let (c', local') = process_one d p (drops_old w) y local c in (c', getting w local')
  advance stops (merging local) c = (merge local c, outside)

pub record System : Type 0 where
  pub cell : Cell
  pub threads : List Place

-- A thread takes a turn, the player adds a sampler, or the deadline of the round is set.
pub data Event : Type 0 where
  turns : ℕ → Bool → Event
  adds : Sampler → Event
  completes : Event

module _ (d : Dsp) (p : Player) where
  unfoldable pub turn : ℕ → Bool → System → System
  turn i stops s = elim (get_elem? s.threads i) [
    | none ↦ s
    | some t ↦
        let (c', t') = advance d p stops t s.cell in
        record { cell = c'; threads = set s.threads i t' }
  ]

  unfoldable pub happen : System → Event → System
  happen s (turns i stops) = turn i stops s
  happen s (adds y) = record s { cell = add y s.cell }
  happen s completes = record s { cell = record s.cell { is_to_complete = true } }

  unfoldable pub run : System → List Event → System
  run s [] = s
  run s (e ∷ es) = run (happen s e) es
