-- ===== src/Examples/Rounds.antt =====
-- src/grandorgue/sound/tasks/GOSoundWindchestGroupTask.cpp with two threads and three samplers.
use grandorgue.Prelude.{
  ℕ, ◌+◌, ◌≤◌, ◌≡◌, inr, refl, Bool, true, false, some, List, [], ◌∷◌, arith, length,
}
use grandorgue.Sound.SamplerList.{Sampler, get}
use grandorgue.Sound.Cell.{
  Cell, Dsp, Player, not_started, in_progress, done, state_code, fresh, add, claim, join, settle,
  count_late, process_one, process_sampler, store_share, publish_done, leave, merge, new_round,
}
use grandorgue.Sound.Round.{
  Which, outside, entering, holding, System, Event, turns, completes, with_list, enter, take_next,
  advance, turn, happen, run,
}
use grandorgue.Sound.Round.Threads.{total}
use grandorgue.Sound.Round.Invariant.{takes_part, Fits}
use grandorgue.Sound.Round.Protocol.{IsSound, SameResult, done_is_final, new_round-IsSound}
use grandorgue.Sound.Round.Ledger.{IsMild, count, voices}
use grandorgue.Sound.Round.Mixing.{round_mixes_once}
use grandorgue.Sound.Round.Progress.{left_in, open_round_advances, round_finishes}
use grandorgue.Sound.Dropping.{Put, IsReset, process_one_never_drops}

abbrev dsp : Dsp
dsp = record { read_block = λ _. true; is_silent = λ _. false }

abbrev player : Player
player = record {
  current_time = 100;
  is_polyphony_limiting = false;
  used_samplers = 3;
  soft_limit = 10;
}

abbrev voice_of : ℕ → Bool → ℕ → Sampler
voice_of id is_release time = record {
  id = id;
  is_release = is_release;
  time = time;
  stop = 0;
  new_attack = 0;
  drop_counter = 0;
  provider = true;
  windchest = true;
  is_fading = false;
}

-- Sampler 3 is not due yet.
abbrev queued : Cell
queued = record {
  run_state = not_started;
  is_to_complete = false;
  active = record {
    get_list = [];
    put_list = voice_of 1 false 50 ∷ voice_of 3 false 200 ∷ [];
    put_count = 2;
  };
  release = record { get_list = []; put_list = voice_of 2 true 60 ∷ []; put_count = 1 };
  active_count = 0;
  buffer = 9 ∷ [];
  chain_runs = 4;
  pool = [];
  releasing = [];
}

abbrev waiting : System
waiting = record { cell = queued; threads = entering ∷ entering ∷ [] }

waiting-IsSound : IsSound waiting
unfolding takes_part Fits state_code
waiting-IsSound = record {
  cell_inv = record {
    counted = refl;
    idle = λ h. refl;
    ended = λ h. refl;
    open_round = λ h k. absurd (omega arith);
    drained = λ h. absurd (omega arith);
  };
  placed = (tt, (tt, tt));
}

-- The other thread joins, the deadline comes, and both work until the lists are empty.
abbrev both : List Event
both =
    turns 1 false
    ∷ turns 1 false
    ∷ completes
    ∷ turns 0 false
    ∷ turns 1 false
    ∷ turns 0 false
    ∷ turns 0 false
    ∷ turns 0 false
    ∷ turns 0 false
    ∷ turns 0 false
    ∷ turns 0 false
    ∷ turns 1 false
    ∷ turns 1 false
    ∷ turns 1 false
    ∷ []

abbrev finished : System
finished = run dsp player (turn dsp player 0 false waiting) both

finished_test : finished.cell.run_state ≡ done
unfolding run happen turn advance enter claim join take_next get with_list process_one
    process_sampler settle add merge leave store_share publish_done state_code count_late
finished_test = refl

buffer_test : finished.cell.buffer ≡ 2 ∷ 1 ∷ []
unfolding run happen turn advance enter claim join take_next get with_list process_one
    process_sampler settle add merge leave store_share publish_done state_code count_late
buffer_test = refl

round_mixes_once_example :
    ((x : ℕ)
      → count x finished.cell.buffer
        ≡ voices player x queued.active.put_list
          + voices player x queued.active.get_list
          + (voices player x queued.release.put_list + voices player x queued.release.get_list))
    × (finished.cell.chain_runs ≡ 4 + 1)
round_mixes_once_example =
    round_mixes_once dsp player waiting 0 waiting-IsSound refl refl
      ((omega arith, (omega arith, tt)), tt, (omega arith, tt), tt) both finished_test

abbrev closed : System
closed = record { cell = record fresh { run_state = done }; threads = outside ∷ entering ∷ [] }

closed-IsSound : IsSound closed
unfolding takes_part Fits state_code fresh
closed-IsSound = record {
  cell_inv = record {
    counted = refl;
    idle = λ h. refl;
    ended = λ h. refl;
    open_round = λ h k. absurd (omega arith);
    drained = λ h. (refl, refl);
  };
  placed = (tt, (tt, tt));
}

done_is_final_example :
    SameResult
      (run dsp player closed (turns 0 false ∷ turns 1 false ∷ turns 1 false ∷ [])).cell
      closed.cell
    × (total takes_part
          (run dsp player closed (turns 0 false ∷ turns 1 false ∷ turns 1 false ∷ [])).threads
        ≡ 0)
done_is_final_example =
    done_is_final dsp player closed (turns 0 false ∷ turns 1 false ∷ turns 1 false ∷ [])
      closed-IsSound refl

new_round-IsSound_example :
    (c : Cell) × (new_round closed.cell ≡ some c)
    × (c ≡ record closed.cell { active_count = 0; is_to_complete = false; run_state = not_started })
    × IsSound (record closed { cell = c })
new_round-IsSound_example = new_round-IsSound closed closed-IsSound (inr refl)

-- The round of `waiting`, claimed: a thread has taken the first sampler.
abbrev opened : System
opened = record {
  cell = record queued {
    run_state = in_progress;
    active = record { get_list = voice_of 3 false 200 ∷ []; put_list = []; put_count = 0 };
    active_count = 1;
  };
  threads = holding Which.active (voice_of 1 false 50) [] ∷ entering ∷ [];
}

opened-IsSound : IsSound opened
unfolding takes_part Fits state_code
opened-IsSound = record {
  cell_inv = record {
    counted = refl;
    idle = λ h. absurd (omega arith);
    ended = λ h. absurd (omega arith);
    open_round = λ h k. omega arith;
    drained = λ h. absurd (omega arith);
  };
  placed = (tt, (tt, tt));
}

open_round_advances_example :
    (i : ℕ) × ((b : Bool) → left_in (turn dsp player i b opened) + 1 ≡ left_in opened)
unfolding state_code
open_round_advances_example =
    open_round_advances dsp player opened opened-IsSound (omega arith, omega arith)

round_finishes_example :
    (es : List Event) × (length es ≤ left_in opened)
    × ((run dsp player opened es).cell.run_state ≡ done)
unfolding state_code
round_finishes_example = round_finishes dsp player opened opened-IsSound (omega arith)

-- A release tail that is late, in a round whose deadline has come.
process_one_never_drops_example :
    (process_one dsp
        (record player { current_time = 9000 })
        true
        (voice_of 2 true 60)
        []
        (record queued { is_to_complete = true })
      ≡ process_one dsp
          (record player { current_time = 9000 })
          false
          (voice_of 2 true 60)
          []
          (record queued { is_to_complete = true }))
    × Put IsMild
        (process_one dsp
          (record player { current_time = 9000 })
          true
          (voice_of 2 true 60)
          []
          (record queued { is_to_complete = true })).0
    × (Put IsReset (record queued { is_to_complete = true })
        → Put IsReset
            (process_one dsp
              (record player { current_time = 9000 })
              true
              (voice_of 2 true 60)
              []
              (record queued { is_to_complete = true })).0)
process_one_never_drops_example =
    process_one_never_drops dsp (record player { current_time = 9000 }) true (voice_of 2 true 60) []
      (record queued { is_to_complete = true }) (omega arith)
      ((omega arith, (omega arith, tt)), (omega arith, tt))
