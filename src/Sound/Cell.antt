-- ===== src/Sound/Cell.antt =====
-- GOSoundWindchestGroupTask of src/grandorgue/sound/tasks: the samplers of a windchest that sound in
-- an audio group, and the buffer that they are mixed into; and what it calls of
-- GOSoundSamplerPlayer. The buffer is the list of the samplers whose sound has been added into it:
-- `FillWithSilence` empties it, and adding a buffer to another puts the lists together.
use grandorgue.Prelude.{
  ℕ, ◌+◌, ◌-◌, ◌*◌, ◌%◌, ◌^◌, Bool, true, false, not, ◌&&◌, ◌||◌, Option, none, some, List, [], ◌∷◌,
  ◌++◌, ltb, leb, ◌==◌, if◌then◌else◌,
}
use grandorgue.Sound.SamplerList.{Sampler, SamplerList, no_samplers, is_empty, put, move}

pub data RunState : Type 0 where
  not_started in_progress partly_done done : RunState

unfoldable pub state_code : RunState → ℕ
state_code not_started = 0
state_code in_progress = 1
state_code partly_done = 2
state_code done = 3

-- What the signal processing answers: does the stream go on after a block, and is the fader silent?
pub record Dsp : Type 0 where
  pub read_block : Sampler → Bool
  pub is_silent : Sampler → Bool

-- The state of the player that a round reads.
pub record Player : Type 0 where
  pub current_time : ℕ
  pub is_polyphony_limiting : Bool
  pub used_samplers : ℕ
  pub soft_limit : ℕ

-- Where a sampler goes after its block: back to its list, to the pool, or to the release task.
pub data Fate : Type 0 where
  kept returned released : Fate

abbrev pub u64 : ℕ → ℕ
u64 n = n % 2 ^ 64

abbrev pub is_due : Player → Sampler → Bool
is_due p y = leb y.time p.current_time

-- The release tails that are made to fade out.
abbrev pub is_to_fade : Player → Sampler → Bool
is_to_fade p y =
    y.is_release
    && ((p.is_polyphony_limiting
          && leb p.soft_limit p.used_samplers
          && ltb (172 * 16) (p.current_time - y.time))
        || ltb 1 y.drop_counter)

abbrev pub is_over : ℕ → Player → Bool
is_over t p = ltb 0 t && leb t p.current_time

module _ (d : Dsp) (p : Player) where
  -- The block of a sampler that is due.
  abbrev pub sound_block : Sampler → Sampler
  sound_block y =
      let faded : Sampler = if is_to_fade p y then record y { is_fading = true } else y in
      record faded { provider = faded.provider && d.read_block faded }

  -- `ProcessSampler`: the sampler, whether it has been mixed, and its fate.
  unfoldable pub process_sampler : Sampler → Sampler × Bool × Fate
  process_sampler y =
      if is_due p y
      then (let y' = sound_block y in
          if is_over y.stop p || is_over y.new_attack p
          then (y', true, released)
          else if not y'.provider || d.is_silent y'
          then (y', true, returned)
          else (y', true, kept))
      else if not y.provider
      then (y, false, returned)
      else (y, false, kept)

pub record Cell : Type 0 where
  pub run_state : RunState
  pub is_to_complete : Bool
  pub active : SamplerList
  pub release : SamplerList
  pub active_count : ℕ
  pub buffer : List ℕ
  -- How often `OnMixed` has run the chain, and the samplers given to the pool and to the release task.
  pub chain_runs : ℕ
  pub pool : List ℕ
  pub releasing : List ℕ

unfoldable pub fresh : Cell
fresh = record {
  run_state = not_started;
  is_to_complete = false;
  active = no_samplers;
  release = no_samplers;
  active_count = 0;
  buffer = [];
  chain_runs = 0;
  pool = [];
  releasing = [];
}

unfoldable pub add : Sampler → Cell → Cell
add y c =
    if y.is_release
    then record c { release = put y c.release }
    else record c { active = put y c.active }

unfoldable pub get_cost : Cell → ℕ
get_cost c = (c.active.put_count + c.release.put_count) % 2 ^ 32

unfoldable pub is_cell_empty : Cell → Bool
is_cell_empty c = is_empty c.active && is_empty c.release

-- The state of the chain is not modelled.
unfoldable pub discard_content : Cell → Cell
discard_content c = record c { active = no_samplers; release = no_samplers }

-- `RUN_STATE_NOT_STARTED` to `RUN_STATE_IN_PROGRESS`, by the first thread.
unfoldable pub claim : Cell → Cell
claim c = record c {
  active = move c.active;
  release = move c.release;
  run_state = in_progress;
  active_count = c.active_count + 1;
}

unfoldable pub join : Cell → Cell
join c = record c { active_count = c.active_count + 1 }

-- Is the sampler old, at the deadline of the round?
abbrev pub is_late : Player → Cell → Sampler → Bool
is_late p c y = c.is_to_complete && ltb (u64 (y.time + 2000)) p.current_time

unfoldable pub settle : Sampler → Fate → Cell → Cell
settle y kept c = add y c
settle y returned c = record c { pool = y.id ∷ c.pool }
settle y released c = record c { releasing = y.id ∷ c.releasing }

abbrev pub mix : Sampler → Bool → List ℕ → List ℕ
mix y sounded local = if sounded then y.id ∷ local else local

-- `drop_counter++`, an `unsigned`, for a late sampler of a list whose old samplers are dropped.
unfoldable pub count_late : Bool → Sampler → Sampler
count_late late y = if late then record y { drop_counter = (y.drop_counter + 1) % 2 ^ 32 } else y

module _ (d : Dsp) (p : Player) where
  -- The body of the loop of `ProcessList`, from the test for late samplers on: the counter of a late
  -- sampler is compared as it was, and goes up by one.
  unfoldable pub process_one : Bool → Sampler → List ℕ → Cell → Cell × List ℕ
  process_one is_to_drop_old y local c =
      let late = is_to_drop_old && is_late p c y in
      let counted = count_late late y in
      if late && ltb 3 y.drop_counter
      then (record c { pool = y.id ∷ c.pool }, local)
      else if not y.windchest
      then (c, local)
      else let (y', sounded, fate) = process_sampler d p (record counted { drop_counter = 0 }) in
        (settle y' fate c, mix y' sounded local)

-- The end of `Run`, under the mutex: the share of a thread is merged, and the last one runs the
-- chain and publishes the round.
unfoldable pub store_share : List ℕ → Cell → Cell
store_share local c = elim c.run_state [
  | in_progress ↦ record c { buffer = local; run_state = partly_done }
  | _ ↦ record c { buffer = c.buffer ++ local }
]

unfoldable pub publish_done : Cell → Cell
publish_done c = record c { chain_runs = c.chain_runs + 1; run_state = done }

unfoldable pub leave : Cell → Cell
leave c =
    let left = record c { active_count = c.active_count - 1 } in
    if leb c.active_count 1 then publish_done left else left

unfoldable pub merge : List ℕ → Cell → Cell
merge local c = leave (store_share local c)

-- `NewRound` with `DoNewRound`; `none` is a failed assertion.
unfoldable pub new_round : Cell → Option Cell
new_round c =
    if c.active_count == 0 && (state_code c.run_state == 0 || state_code c.run_state == 3)
    then some (record c { active_count = 0; is_to_complete = false; run_state = not_started })
    else none

-- May `EnsureBufferReady` stop waiting? It has noted the round's number before it called `Run`.
unfoldable pub may_return : Cell → ℕ → ℕ → Bool → Bool
may_return c noted round_number should_stop =
    not (ltb (state_code c.run_state) 3) || not (round_number == noted) || should_stop
