-- ===== src/Sound/SamplerList.antt =====
-- GOSoundSampler and GOSoundSamplerList of src/grandorgue/sound/playing: two stacks, of the samplers
-- to take in this round and of those put back for the next. Each of `Get`, `Put` and `Move` takes
-- effect by one compare-and-exchange, and is one step here.
use grandorgue.Prelude.{
  ℕ, ◌+◌, ◌%◌, ◌^◌, Bool, true, false, ◌&&◌, Option, none, some, List, [], ◌∷◌, ◌++◌,
}

-- The fields that the tasks read and write. `provider` and `windchest` tell that the pointer is
-- not null; `is_fading` that the fader has been told to decrease the volume.
pub record Sampler : Type 0 where
  pub id : ℕ
  pub is_release : Bool
  pub time : ℕ
  pub stop : ℕ
  pub new_attack : ℕ
  pub drop_counter : ℕ
  pub provider : Bool
  pub windchest : Bool
  pub is_fading : Bool

pub record SamplerList : Type 0 where
  pub get_list : List Sampler
  pub put_list : List Sampler
  pub put_count : ℕ

abbrev pub is_nil : List Sampler → Bool
is_nil [] = true
is_nil (y ∷ l) = false

-- `Clear`, and so the constructor.
abbrev pub no_samplers : SamplerList
no_samplers = record { get_list = []; put_list = []; put_count = 0 }

abbrev pub peek : SamplerList → Option Sampler
peek q = elim q.get_list [ [] ↦ none | y ∷ l ↦ some y ]

abbrev pub is_empty : SamplerList → Bool
is_empty q = is_nil q.get_list && is_nil q.put_list

unfoldable pub get : SamplerList → Option (Sampler × SamplerList)
get q = elim q.get_list [ [] ↦ none | y ∷ l ↦ some (y, record q { get_list = l }) ]

abbrev pub put : Sampler → SamplerList → SamplerList
put y q = record q { put_list = y ∷ q.put_list; put_count = (q.put_count + 1) % 2 ^ 32 }

-- The samplers put come before those that were not taken.
abbrev pub move : SamplerList → SamplerList
move q = record { get_list = q.put_list ++ q.get_list; put_list = []; put_count = 0 }
