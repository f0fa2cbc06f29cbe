-- ===== src/Sound/Round/Ledger.antt =====
-- An account of the samplers of an open round: each is still in its list, with a thread, in the
-- local buffer of a thread or in the common buffer.
use grandorgue.Prelude.{
  ℕ, ◌+◌, ◌≤◌, ◌≡◌, refl, ap, ap₂, ◌∙◌, inl, inr, Bool, true, false, List, [], ◌∷◌, ◌++◌, arith,
  All, Bool-cases, ltb, leb, if◌then◌else◌, ◌==◌, ◌&&◌,
}
use grandorgue.Sound.SamplerList.{Sampler}
use grandorgue.Sound.Cell.{
  Cell, Dsp, Player, state_code, process_one, process_sampler, mix, is_late, is_due, count_late,
}
use grandorgue.Sound.Round.{Place, outside, entering, getting, holding, merging}
use grandorgue.Sound.Round.Threads.{total}

-- Such a sampler is never dropped, since its counter is set back to zero before it is processed.
abbrev pub IsMild : Sampler → Type 0
IsMild y = y.drop_counter ≤ 3

-- A sampler sounds if it has a windchest and its time has come.
abbrev pub sounds : Player → Sampler → Bool
sounds p y = y.windchest && is_due p y

abbrev pub hits : ℕ → ℕ → ℕ
hits x k = if k == x then 1 else 0

-- How often a name is in a buffer.
abbrev pub count : ℕ → List ℕ → ℕ
count x l = total (hits x) l

abbrev pub voice : Player → ℕ → Sampler → ℕ
voice p x y = if sounds p y then hits x y.id else 0

-- How many samplers of a list have the name and sound.
abbrev pub voices : Player → ℕ → List Sampler → ℕ
voices p x l = total (voice p x) l

-- The common buffer is the round's from the first share on.
unfoldable pub in_cell : Player → ℕ → Cell → ℕ
in_cell p x c =
    voices p x c.active.get_list
    + voices p x c.release.get_list
    + (if leb 2 (state_code c.run_state) then count x c.buffer else 0)

unfoldable pub at_place : Player → ℕ → Place → ℕ
at_place p x outside = 0
at_place p x entering = 0
at_place p x (getting w l) = count x l
at_place p x (holding w y l) = voice p x y + count x l
at_place p x (merging l) = count x l

-- The chain runs that a round still owes.
unfoldable pub chain_total : Cell → ℕ
chain_total c = c.chain_runs + (if leb 3 (state_code c.run_state) then 0 else 1)

unfoldable pub MildPlace : Place → Type 0
MildPlace (holding w y l) = IsMild y
MildPlace _ = Unit

abbrev pub MildCell : Cell → Type 0
MildCell c = All IsMild c.active.get_list × All IsMild c.release.get_list

pub count-append : (x : ℕ) (l l' : List ℕ) → count x (l ++ l') ≡ count x l + count x l'
count-append x [] l' = omega arith
count-append x (k ∷ l) l' = omega (arith, count-append x l l')

unfoldable pub reset : Sampler → Sampler
reset y = record y { drop_counter = 0 }

-- The counter is set back, whether it has gone up or not.
pub reset-count_late : (late : Bool) (y : Sampler) → reset (count_late late y) ≡ reset y
unfolding count_late reset
reset-count_late true y = refl
reset-count_late false y = refl

module _ (d : Dsp) (p : Player) where
  -- What `ProcessList` does with a mild sampler is the same whether it drops old ones or not.
  pub process_one-mild :
      (b : Bool) (y : Sampler) (l : List ℕ) (c : Cell)
      → IsMild y
      → process_one d p b y l c ≡ process_one d p false y l c
  unfolding process_one reset
  process_one-mild b y l c h =
      let e : ltb 3 y.drop_counter ≡ false = ground arith in
      let f : (b && is_late p c y && ltb 3 y.drop_counter) ≡ false = ground (arith, e) in
      simp (f, reset-count_late, process_one)

  process_sampler-sounds : (y : Sampler) → (process_sampler d p y).1 ≡ is_due p y
  unfolding process_sampler
  process_sampler-sounds y = ground arith

  process_sampler-id : (y : Sampler) → (process_sampler d p y).0.id ≡ y.id
  unfolding process_sampler
  process_sampler-id y = ground arith

  mix-count :
      (x : ℕ) (y : Sampler) (b : Bool) (l : List ℕ)
      → count x (mix y b l) ≡ (if b then hits x y.id else 0) + count x l
  mix-count x y true l = refl
  mix-count x y false l = omega arith

  process_one-sounds :
      (y : Sampler) (l : List ℕ) (c : Cell)
      → y.windchest ≡ true
      → (process_one d p false y l c).1
        ≡ mix (process_sampler d p (reset y)).0 (process_sampler d p (reset y)).1 l
  unfolding process_one reset count_late
  process_one-sounds y l c e = simp (e, process_one)

  process_one-silent :
      (y : Sampler) (l : List ℕ) (c : Cell)
      → y.windchest ≡ false
      → (process_one d p false y l c).1 ≡ l
  unfolding process_one
  process_one-silent y l c e = simp (e, process_one)

  pub process_one-count :
      (x : ℕ) (y : Sampler) (l : List ℕ) (c : Cell)
      → count x (process_one d p false y l c).1 ≡ voice p x y + count x l
  unfolding reset
  process_one-count x y l c = elim (Bool-cases y.windchest) [
    | inl e ↦
        ap (count x) (process_one-sounds y l c e)
        ∙ mix-count x (process_sampler d p (reset y)).0 (process_sampler d p (reset y)).1 l
        ∙ ap₂ (λ b k. (if b then hits x k else 0) + count x l)
            (process_sampler-sounds (reset y) ∙ refl) (process_sampler-id (reset y))
        ∙ simp e
    | inr e ↦ ap (count x) (process_one-silent y l c e) ∙ ground (arith, e)
  ]
