-- ===== src/Combinations/Drawstop/Internal.antt =====
-- The internal OR of a drawstop.
use grandorgue.Prelude.{
  Bool, true, false, not, ◌&&◌, xor, List, [], ◌∷◌, ◌≡◌, inl, inr, refl, ap, sym, ◌∙◌, arith, subst,
  Bool-cases,
}
use grandorgue.Prelude.Int.{pos, ltb_ℤ, eq_ℤ}
use grandorgue.Midi.NameMap.{Name, same_name, is_empty}
use grandorgue.Midi.NameMap.Laws.{same_name→eq}
use grandorgue.Combinations.Drawstop.{
  Drawstop, States, state_named, set_state, any_state, calculate_result_state, same,
  set_result_state, set_internal_state, set_drawstop_state, set_button_state, set_combination_state,
  clear_states, reset,
}

-- The drawstop is engaged if some internal state is on, and only then.
abbrev pub IsSettled : Drawstop → Type 0
IsSettled d = d.engaged ≡ any_state true d.internal_states

same→eq : (a b : Bool) → same a b ≡ true → a ≡ b
unfolding mathlib.Core.Bool.xor
same→eq true true h = refl
same→eq false false h = refl
same→eq true false h = cc
same→eq false true h = h

-- Writing the value that is there (or a missing false) leaves the OR as it was.
any-set_state_same :
    (b : Bool) (n : Name) (on : Bool) (l : States)
    → state_named n l ≡ on
    → any_state b (set_state n on l) ≡ any_state b l
unfolding any_state set_state state_named
any-set_state_same b n on [] h = ground (arith, h)
any-set_state_same b n on ((k, was) ∷ l) h = ground (arith, h, any-set_state_same b n on l)

set_result_state-engaged : (on : Bool) (d : Drawstop) → (set_result_state on d).0.engaged ≡ on
unfolding set_result_state
set_result_state-engaged on d = elim (Bool-cases (same d.engaged on)) [
  | inl e ↦ rw e (same→eq d.engaged on e)
  | inr e ↦ rw e refl
]

set_result_state-states :
    (on : Bool) (d : Drawstop) → (set_result_state on d).0.internal_states ≡ d.internal_states
unfolding set_result_state
set_result_state-states on d = elim (Bool-cases (same d.engaged on)) [
  | inl e ↦ rw e refl
  | inr e ↦ rw e refl
]

pub set_internal_state-states :
    (on : Bool) (n : Name) (d : Drawstop)
    → (set_internal_state on n d).0.internal_states ≡ set_state n on d.internal_states
unfolding set_internal_state
set_internal_state-states on n d = elim (Bool-cases (same (state_named n d.internal_states) on)) [
  | inl e ↦ rw e refl
  | inr e ↦
      rw e (
        set_result_state-states _ (record d { internal_states = set_state n on d.internal_states }))
]

set_internal_state-IsSettled :
    (on : Bool) (n : Name) (d : Drawstop) → IsSettled d → IsSettled (set_internal_state on n d).0
unfolding set_internal_state calculate_result_state
set_internal_state-IsSettled on n d h =
    elim (Bool-cases (same (state_named n d.internal_states) on)) [
      | inl e ↦ rw e (h ∙ sym (any-set_state_same true n on d.internal_states (same→eq _ on e)))
      | inr e ↦
          let d' = record d { internal_states = set_state n on d.internal_states } in
          rw e (
            set_result_state-engaged (any_state true d'.internal_states) d'
            ∙ ap (any_state true)
                (sym (set_result_state-states (any_state true d'.internal_states) d')))
    ]

-- A drawstop that obeys is engaged as the OR of its new states.
pub set_internal_state-engaged :
    (on : Bool) (n : Name) (d : Drawstop)
    → IsSettled d
    → (set_internal_state on n d).0.engaged ≡ any_state true (set_state n on d.internal_states)
set_internal_state-engaged on n d h =
    set_internal_state-IsSettled on n d h ∙ ap (any_state true) (set_internal_state-states on n d)

any-clear_states : (l : States) → any_state true (clear_states l) ≡ false
unfolding any_state clear_states
any-clear_states [] = refl
any-clear_states ((k, on) ∷ l) = any-clear_states l

set_button-IsSettled :
    (on : Bool) (d : Drawstop) → IsSettled d → IsSettled (set_button_state on d).0
unfolding set_button_state set_drawstop_state
set_button-IsSettled on d h =
    elim (Bool-cases (not d.read_only && not (calculate_result_state false d))) [
      | inl e ↦ rw e (set_internal_state-IsSettled on [] d h)
      | inr e ↦ rw e h
    ]

set_combination-IsSettled :
    (on : Bool) (n : Name) (d : Drawstop) → IsSettled d → IsSettled (set_combination_state on n d).0
unfolding set_combination_state
set_combination-IsSettled on n d h = elim (Bool-cases d.read_only) [
  | inl e ↦ simp (e, set_combination_state) h
  | inr e ↦ simp (e, set_combination_state) (set_internal_state-IsSettled on n d h)
]

reset-IsSettled : (d : Drawstop) → IsSettled d → IsSettled (reset d).0
unfolding reset set_button_state set_drawstop_state
reset-IsSettled d h = elim (Bool-cases (not d.read_only && not (ltb_ℤ d.gc_state (pos 0)))) [
  | inr e ↦ rw e h
  | inl e ↦ rw e (elim (Bool-cases (eq_ℤ d.gc_state (pos 0))) [
    | inl z ↦
        let d' = record d { internal_states = clear_states d.internal_states } in
        rw z (
          set_result_state-engaged false d'
          ∙ sym (
              ap (any_state true) (set_result_state-states false d')
              ∙ any-clear_states d.internal_states))
    | inr z ↦ rw z (set_button-IsSettled true d h)
  ])
]

-- What the user, the combinations and the crescendo do to a drawstop.
pub data Operation : Type 0 where
  pushes : Bool → Operation
  combines : Bool → Name → Operation
  resets : Operation

pub perform : Drawstop → Operation → Drawstop
perform d (pushes on) = (set_button_state on d).0
perform d (combines on n) = (set_combination_state on n d).0
perform d resets = (reset d).0

pub perform_all : Drawstop → List Operation → Drawstop
perform_all d [] = d
perform_all d (o ∷ os) = perform_all (perform d o) os

-- Whatever buttons, combinations and resets do to a drawstop that is engaged just when some internal
-- state of it is on: it stays so.
pub perform_all-IsSettled :
    (os : List Operation) (d : Drawstop) → IsSettled d → IsSettled (perform_all d os)
unfolding perform_all perform
perform_all-IsSettled [] d h = h
perform_all-IsSettled (pushes on ∷ os) d h =
    perform_all-IsSettled os (set_button_state on d).0 (set_button-IsSettled on d h)
perform_all-IsSettled (combines on n ∷ os) d h =
    perform_all-IsSettled os (set_combination_state on n d).0 (set_combination-IsSettled on n d h)
perform_all-IsSettled (resets ∷ os) d h = perform_all-IsSettled os (reset d).0 (reset-IsSettled d h)

any-named : (n : Name) (l : States) → state_named n l ≡ true → any_state true l ≡ true
unfolding any_state state_named
any-named n [] h = h
any-named n ((k, on) ∷ l) h = ground (arith, any-named n l, h)

any-named_filled :
    (n : Name) (l : States) → is_empty n ≡ false → state_named n l ≡ true → any_state false l ≡ true
unfolding any_state state_named
any-named_filled n [] f h = h
any-named_filled n ((k, on) ∷ l) f h = elim (Bool-cases (same_name k n)) [
  | inl e ↦
      let filled : is_empty k ≡ false = ap is_empty (same_name→eq k n e) ∙ f in
      ground (arith, h, e, filled)
  | inr e ↦ ground (arith, h, e, any-named_filled n l f)
]

named-set_state :
    (m n : Name) (on : Bool) (l : States)
    → same_name m n ≡ false
    → state_named n (set_state m on l) ≡ state_named n l
unfolding state_named set_state
named-set_state m n on [] h = ground (arith, h)
named-set_state m n on ((k, was) ∷ l) h = elim (Bool-cases (same_name k m)) [
  | inl e ↦
      let apart : same_name k n ≡ false = ap (λ q. same_name q n) (same_name→eq k m e) ∙ h in
      ground (arith, e, apart)
  | inr e ↦ ground (arith, e, named-set_state m n on l h)
]

-- Operations that do not let go of the state with the name: no reset, and no combination with it.
abbrev pub Spares : Name → List Operation → Type 0
Spares n [] = Unit {0}
Spares n (pushes on ∷ os) = Spares n os
Spares n (combines on m ∷ os) = (same_name m n ≡ false) × Spares n os
Spares n (resets ∷ os) = ⊥ × Spares n os

button_is_held :
    (on : Bool) (n : Name) (d : Drawstop)
    → is_empty n ≡ false
    → state_named n d.internal_states ≡ true
    → (set_button_state on d).0 ≡ d
unfolding set_button_state calculate_result_state
button_is_held on n d f h =
    let held = any-named_filled n d.internal_states f h in
    elim (Bool-cases d.read_only) [
      | inl e ↦ simp (e, set_button_state)
      | inr e ↦ simp (e, held, set_button_state)
    ]

combination_keeps :
    (on : Bool) (m n : Name) (d : Drawstop)
    → same_name m n ≡ false
    → state_named n (set_combination_state on m d).0.internal_states
      ≡ state_named n d.internal_states
unfolding set_combination_state
combination_keeps on m n d h = elim (Bool-cases d.read_only) [
  | inl e ↦ simp (e, set_combination_state)
  | inr e ↦
      simp (e, set_combination_state)
        (ap (state_named n) (set_internal_state-states on m d)
          ∙ named-set_state m n on d.internal_states h)
]

-- A drawstop that is engaged just when some internal state of it is on, and that a crescendo, or any
-- combination with a name that is not empty, holds, stays engaged through all pushes of its button
-- and all combinations with other names, until it is reset or that combination lets go of it.
pub held_stays_engaged :
    (n : Name) (os : List Operation) (d : Drawstop)
    → is_empty n ≡ false
    → Spares n os
    → IsSettled d
    → state_named n d.internal_states ≡ true
    → (perform_all d os).engaged ≡ true
unfolding perform_all perform
held_stays_engaged n [] d f sp h on = h ∙ any-named n d.internal_states on
held_stays_engaged n (pushes b ∷ os) d f sp h on =
    subst (λ q. (perform_all q os).engaged ≡ true) (sym (button_is_held b n d f on))
      (held_stays_engaged n os d f sp h on)
held_stays_engaged n (combines b m ∷ os) d f (apart, sp) h on =
    held_stays_engaged n os (set_combination_state b m d).0 f sp (set_combination-IsSettled b m d h)
      (combination_keeps b m n d apart ∙ on)
held_stays_engaged n (resets ∷ os) d f (impossible, sp) h on = absurd impossible
