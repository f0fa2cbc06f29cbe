-- ===== src/Couplers.antt =====
-- GOCoupler of src/grandorgue/model/GOCoupler.h and GOCoupler.cpp. The calls of `SetKeyState` of the
-- destination manual are a result: pairs of a note and a velocity. A tone -1 is `none`.
pub mod Output
pub mod Runs
pub mod Single
use grandorgue.Prelude.{
  ℕ, zero, suc, ◌+◌, ◌-◌, Bool, true, false, not, ◌&&◌, ◌||◌, Option, none, some, List, [], ◌∷◌,
  ◌++◌, length, get_or, set, ltb, leb, ◌==◌, if◌then◌else◌,
}
use grandorgue.Prelude.Int.{ℤ, pos, negsuc, ◌+ℤ◌, ltb_ℤ, eq_ℤ}

pub data CouplerType : Type 0 where
  coupler_normal coupler_bass coupler_melody : CouplerType

-- Which subsequent couplers a coupler goes on to.
pub record Flags : Type 0 where
  pub unison_intermanual : Bool
  pub upward_intermanual : Bool
  pub downward_intermanual : Bool
  pub upward_intramanual : Bool
  pub downward_intramanual : Bool

pub record Coupler : Type 0 where
  pub coupler_type : CouplerType
  pub unison_off : Bool
  pub is_new_bas_mel : Bool
  pub is_engaged : Bool
  pub is_intermanual : Bool
  pub keyshift : ℤ
  pub destination_keyshift : ℤ
  pub first_logical_key : ℕ
  pub number_of_keys : ℕ
  pub key_velocity : List ℕ
  pub internal_velocity : List ℕ
  pub out_velocity : List ℕ
  pub current_tone : Option ℕ
  pub last_tone : Option ℕ

abbrev pub Calls : Type 0
Calls = List (ℕ × ℕ)

abbrev pub velocity_at : List ℕ → ℕ → ℕ
velocity_at l i = get_or l i 0

-- `SetOut` for a note that is not negative.
unfoldable pub set_out_at : ℕ → ℕ → Coupler → Coupler × Calls
set_out_at note velocity c =
    if leb (length c.internal_velocity) note
    then (c, [])
    else if velocity_at c.internal_velocity note == velocity
    then (c, [])
    else let c' = record c { internal_velocity = set c.internal_velocity note velocity } in
      if not c.is_engaged then (c', []) else (
        record c' { out_velocity = set c.out_velocity note (velocity - 1) },
        (note, velocity - 1) ∷ [],
      )

unfoldable pub set_out : ℤ → ℕ → Coupler → Coupler × Calls
set_out (pos note) velocity c = set_out_at note velocity c
set_out (negsuc n) velocity c = (c, [])

-- The first pressed key from index i on, and the last below `n`.
unfoldable pub first_pressed : ℕ → List ℕ → Option ℕ
first_pressed i [] = none
first_pressed i (v ∷ l) = if ltb 0 v then some i else first_pressed (suc i) l

unfoldable pub last_pressed : ℕ → List ℕ → Option ℕ
last_pressed zero l = none
last_pressed (suc n) l = if ltb 0 (velocity_at l n) then some n else last_pressed n l

unfoldable pub drop_keys : ℕ → List ℕ → List ℕ
drop_keys zero l = l
drop_keys (suc n) [] = []
drop_keys (suc n) (v ∷ l) = drop_keys n l

-- `GetNextBasMelPressedKey`.
unfoldable pub next_pressed_key : Option ℕ → Coupler → Option ℕ
next_pressed_key after c = elim c.coupler_type [
  | coupler_normal ↦ none
  | coupler_bass ↦ (elim after [
    | none ↦ first_pressed 0 c.key_velocity
    | some k ↦ first_pressed (suc k) (drop_keys (suc k) c.key_velocity)
  ])
  | coupler_melody ↦ (elim after [
    | none ↦ last_pressed (length c.key_velocity) c.key_velocity
    | some k ↦ last_pressed k c.key_velocity
  ])
]

abbrev pub same_tone : Option ℕ → Option ℕ → Bool
same_tone none none = true
same_tone none (some b) = false
same_tone (some a) none = false
same_tone (some a) (some b) = a == b

-- note < tone and note > tone, where the tone may be -1.
abbrev pub below_tone : ℕ → Option ℕ → Bool
below_tone note none = false
below_tone note (some t) = ltb note t

abbrev pub above_tone : ℕ → Option ℕ → Bool
above_tone note none = true
above_tone note (some t) = ltb t note

-- The new `m_LastTone`; `next` is the next candidate.
unfoldable pub new_last_tone : CouplerType → ℕ → ℕ → Option ℕ → Option ℕ
new_last_tone coupler_melody note velocity next =
    if ltb 0 velocity
    then (if above_tone note next
        then some note
        else elim next [ none ↦ some note | some t ↦ if ltb 0 t then some t else some note ])
    else if above_tone note next
    then none
    else next
new_last_tone _ note velocity next =
    if ltb 0 velocity
    then (if below_tone note next
        then some note
        else elim next [ none ↦ some note | some t ↦ some t ])
    else if below_tone note next
    then none
    else next

-- The current tone is cancelled if it is not the next one.
unfoldable pub cancel_tone : Option ℕ → Coupler → Coupler × Calls
cancel_tone next c = elim c.current_tone [
  | none ↦ (c, [])
  | some t ↦
      if same_tone next (some t)
      then (c, [])
      else let (c', calls) = set_out (pos t +ℤ c.keyshift) 0 c in
        (record c' { current_tone = none }, calls)
]

unfoldable pub choose_tone : Option ℕ → ℕ → ℕ → Coupler → Coupler
choose_tone next note velocity c =
    if (ltb 0 velocity && same_tone next (some note))
      || (velocity == 0 && same_tone next c.last_tone)
    then record c { current_tone = next }
    else c

unfoldable pub send_tone : Coupler → Coupler × Calls
send_tone c = elim c.current_tone [
  | none ↦ (c, [])
  | some t ↦ set_out (pos t +ℤ c.keyshift) (velocity_at c.key_velocity t) c
]

unfoldable pub note_last : Option ℕ → ℕ → ℕ → Coupler → Coupler
note_last next note velocity c =
    if c.is_new_bas_mel
    then record c {
      last_tone = new_last_tone c.coupler_type note velocity (next_pressed_key next c);
    }
    else record c { last_tone = if ltb 0 velocity then some note else none }

-- `ChangeKey` of a bass or melody coupler.
unfoldable pub change_single : ℕ → ℕ → Coupler → Coupler × Calls
change_single note velocity c =
    let next = next_pressed_key none c in
    let (c1, off) = cancel_tone next c in
    let (c2, on) = send_tone (choose_tone next note velocity c1) in
    (note_last next note velocity c2, off ++ on)

unfoldable pub change_key : ℕ → ℕ → Coupler → Coupler × Calls
change_key note velocity c = if c.unison_off then (c, []) else elim c.coupler_type [
  | coupler_normal ↦ set_out (pos note +ℤ c.keyshift) velocity c
  | _ ↦ change_single note velocity c
]

-- May this coupler follow the one that a velocity came through?
unfoldable pub may_follow : Coupler → Flags → Bool
may_follow c f =
    let shift = c.destination_keyshift in
    let down = ltb_ℤ shift (pos 0) in
    let up = ltb_ℤ (pos 0) shift in
    (f.unison_intermanual && eq_ℤ shift (pos 0))
    || (f.downward_intramanual && down && not c.is_intermanual)
    || (f.upward_intramanual && up && not c.is_intermanual)
    || (f.downward_intermanual && down && c.is_intermanual)
    || (f.upward_intermanual && up && c.is_intermanual)

-- The loop of `SetKey`: the velocities with the couplers that they came through, if any.
unfoldable pub greatest : Coupler → ℕ → List (ℕ × Option Flags) → ℕ
greatest c velocity [] = velocity
greatest c velocity ((v, through) ∷ l) =
    let counts : Bool = elim through [ none ↦ true | some f ↦ may_follow c f ] in
    greatest c (if counts && ltb velocity v then v else velocity) l

unfoldable pub set_key : ℕ → List (ℕ × Option Flags) → Coupler → Coupler × Calls
set_key note l c =
    if leb (length c.key_velocity) note
    then (c, [])
    else if ltb note c.first_logical_key || leb (c.first_logical_key + c.number_of_keys) note
    then (c, [])
    else let velocity = greatest c 0 l in
      if velocity_at c.key_velocity note == velocity
      then (c, [])
      else change_key note velocity (record c { key_velocity = set c.key_velocity note velocity })

-- The loop of `OnDrawstopStateChanged`, from note i on.
unfoldable pub refresh_out : Bool → ℕ → List ℕ → List ℕ → List ℕ × Calls
refresh_out on i [] out = (out, [])
refresh_out on i (v ∷ l) [] = ([], [])
refresh_out on i (v ∷ l) (o ∷ out) =
    let new = if on then v - 1 else 0 in
    let (out', calls) = refresh_out on (suc i) l out in
    if o == new then (o ∷ out', calls) else (new ∷ out', (i, new) ∷ calls)

-- `OnDrawstopStateChanged` of a coupler that is not a unison off, once it is engaged or not.
unfoldable pub on_drawstop_state_changed : Bool → Coupler → Coupler × Calls
on_drawstop_state_changed on c =
    let (out, calls) = refresh_out on 0 c.internal_velocity c.out_velocity in
    (record c { is_engaged = on; out_velocity = out }, calls)
