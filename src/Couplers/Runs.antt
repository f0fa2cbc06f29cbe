-- ===== src/Couplers/Runs.antt =====
-- A coupler that is switched on or off, and all that happens to a coupler.
use grandorgue.Prelude.{
  ℕ, suc, Bool, Option, List, [], ◌∷◌, ◌++◌, length, set, map, ◌==◌, ◌≡◌, refl, ap, ap₂, sym, ◌∙◌,
  inl, inr, ==_iff, arith, Bool-cases,
}
use grandorgue.Couplers.{Coupler, Flags, Calls, set_key, refresh_out, on_drawstop_state_changed}
use grandorgue.Couplers.Output.{sent, IsFollowing, hear, hear-append, Tells, set_key-Tells}

refresh_out-map :
    (on : Bool) (i : ℕ) (l out : List ℕ)
    → length out ≡ length l
    → (refresh_out on i l out).0 ≡ map (sent on) l
unfolding refresh_out
refresh_out-map on i [] [] h = refl
refresh_out-map on i [] (o ∷ out) h = absurd (omega (arith, h))
refresh_out-map on i (v ∷ l) [] h = absurd (omega (arith, h))
refresh_out-map on i (v ∷ l) (o ∷ out) h =
    let rest = refresh_out-map on (suc i) l out (omega (arith, h)) in
    elim (Bool-cases (o == sent on v)) [
      | inl e ↦ rw e (ap₂ ◌∷◌ ((==_iff o (sent on v)).0 e) rest)
      | inr e ↦ rw e (ap (◌∷◌ (sent on v)) rest)
    ]

hear-shifted :
    (on : Bool) (i : ℕ) (l out d : List ℕ) (x : ℕ)
    → hear (refresh_out on (suc i) l out).1 (x ∷ d) ≡ x ∷ hear (refresh_out on i l out).1 d
unfolding refresh_out hear
hear-shifted on i [] out d x = refl
hear-shifted on i (v ∷ l) [] d x = refl
hear-shifted on i (v ∷ l) (o ∷ out) d x = elim (Bool-cases (o == sent on v)) [
  | inl e ↦ rw e (hear-shifted on (suc i) l out d x)
  | inr e ↦ rw e (hear-shifted on (suc i) l out (set d i (sent on v)) x)
]

hear-refresh_out :
    (on : Bool) (l out : List ℕ)
    → length out ≡ length l
    → hear (refresh_out on 0 l out).1 out ≡ map (sent on) l
unfolding refresh_out hear
hear-refresh_out on [] [] h = refl
hear-refresh_out on [] (o ∷ out) h = absurd (omega (arith, h))
hear-refresh_out on (v ∷ l) [] h = absurd (omega (arith, h))
hear-refresh_out on (v ∷ l) (o ∷ out) h =
    let rest = hear-refresh_out on l out (omega (arith, h)) in
    elim (Bool-cases (o == sent on v)) [
      | inl e ↦ rw e (hear-shifted on 0 l out out o ∙ ap₂ ◌∷◌ ((==_iff o (sent on v)).0 e) rest)
      | inr e ↦ rw e (hear-shifted on 0 l out out (sent on v) ∙ ap (◌∷◌ (sent on v)) rest)
    ]

length-map : (f : ℕ → ℕ) (l : List ℕ) → length (map f l) ≡ length l
length-map f [] = refl
length-map f (x ∷ l) = ap suc (length-map f l)

on_drawstop_state_changed-Tells :
    (on : Bool) (c : Coupler) → IsFollowing c → Tells c (on_drawstop_state_changed on c)
unfolding on_drawstop_state_changed
on_drawstop_state_changed-Tells on c h =
    let size : length c.out_velocity ≡ length c.internal_velocity =
      ap length h ∙ length-map (sent c.is_engaged) c.internal_velocity in
    let all = refresh_out-map on 0 c.internal_velocity c.out_velocity size in
    (all, hear-refresh_out on c.internal_velocity c.out_velocity size ∙ sym all)

-- What happens to a coupler: a key of its source manual changes, or it is switched on or off.
pub data Event : Type 0 where
  changes : ℕ → List (ℕ × Option Flags) → Event
  engages : Bool → Event

unfoldable pub happen : Coupler → Event → Coupler × Calls
happen c (changes note l) = set_key note l c
happen c (engages on) = on_drawstop_state_changed on c

unfoldable pub run : Coupler → List Event → Coupler × Calls
run c [] = (c, [])
run c (e ∷ es) = let (c', calls) = happen c e in let (c'', more) = run c' es in (c'', calls ++ more)

happen-Tells : (c : Coupler) (e : Event) → IsFollowing c → Tells c (happen c e)
unfolding happen
happen-Tells c (changes note l) h = set_key-Tells note l c h
happen-Tells c (engages on) h = on_drawstop_state_changed-Tells on c h

-- Whatever keys change and however often the coupler, of any type, is switched on and off: what it
-- sends on stays one less than each velocity of its own while it is engaged, and nothing while it is
-- not; and its calls of the destination manual, taken one after the other, leave there just that.
-- This supposes that the first part holds at the start.
pub run-Tells : (es : List Event) (c : Coupler) → IsFollowing c → Tells c (run c es)
unfolding run hear
run-Tells [] c h = (h, refl)
run-Tells (e ∷ es) c h =
    let (h1, k1) = happen-Tells c e h in
    let c1 = (happen c e).0 in
    let (h2, k2) = run-Tells es c1 h1 in
    (h2, hear-append (happen c e).1 (run c1 es).1 c.out_velocity ∙ ap (hear (run c1 es).1) k1 ∙ k2)
