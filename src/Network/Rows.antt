-- ===== src/Network/Rows.antt =====
-- The rows of a manual, with the velocity of each input of a key, and what a coupler takes from them.
use grandorgue.Prelude.{
  ℕ, zero, suc, ◌<◌, ◌≤◌, Bool, true, false, ◌&&◌, Option, none, some, List, [], ◌∷◌, length,
  length-set, get_or, get_or-set_self, get_or-set_ne, set, ltb, if◌then◌else◌, ◌≡◌, ◌≢◌, ◌⊎◌, inl,
  inr, refl, ap, sym, ◌∙◌, arith, Bool-cases, ==_iff, ◌==◌,
}
use grandorgue.Manuals.{Manual, velocity_of, inputs, store_key}
use grandorgue.Couplers.{Coupler, Flags, may_follow, greatest}
use grandorgue.Network.{paired}
use grandorgue.Network.Weights.{Toward}

abbrev pub entry : Manual → ℕ → ℕ → ℕ
entry m key coupler = velocity_of (inputs m key) coupler

pub store_key_self :
    (key v coupler : ℕ) (m : Manual)
    → key < length m.velocities_by_coupler
    → coupler < length (inputs m key)
    → entry (store_key key v coupler m) key coupler ≡ v
unfolding store_key
store_key_self key v coupler m h d =
    ap (λ row. velocity_of row coupler)
      (get_or-set_self m.velocities_by_coupler key (set (inputs m key) coupler v) [] h)
    ∙ get_or-set_self (inputs m key) coupler v 0 d

-- What a write makes of the row of any key.
pub inputs-store_key :
    (key v coupler k : ℕ) (m : Manual)
    → (inputs (store_key key v coupler m) k ≡ inputs m k)
      ⊎ ((k ≡ key) × (inputs (store_key key v coupler m) k ≡ set (inputs m k) coupler v))
unfolding store_key
inputs-store_key key v coupler k m = elim (Bool-cases (key == k)) [
  | inr e ↦ inl (
      get_or-set_ne m.velocities_by_coupler key k (set (inputs m key) coupler v) []
        (λ q. absurd (ground (arith, q, e))))
  | inl e ↦
      let e' : key ≡ k = (==_iff key k).0 e in
      elim (Bool-cases (ltb key (length m.velocities_by_coupler))) [
        | inl lt ↦ inr (
          sym e',
          rw (← e') (
              get_or-set_self m.velocities_by_coupler key (set (inputs m key) coupler v) []
                (ground (arith, lt))),
        )
        | inr ge ↦
            inl
              (ap (λ l. get_or l k []) (set_past m.velocities_by_coupler key (ground (arith, ge))))
      ]
]
  where
    set_past :
        (l : List (List ℕ)) (i : ℕ) → length l ≤ i → set l i (set (inputs m key) coupler v) ≡ l
    set_past [] i h = refl
    set_past (x ∷ l) zero h = absurd (omega arith)
    set_past (x ∷ l) (suc i) h = ap (◌∷◌ x) (set_past l i (omega arith))

pub store_key_other :
    (key v coupler k n : ℕ) (m : Manual)
    → (k ≢ key) ⊎ (n ≢ coupler)
    → entry (store_key key v coupler m) k n ≡ entry m k n
store_key_other key v coupler k n m ne = elim (inputs-store_key key v coupler k m) [
  | inl e ↦ rw e refl
  | inr (e, changed) ↦ (elim ne [
    | inl other ↦ absurd (other e)
    | inr other ↦ rw changed (get_or-set_ne (inputs m k) coupler n v 0 (λ q. other (sym q)))
  ])
]

pub set_small :
    (limit v : ℕ) (row : List ℕ) (i : ℕ)
    → v ≤ limit
    → ((j : ℕ) → velocity_of row j ≤ limit)
    → (j : ℕ) → velocity_of (set row i v) j ≤ limit
set_small limit v [] i h all j = all j
set_small limit v (x ∷ row) zero h all zero = h
set_small limit v (x ∷ row) zero h all (suc j) = all (suc j)
set_small limit v (x ∷ row) (suc i) h all zero = all zero
set_small limit v (x ∷ row) (suc i) h all (suc j) = set_small limit v row i h (λ n. all (suc n)) j

-- A write changes no sizes.
pub store_key-sizes :
    (key v coupler : ℕ) (m : Manual)
    → (length (store_key key v coupler m).velocities_by_coupler ≡ length m.velocities_by_coupler)
      × (length (store_key key v coupler m).velocity ≡ length m.velocity)
unfolding store_key
store_key-sizes key v coupler m =
    (length-set m.velocities_by_coupler key _, length-set m.velocity key _)

greatest_mono :
    (c : Coupler) (a b : ℕ) (l : List (ℕ × Option Flags)) → a ≤ b → greatest c a l ≤ greatest c b l
unfolding greatest
greatest_mono c a b [] h = h
greatest_mono c a b ((v, none) ∷ l) h =
    greatest_mono c (if ltb a v then v else a) (if ltb b v then v else b) l (ground (arith, h))
greatest_mono c a b ((v, some f) ∷ l) h = elim (Bool-cases (may_follow c f)) [
  | inl e ↦
      rw e (
        greatest_mono c (if ltb a v then v else a) (if ltb b v then v else b) l (ground (arith, h)))
  | inr e ↦ rw e (greatest_mono c a b l h)
]

raised_mono :
    (b : Bool) (a x y : ℕ)
    → x ≤ y
    → (if b && ltb a x then x else a) ≤ (if b && ltb a y then y else a)
raised_mono true a x y h = ground (arith, h)
raised_mono false a x y h = omega arith

greatest-set_up :
    (c : Coupler) (a : ℕ) (row : List ℕ) (l : List (Option Flags)) (i v : ℕ)
    → velocity_of row i ≤ v
    → greatest c a (paired row l) ≤ greatest c a (paired (set row i v) l)
unfolding greatest paired
greatest-set_up c a [] l i v h = omega arith
greatest-set_up c a (x ∷ row) [] zero v h = omega arith
greatest-set_up c a (x ∷ row) [] (suc i) v h = omega arith
greatest-set_up c a (x ∷ row) (none ∷ l) zero v h =
    greatest_mono c (if ltb a x then x else a) (if ltb a v then v else a) (paired row l)
      (ground (arith, h))
greatest-set_up c a (x ∷ row) (some f ∷ l) zero v h =
    let b = may_follow c f in
    greatest_mono c (if b && ltb a x then x else a) (if b && ltb a v then v else a) (paired row l)
      (raised_mono b a x v h)
greatest-set_up c a (x ∷ row) (none ∷ l) (suc i) v h =
    greatest-set_up c (if ltb a x then x else a) row l i v h
greatest-set_up c a (x ∷ row) (some f ∷ l) (suc i) v h =
    greatest-set_up c (if may_follow c f && ltb a x then x else a) row l i v h

greatest-set_down :
    (c : Coupler) (a : ℕ) (row : List ℕ) (l : List (Option Flags)) (i v : ℕ)
    → v ≤ velocity_of row i
    → greatest c a (paired (set row i v) l) ≤ greatest c a (paired row l)
unfolding greatest paired
greatest-set_down c a [] l i v h = omega arith
greatest-set_down c a (x ∷ row) [] zero v h = omega arith
greatest-set_down c a (x ∷ row) [] (suc i) v h = omega arith
greatest-set_down c a (x ∷ row) (none ∷ l) zero v h =
    greatest_mono c (if ltb a v then v else a) (if ltb a x then x else a) (paired row l)
      (ground (arith, h))
greatest-set_down c a (x ∷ row) (some f ∷ l) zero v h =
    let b = may_follow c f in
    greatest_mono c (if b && ltb a v then v else a) (if b && ltb a x then x else a) (paired row l)
      (raised_mono b a v x h)
greatest-set_down c a (x ∷ row) (none ∷ l) (suc i) v h =
    greatest-set_down c (if ltb a x then x else a) row l i v h
greatest-set_down c a (x ∷ row) (some f ∷ l) (suc i) v h =
    greatest-set_down c (if may_follow c f && ltb a x then x else a) row l i v h

pub greatest-set :
    (up : Bool) (c : Coupler) (row : List ℕ) (l : List (Option Flags)) (i v : ℕ)
    → Toward up (velocity_of row i) v
    → Toward up (greatest c 0 (paired row l)) (greatest c 0 (paired (set row i v) l))
greatest-set true c row l i v h = greatest-set_up c 0 row l i v h
greatest-set false c row l i v h = greatest-set_down c 0 row l i v h

greatest_bounded :
    (c : Coupler) (a limit : ℕ) (row : List ℕ) (l : List (Option Flags))
    → a ≤ limit
    → ((i : ℕ) → velocity_of row i ≤ limit)
    → greatest c a (paired row l) ≤ limit
unfolding greatest paired
greatest_bounded c a limit [] l h all = h
greatest_bounded c a limit (x ∷ row) [] h all = h
greatest_bounded c a limit (x ∷ row) (none ∷ l) h all =
    greatest_bounded c (if ltb a x then x else a) limit row l
      (let first = all zero in ground (arith, h, first)) (λ i. all (suc i))
greatest_bounded c a limit (x ∷ row) (some f ∷ l) h all =
    greatest_bounded c (if may_follow c f && ltb a x then x else a) limit row l
      (let first = all zero in ground (arith, h, first)) (λ i. all (suc i))

pub greatest_limit :
    (c : Coupler) (limit : ℕ) (row : List ℕ) (l : List (Option Flags))
    → ((i : ℕ) → velocity_of row i ≤ limit)
    → greatest c 0 (paired row l) ≤ limit
greatest_limit c limit row l all = greatest_bounded c 0 limit row l (omega arith) all

-- It does not matter to `greatest` what velocities the coupler keeps.
pub greatest-same :
    (c c' : Coupler) (a : ℕ) (l : List (ℕ × Option Flags))
    → ((f : Flags) → may_follow c' f ≡ may_follow c f)
    → greatest c' a l ≡ greatest c a l
unfolding greatest
greatest-same c c' a [] h = refl
greatest-same c c' a ((v, none) ∷ l) h = greatest-same c c' (if ltb a v then v else a) l h
greatest-same c c' a ((v, some f) ∷ l) h =
    rw (h f) (greatest-same c c' (if may_follow c f && ltb a v then v else a) l h)
