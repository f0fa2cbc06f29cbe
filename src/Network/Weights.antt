-- ===== src/Network/Weights.antt =====
-- How much the keys of the couplers can still move in one direction: what bounds a cascade of calls.
use native.Mathlib.Nat.{mul-le-mul_right}
use grandorgue.Prelude.{
  ◌*◌, ℕ, zero, suc, ◌+◌, ◌-◌, ◌<◌, ◌≤◌, Bool, true, false, List, [], ◌∷◌, length, set, ◌==◌, ◌≡◌,
  ◌≢◌, refl, inl, inr, arith, Bool-cases, ==_iff, if◌then◌else◌,
}
use grandorgue.Couplers.{Coupler, velocity_at}
use grandorgue.Network.{Wiring, Network, put_coupler}

-- From a to b, upward or downward.
abbrev pub Toward : Bool → ℕ → ℕ → Type 0
Toward true a b = a ≤ b
Toward false a b = b ≤ a

abbrev pub weight : Bool → ℕ → ℕ → ℕ
weight true limit x = limit - x
weight false limit x = x

unfoldable pub weigh : Bool → ℕ → List ℕ → ℕ
weigh up limit [] = 0
weigh up limit (x ∷ l) = weight up limit x + weigh up limit l

unfoldable pub total : (ℕ → ℕ) → ℕ → ℕ
total f zero = 0
total f (suc n) = total f n + f n

-- The weight of all keys of the couplers.
abbrev pub weight_of : Wiring → Bool → ℕ → Network → ℕ
weight_of w up limit net = total (λ i. weigh up limit (net.couplers i).key_velocity) w.coupler_count

weight-moves :
    (up : Bool) (limit a b : ℕ)
    → Toward up a b
    → a ≢ b
    → b ≤ limit
    → weight up limit b < weight up limit a
weight-moves true limit a b t ne le = elim (Bool-cases (a == b)) [
  | inl e ↦ absurd (ne ((==_iff a b).0 e))
  | inr e ↦ ground (arith, t, le)
]
weight-moves false limit a b t ne le = elim (Bool-cases (a == b)) [
  | inl e ↦ absurd (ne ((==_iff a b).0 e))
  | inr e ↦ ground (arith, t)
]

weigh-set :
    (up : Bool) (limit v : ℕ) (l : List ℕ) (i : ℕ)
    → i < length l
    → Toward up (velocity_at l i) v
    → velocity_at l i ≢ v
    → v ≤ limit
    → weigh up limit (set l i v) < weigh up limit l
unfolding weigh
weigh-set up limit v [] i h t ne le = absurd (omega arith)
weigh-set up limit v (x ∷ l) zero h t ne le =
    let m = weight-moves up limit x v t ne le in omega (arith, m)
weigh-set up limit v (x ∷ l) (suc i) h t ne le =
    let m = weigh-set up limit v l i (omega (arith, h)) t ne le in omega (arith, m)

total-same : (f g : ℕ → ℕ) (n : ℕ) → ((j : ℕ) → j < n → f j ≡ g j) → total f n ≡ total g n
unfolding total
total-same f g zero h = refl
total-same f g (suc n) h =
    rw (total-same f g n (λ j lt. h j (omega (arith, lt))), h n (omega arith)) refl

total-lt :
    (f g : ℕ → ℕ) (n i : ℕ)
    → i < n
    → f i < g i
    → ((j : ℕ) → j ≢ i → f j ≡ g j)
    → total f n < total g n
unfolding total
total-lt f g zero i h lt same = absurd (omega arith)
total-lt f g (suc n) i h lt same = elim (Bool-cases (i == n)) [
  | inl e ↦
      let e' : i ≡ n = (==_iff i n).0 e in
      let others : total f n ≡ total g n =
        total-same f g n (λ j below. same j (λ q. absurd (omega (arith, below, q, e')))) in
      let last : f n < g n = rw (← e') lt in omega (arith, others, last)
  | inr e ↦
      let rest = total-lt f g n i (ground (arith, h)) lt same in
      let last : f n ≡ g n = same n (λ q. absurd (ground (arith, q, e))) in
      omega (arith, rest, last)
]

-- A write of a coupler that moves one key on.
pub weight_of-put :
    (w : Wiring) (up : Bool) (limit i note v : ℕ) (c : Coupler) (net : Network)
    → i < w.coupler_count
    → c.key_velocity ≡ set (net.couplers i).key_velocity note v
    → note < length (net.couplers i).key_velocity
    → Toward up (velocity_at (net.couplers i).key_velocity note) v
    → velocity_at (net.couplers i).key_velocity note ≢ v
    → v ≤ limit
    → weight_of w up limit (put_coupler i c net) < weight_of w up limit net
weight_of-put w up limit i note v c net lt e inside t ne le =
    total-lt _ _ w.coupler_count i lt here (λ j other. there j other)
  where
    here :
        weigh up limit (if i == i then c else net.couplers i).key_velocity
        < weigh up limit (net.couplers i).key_velocity
    here =
        let self : (i == i) ≡ true = ground arith in
        rw (self, e) (weigh-set up limit v (net.couplers i).key_velocity note inside t ne le)

    there :
        (j : ℕ)
        → j ≢ i
        → weigh up limit (if j == i then c else net.couplers j).key_velocity
          ≡ weigh up limit (net.couplers j).key_velocity
    there j other = elim (Bool-cases (j == i)) [
      | inl q ↦ absurd (other ((==_iff j i).0 q))
      | inr q ↦ rw q refl
    ]

-- No network is heavier than this.
weight_limit : (up : Bool) (limit x : ℕ) → x ≤ limit → weight up limit x ≤ limit
weight_limit true limit x h = omega arith
weight_limit false limit x h = h

weigh_limit :
    (up : Bool) (limit : ℕ) (l : List ℕ)
    → ((k : ℕ) → velocity_at l k ≤ limit)
    → weigh up limit l ≤ length l * limit
unfolding weigh
weigh_limit up limit [] h = omega arith
weigh_limit up limit (x ∷ l) h =
    let first = weight_limit up limit x (h zero) in
    let rest = weigh_limit up limit l (λ k. h (suc k)) in
    let product : suc (length l) * limit ≡ limit + length l * limit = ground arith in
    omega (arith, first, rest, product)

total_limit : (f : ℕ → ℕ) (b n : ℕ) → ((j : ℕ) → f j ≤ b) → total f n ≤ n * b
unfolding total
total_limit f b zero h = omega arith
total_limit f b (suc n) h =
    let last = h n in
    let rest = total_limit f b n h in
    let product : suc n * b ≡ b + n * b = ground arith in omega (arith, last, rest, product)

pub weight_of_limit :
    (w : Wiring) (up : Bool) (limit keys : ℕ) (net : Network)
    → ((i k : ℕ) → velocity_at (net.couplers i).key_velocity k ≤ limit)
    → ((i : ℕ) → length (net.couplers i).key_velocity ≤ keys)
    → weight_of w up limit net ≤ w.coupler_count * (keys * limit)
weight_of_limit w up limit keys net low wide =
    total_limit (λ j. weigh up limit (net.couplers j).key_velocity) (keys * limit) w.coupler_count
      (λ j.
        let one = weigh_limit up limit (net.couplers j).key_velocity (low j) in
        let more : length (net.couplers j).key_velocity * limit ≤ keys * limit =
          mul-le-mul_right limit (wide j) in
        omega (arith, one, more))
