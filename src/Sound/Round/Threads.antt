-- ===== src/Sound/Round/Threads.antt =====
-- Sums over the threads of a system, and what holds of each of them, when one takes a step.
use grandorgue.Prelude.{
  ℕ, zero, suc, ◌+◌, ◌≤◌, ◌≡◌, subst, some, List, [], ◌∷◌, arith, get_elem?, set, All,
}

module _ {ℓ} {A : Type ℓ} where
  abbrev pub total : (A → ℕ) → List A → ℕ
  total w [] = 0
  total w (t ∷ ts) = w t + total w ts

  pub total-set :
      (w : A → ℕ) (ts : List A) (i : ℕ) (t u : A)
      → get_elem? ts i ≡ some t
      → total w (set ts i u) + w t ≡ total w ts + w u
  total-set w [] i t u h = absurd cc
  total-set w (x ∷ ts) zero t u h = ground (arith, h)
  total-set w (x ∷ ts) (suc i) t u h = omega (arith, total-set w ts i t u h)

  pub total-get :
      (w : A → ℕ) (ts : List A) (i : ℕ) (t : A) → get_elem? ts i ≡ some t → w t ≤ total w ts
  total-get w [] i t h = absurd cc
  total-get w (x ∷ ts) zero t h = ground (arith, h)
  total-get w (x ∷ ts) (suc i) t h = omega (arith, total-get w ts i t h)

  pub All-get {κ} :
      (P : A → Type κ) (ts : List A) (i : ℕ) (t : A) → All P ts → get_elem? ts i ≡ some t → P t
  All-get P [] i t h e = absurd cc
  All-get P (x ∷ ts) zero t (p, h) e = subst P (some_inj e) p
    where
      some_inj : some x ≡ some t → x ≡ t
      some_inj q = cc
  All-get P (x ∷ ts) (suc i) t (p, h) e = All-get P ts i t h e

  pub All-map_of_le {κ} :
      (w : A → ℕ) (P Q : A → Type κ) (n : ℕ) (ts : List A)
      → total w ts ≤ n
      → ((v : A) → w v ≤ n → P v → Q v)
      → All P ts
      → All Q ts
  All-map_of_le w P Q n [] le f h = tt
  All-map_of_le w P Q n (x ∷ ts) le f (p, h) =
      (f x (omega arith) p, All-map_of_le w P Q n ts (omega arith) f h)

  -- The others keep what holds of them if it is kept by all whose weight is at most the sum.
  pub All-set_of_le {κ} :
      (w : A → ℕ) (P Q : A → Type κ) (n : ℕ) (ts : List A) (i : ℕ) (u : A)
      → total w ts ≤ n
      → ((v : A) → w v ≤ n → P v → Q v)
      → All P ts
      → Q u
      → All Q (set ts i u)
  All-set_of_le w P Q n [] i u le f h q = tt
  All-set_of_le w P Q n (x ∷ ts) zero u le f (p, h) q =
      (q, All-map_of_le w P Q n ts (omega arith) f h)
  All-set_of_le w P Q n (x ∷ ts) (suc i) u le f (p, h) q =
      (f x (omega arith) p, All-set_of_le w P Q n ts i u (omega arith) f h q)
