-- ===== src/Network/Delivery.antt =====
-- `ChangeKey` and `SetOut` of a normal coupler in a network: which calls they make.
use std.Path.{fun_ext}
use grandorgue.Prelude.{
  ℕ, Bool, true, false, Option, none, some, [], ◌∷◌, ◌==◌, ◌≡◌, refl, ap, ◌∙◌, arith, if◌then◌else◌,
}
use grandorgue.Prelude.Int.{ℤ, pos, ◌+ℤ◌}
use grandorgue.Couplers.{Coupler, coupler_normal, set_out}
use grandorgue.Network.{
  Wiring, Network, Teller, write, put_coupler, ◌>>=◌, send, deliver, change_key,
}

-- The calls have ended, in such a network.
abbrev pub Returns : (Network → Type 0) → Option Network → Type 0
Returns P none = ⊥
Returns P (some net) = P net

pub write_twice : {A : Type 0} (f : ℕ → A) (i : ℕ) (a b : A) → write (write f i a) i b ≡ write f i b
write_twice f i a b = fun_ext (λ j. once j (j == i))
  where
    once : (j : ℕ) (t : Bool) → (if t then b else if t then a else f j) ≡ (if t then b else f j)
    once j true = refl
    once j false = refl

pub Returns-bind :
    (P Q : Network → Type 0) (o : Option Network) (f : Network → Option Network)
    → Returns P o
    → ((net : Network) → P net → Returns Q (f net))
    → Returns Q (o >>= f)
Returns-bind P Q none f p q = absurd p
Returns-bind P Q (some net) f p q = q net p

pub Returns-map :
    (P Q : Network → Type 0) (o : Option Network)
    → ((net : Network) → P net → Q net)
    → Returns P o
    → Returns Q o
Returns-map P Q none f p = p
Returns-map P Q (some net) f p = f net p

pub change_key_lem :
    (w : Wiring) (tell : Teller) (i note v : ℕ) (net : Network)
    → (net.couplers i).unison_off ≡ false
    → (net.couplers i).coupler_type ≡ coupler_normal
    → change_key w tell i note v net
      ≡ deliver w tell i (pos note +ℤ (net.couplers i).keyshift) v net
unfolding change_key
change_key_lem w tell i note v net u n = rw (u, n) refl

pub change_key_silent :
    (w : Wiring) (tell : Teller) (i note v : ℕ) (net : Network)
    → (net.couplers i).unison_off ≡ true
    → change_key w tell i note v net ≡ some net
unfolding change_key
change_key_silent w tell i note v net u = rw u refl

pub write_self : {A : Type 0} (f : ℕ → A) (i : ℕ) (a : A) → write f i a i ≡ a
write_self f i a = let self : (i == i) ≡ true = ground arith in rw self refl

pub deliver_lem :
    (w : Wiring) (tell : Teller) (i v : ℕ) (z : ℤ) (a : Coupler) (net : Network)
    → deliver w tell i z v (put_coupler i a net)
      ≡ send w tell i (set_out z v a).1 (put_coupler i (set_out z v a).0 net)
unfolding deliver
deliver_lem w tell i v z a net =
    ap
      (λ c. send w tell i (set_out z v c).1 (put_coupler i (set_out z v c).0 (put_coupler i a net)))
      (write_self net.couplers i a)
    ∙ ap (λ f. send w tell i (set_out z v a).1 (record net { couplers = f }))
        (write_twice net.couplers i a (set_out z v a).0)

pub bind_some :
    (o : Option Network) (f : Network → Option Network)
    → ((n : Network) → f n ≡ some n)
    → o >>= f ≡ o
bind_some none f h = refl
bind_some (some n) f h = h n

pub send_one :
    (w : Wiring) (tell : Teller) (i note v : ℕ) (net : Network)
    → send w tell i ((note, v) ∷ []) net ≡ tell (w.destination i) note v (w.index_in_dest i) net
unfolding send
send_one w tell i note v net = bind_some _ _ (λ n. refl)

pub send_none :
    (w : Wiring) (tell : Teller) (i : ℕ) (net : Network) → send w tell i [] net ≡ some net
unfolding send
send_none w tell i net = refl
