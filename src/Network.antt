-- ===== src/Network.antt =====
-- GOManual and GOCoupler together, of src/grandorgue/model/GOManual.cpp and GOCoupler.cpp: a manual tells
-- its couplers of a key, they call `SetKeyState` of their destinations, and so on, maybe back to the
-- first. The calls are made where the code makes them, between the writes. What manuals tell stops is
-- in Manuals. Fuel bounds how deep the calls are nested; `none` is a lack of it.
pub mod Weights
pub mod Rows
pub mod Calm
pub mod Notes
pub mod Delivery
pub mod Settling
pub mod Cascade
pub mod Settled
use grandorgue.Prelude.{
  ℕ, zero, suc, ◌+◌, ◌-◌, Bool, true, false, not, ◌&&◌, Option, none, some, List, [], ◌∷◌, length,
  get_or, set, ltb, leb, ◌==◌, if◌then◌else◌,
}
use grandorgue.Prelude.Int.{ℤ, pos, ◌+ℤ◌}
use grandorgue.Manuals.{Manual, inputs, is_news, store_key, announce}
use grandorgue.Couplers.{
  Coupler, coupler_normal, Flags, Calls, velocity_at, set_out, next_pressed_key, same_tone,
  choose_tone, note_last, greatest,
}

-- How the couplers, numbered from 0, are fitted to the manuals. The inputs of a manual start with the
-- player, who came through no coupler.
pub record Wiring : Type 0 where
  pub coupler_count : ℕ
  pub source : ℕ → ℕ
  pub destination : ℕ → ℕ
  pub index_in_dest : ℕ → ℕ
  pub input_couplers : ℕ → List (Option Flags)

pub record Network : Type 0 where
  pub manuals : ℕ → Manual
  pub couplers : ℕ → Coupler

abbrev pub write {ℓ} : {A : Type ℓ} → (ℕ → A) → ℕ → A → ℕ → A
write f i a j = if j == i then a else f j

abbrev pub put_manual : ℕ → Manual → Network → Network
put_manual m a net = record net { manuals = write net.manuals m a }

abbrev pub put_coupler : ℕ → Coupler → Network → Network
put_coupler i c net = record net { couplers = write net.couplers i c }

infixl 5 ◌>>=◌
abbrev pub ◌>>=◌ {ℓ κ} : {A : Type ℓ} {B : Type κ} → Option A → (A → Option B) → Option B
none >>= f = none
some a >>= f = f a

-- `SetKeyState` with the number of the manual.
abbrev pub Teller : Type 0
Teller = ℕ → ℕ → ℕ → ℕ → Network → Option Network

-- The velocities of a key with the couplers that they came through.
unfoldable pub paired : List ℕ → List (Option Flags) → List (ℕ × Option Flags)
paired [] l = []
paired (v ∷ row) [] = []
paired (v ∷ row) (f ∷ l) = (v, f) ∷ paired row l

module _ (w : Wiring) (tell : Teller) where
  unfoldable pub send : ℕ → Calls → Network → Option Network
  send i [] net = some net
  send i ((note, velocity) ∷ calls) net =
      tell (w.destination i) note velocity (w.index_in_dest i) net >>= send i calls

  -- `SetOut`.
  unfoldable pub deliver : ℕ → ℤ → ℕ → Network → Option Network
  deliver i note velocity net =
      let (c, calls) = set_out note velocity (net.couplers i) in send i calls (put_coupler i c net)

  -- `ChangeKey` of a bass or melody coupler: the current tone, the next one, the last one.
  unfoldable pub cancel : ℕ → Option ℕ → Network → Option Network
  cancel i next net = elim (net.couplers i).current_tone [
    | none ↦ some net
    | some t ↦
        if same_tone next (some t)
        then some net
        else deliver i (pos t +ℤ (net.couplers i).keyshift) 0 net
          >>= (λ net'. some (put_coupler i (record (net'.couplers i) { current_tone = none }) net'))
  ]

  unfoldable pub sound : ℕ → Network → Option Network
  sound i net = elim (net.couplers i).current_tone [
    | none ↦ some net
    | some t ↦
        deliver i (pos t +ℤ (net.couplers i).keyshift) (velocity_at (net.couplers i).key_velocity t)
          net
  ]

  unfoldable pub change_single : ℕ → ℕ → ℕ → Network → Option Network
  change_single i note velocity net =
      let next = next_pressed_key none (net.couplers i) in
      cancel i next net
      >>= (λ n. sound i (put_coupler i (choose_tone next note velocity (n.couplers i)) n))
      >>= (λ n. some (put_coupler i (note_last next note velocity (n.couplers i)) n))

  unfoldable pub change_key : ℕ → ℕ → ℕ → Network → Option Network
  change_key i note velocity net =
      if (net.couplers i).unison_off then some net else elim (net.couplers i).coupler_type [
        | coupler_normal ↦ deliver i (pos note +ℤ (net.couplers i).keyshift) velocity net
        | _ ↦ change_single i note velocity net
      ]

abbrev pub is_coupled : ℕ → Coupler → Bool
is_coupled note c =
    ltb note (length c.key_velocity)
    && leb c.first_logical_key note
    && ltb note (c.first_logical_key + c.number_of_keys)

-- What a coupler takes from the inputs of a key of its source.
unfoldable pub coupled_velocity : Wiring → ℕ → ℕ → Network → ℕ
coupled_velocity w i note net =
    greatest (net.couplers i) 0
      (paired (inputs (net.manuals (w.source i)) note) (w.input_couplers (w.source i)))

module _ (w : Wiring) (tell : Teller) where
  -- `SetKey`.
  unfoldable pub set_key : ℕ → ℕ → Network → Option Network
  set_key i note net =
      let c = net.couplers i in
      let velocity = coupled_velocity w i note net in
      if not (is_coupled note c)
      then some net
      else if velocity_at c.key_velocity note == velocity
      then some net
      else change_key w tell i note velocity
          (put_coupler i (record c { key_velocity = set c.key_velocity note velocity }) net)

  -- `PropagateKeyToCouplers`, over `left` couplers from the i-th on.
  unfoldable pub propagate_key : ℕ → ℕ → ℕ → ℕ → Network → Option Network
  propagate_key m key zero i net = some net
  propagate_key m key (suc left) i net =
      (if w.source i == m then set_key i key net else some net) >>= propagate_key m key left (suc i)

unfoldable pub set_key_state : Wiring → ℕ → Teller
set_key_state w zero m key velocity coupler net = none
set_key_state w (suc fuel) m key velocity coupler net =
    elim (is_news key velocity coupler (net.manuals m)) [
      | false ↦ some net
      | true ↦
          propagate_key w (set_key_state w fuel) m key w.coupler_count 0
            (put_manual m (store_key key velocity coupler (net.manuals m)) net)
          >>= (λ n. some (put_manual m (announce key (n.manuals m, [])).0 n))
    ]
