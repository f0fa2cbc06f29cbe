-- ===== src/Manuals/Held.antt =====
-- What the player holds, and a note of his.
use grandorgue.Prelude.{
  ℕ, ◌+◌, ◌-◌, ◌^◌, ◌<◌, length, length-set, get_or-set_self, get_or-set_ne, set, ◌==◌, ◌≡◌, ◌≢◌,
  refl, ap, sym, subst, ◌∙◌, inl, inr, arith, Bool-cases, ==_iff,
}
use grandorgue.Manuals.{
  Manual, KeyCalls, no_calls, key_call, velocity_of, inputs, set_key_state, key_of_index, widened,
  set_note_at,
}
use grandorgue.Manuals.Sources.{IsSameFrame, set_same}
use grandorgue.Manuals.Keys.{set_key_states-Keeps}
use grandorgue.Manuals.Own.{
  IsForeign, own, own-set_key_state, own-set_key_state_ne, depth-set_key_state,
}

-- The logical key of the i-th accessible one.
abbrev pub logical : ℕ → Manual → ℕ
logical i m = i + m.first_logical_key - 1

-- Each accessible key that has a logical one has there the velocity that the player gave it last.
pub record IsHeld (m : Manual) : Type 0 where
  pub size : length m.key_velocity ≡ m.accessible_keys
  pub positive : 0 < m.first_logical_key
  pub small : m.first_logical_key + m.accessible_keys < 2 ^ 32
  pub deep : (k : ℕ) → k < length m.velocity → 0 < length (inputs m k)
  pub held :
      (i : ℕ)
      → i < m.accessible_keys
      → logical i m < length m.velocity
      → own m (logical i m) ≡ widened (velocity_of m.key_velocity i)

key_of_index-logical :
    (i : ℕ) (m : Manual) → IsHeld m → i < m.accessible_keys → key_of_index i m ≡ logical i m
key_of_index-logical i m h lt = omega (arith, h.positive, h.small)

-- A note of the player, with all that comes back: he holds the new velocity.
module _ (i note velocity : ℕ) (nested : KeyCalls) (m : Manual) (f : IsForeign nested)
    (h : IsHeld m) (lt : i < m.accessible_keys) where
  abbrev pressed : Manual
  pressed = record m { key_velocity = set m.key_velocity i velocity }

  abbrev key : ℕ
  key = logical i m

  abbrev after : Manual
  after = (set_key_state key (widened velocity) 0 nested pressed).0

  after-IsSameFrame : IsSameFrame pressed after
  unfolding set_key_state
  after-IsSameFrame =
      (set_key_states-Keeps (key_call key (widened velocity) 0 nested no_calls) pressed).frame

  after-held :
      (j : ℕ)
      → j < m.accessible_keys
      → logical j m < length m.velocity
      → own after (logical j m) ≡ widened (velocity_of (set m.key_velocity i velocity) j)
  after-held j j_lt in_range = elim (Bool-cases (i == j)) [
    | inl e ↦
        let same : i ≡ j = (==_iff i j).0 e in
        subst
          (λ n. own after (logical n m) ≡ widened (velocity_of (set m.key_velocity i velocity) n))
          same
          (own-set_key_state key (widened velocity) nested pressed f (omega (arith, same, in_range))
              (h.deep key (omega (arith, same, in_range)))
            ∙ ap widened
                (sym (get_or-set_self m.key_velocity i velocity 0 (omega (arith, h.size)))))
    | inr e ↦
        let ne : i ≢ j = λ q. cc (sym e ∙ (==_iff i j).1 q) in
        own-set_key_state_ne key (widened velocity) nested pressed f (logical j m)
          (omega (arith, ne, h.positive))
        ∙ h.held j j_lt in_range
        ∙ ap widened (sym (get_or-set_ne m.key_velocity i j velocity 0 ne))
  ]

  after-IsHeld : IsHeld after
  after-IsHeld =
      let s = after-IsSameFrame in
      record {
        size =
            ap length s.same_key_velocity
            ∙ length-set m.key_velocity i velocity
            ∙ h.size
            ∙ sym s.same_accessible_keys;
        positive = omega (arith, h.positive, s.same_first_logical_key);
        small = omega (arith, h.small, s.same_first_logical_key, s.same_accessible_keys);
        deep = λ k in_range.
            let same = depth-set_key_state key (widened velocity) nested pressed f k in
            omega (arith, same, h.deep k (omega (arith, in_range, s.same_size)));
        held = λ j j_lt in_range.
            let at : logical j after ≡ logical j m =
              ap (λ (n : ℕ). j + n - 1) s.same_first_logical_key in
            ap (own after) at
            ∙ after-held j (omega (arith, j_lt, s.same_accessible_keys))
                (omega (arith, at, s.same_size, in_range))
            ∙ ap (λ l. widened (velocity_of l j)) (sym s.same_key_velocity);
      }

-- What a note of the player does to what he holds.
pub record Presses (i velocity : ℕ) (m m' : Manual) : Type 0 where
  pub still_held : IsHeld m'
  pub pressed_keys : m'.key_velocity ≡ set m.key_velocity i velocity
  pub same_keys : m'.accessible_keys ≡ m.accessible_keys
  pub same_first : m'.first_logical_key ≡ m.first_logical_key
  pub same_keyboard : length m'.velocity ≡ length m.velocity

pub set_note_at-Presses :
    (i note velocity : ℕ) (nested : KeyCalls) (m : Manual)
    → IsForeign nested
    → IsHeld m
    → i < m.accessible_keys
    → Presses i velocity m (set_note_at i note velocity nested m).0
unfolding set_note_at
set_note_at-Presses i note velocity nested m f h lt =
    elim (Bool-cases (velocity_of m.key_velocity i == velocity)) [
      | inl e ↦ rw e (record {
        still_held = h;
        pressed_keys =
            sym (set_same m.key_velocity i) ∙ ap (set m.key_velocity i) ((==_iff _ _).0 e);
        same_keys = refl;
        same_first = refl;
        same_keyboard = refl;
      })
      | inr e ↦
          let s = after-IsSameFrame i note velocity nested m f h lt in
          rw (e, key_of_index-logical i m h lt)
            (record {
              still_held = after-IsHeld i note velocity nested m f h lt;
              pressed_keys = s.same_key_velocity;
              same_keys = s.same_accessible_keys;
              same_first = s.same_first_logical_key;
              same_keyboard = s.same_size;
            })
    ]
