-- ===== src/Prelude/Deque.antt =====
-- collections.deque with a maxlen: a push drops from the other end.
use Prim.Native.Nat.{ℕ, suc, ◌-◌, ◌≤◌}
use mathlib.Core.Path.{◌≡◌}
use mathlib.Core.List.{List, [], ◌∷◌, ◌++◌}
use native.Mathlib.Omega.{arith}
use bec.Prelude.Lists.{length, take, drop, length-append, length-drop, length-take}

module _ {ℓ} {A : Type ℓ} where
  -- deque.append
  unfoldable pub append : ℕ → List A → A → List A
  append maxlen xs x = drop (suc (length xs) - maxlen) (xs ++ x ∷ [])

  -- deque.appendleft
  unfoldable pub append_left : ℕ → A → List A → List A
  append_left maxlen x xs = take maxlen (x ∷ xs)

  pub length-append_le : (m : ℕ) (xs : List A) (x : A) → length (append m xs x) ≤ m
  unfolding append
  length-append_le m xs x =
      omega (arith, length-drop (suc (length xs) - m) (xs ++ x ∷ []), length-append xs (x ∷ []))

  pub append_room :
      (m : ℕ) (xs : List A) (x : A) → suc (length xs) ≤ m → append m xs x ≡ xs ++ x ∷ []
  unfolding append
  append_room m xs x h = let e : suc (length xs) - m ≡ 0 = omega arith in rw e

  pub length-append_left_le : (m : ℕ) (x : A) (xs : List A) → length (append_left m x xs) ≤ m
  unfolding append_left
  length-append_left_le m x xs = omega (arith, length-take m (x ∷ xs))
