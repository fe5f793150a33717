-- ===== src/ScanServer/Scans/Hoare.antt =====
-- How a property of a scan object is carried through a run: Keeps on every outcome, and Does for a
-- run that returns.
use bec.Prelude.{
  Option, none, some, ℕ, zero, suc, Bool, true, false, List, [], ◌∷◌, ◌≡◌, refl, ◌∙◌, ap,
  if◌then◌else◌, subst, All, length, ◌+◌, ◌<◌, arith,
}
use bec.ScanServer.Scans.Effects.{
  Request, Failure, Outcome, returns, raises, waits, Run, bind, ◌>>=◌, ◌>>◌, pure, fail, self,
  modify, when, or_else, for_each, for_range,
}

module _ {V : Type 0} where
  abbrev pub On : {A : Type 0} → (Request V → Type 0) → Outcome V A → Type 0
  On P (returns a s) = P s
  On P (raises e s) = P s
  On P (waits s) = P s

  -- P holds after the run, however it ends, where it held before.
  abbrev pub Keeps : {A : Type 0} → (Request V → Type 0) → Run V A → Type 0
  Keeps P m = (s : Request V) → P s → On P (m s)

  -- The run returns, and leads from P to Q.
  abbrev pub Does : (Request V → Type 0) → Run V (Unit {0}) → (Request V → Type 0) → Type 0
  Does P m Q = (s : Request V) → P s → (t : Request V) × (m s ≡ returns tt t) × Q t

module _ {V A B : Type 0} (P : Request V → Type 0) where
  On-bind :
      (o : Outcome V A) (f : A → Run V B) → On P o → ((a : A) → Keeps P (f a)) → On P (bind o f)
  On-bind (returns a s) f h k = k a s h
  On-bind (raises e s) f h k = h
  On-bind (waits s) f h k = h

  pub bind-Keeps :
      (m : Run V A) (f : A → Run V B) → Keeps P m → ((a : A) → Keeps P (f a)) → Keeps P (m >>= f)
  bind-Keeps m f h k s p = On-bind (m s) f (h s p) k

module _ {V : Type 0} (P : Request V → Type 0) where
  pub then-Keeps :
      {B : Type 0} (m : Run V (Unit {0})) (k : Run V B) → Keeps P m → Keeps P k → Keeps P (m >> k)
  then-Keeps m k h h' = bind-Keeps P m (λ _. k) h (λ _. h')

  -- A run that reads the object first.
  pub self-Keeps :
      {B : Type 0} (f : Request V → Run V B)
      → ((r : Request V) → Keeps P (f r))
      → Keeps P (self >>= f)
  unfolding self
  self-Keeps f h s p = h s s p

  pub modify-Keeps :
      (f : Request V → Request V) → ((s : Request V) → P s → P (f s)) → Keeps P (modify f)
  unfolding modify
  modify-Keeps f h s p = h s p

  pub pure-Keeps : {A : Type 0} (a : A) → Keeps P (pure a)
  unfolding pure
  pure-Keeps a s p = p

  pub fail-Keeps : (A : Type 0) (e : Failure) → Keeps P (fail {A = A} e)
  unfolding fail
  fail-Keeps A e s p = p

  pub option-Keeps :
      {B C : Type 0} (o : Option C) (m : Run V B) (f : C → Run V B)
      → Keeps P m
      → ((c : C) → Keeps P (f c))
      → Keeps P (or_else o m f)
  unfolding or_else
  option-Keeps none m f h k = h
  option-Keeps (some c) m f h k = k c

  pub if-Keeps :
      {B : Type 0} (b : Bool) (m k : Run V B) → Keeps P m → Keeps P k → Keeps P (if b then m else k)
  if-Keeps true m k h h' = h
  if-Keeps false m k h h' = h'

  pub when-Keeps : (b : Bool) (m : Run V (Unit {0})) → Keeps P m → Keeps P (when b m)
  unfolding when pure
  when-Keeps true m h = h
  when-Keeps false m h = λ s p. p

  pub for_each-Keeps :
      {A : Type 0} (xs : List A) (i : ℕ) (body : ℕ → A → Run V (Unit {0}))
      → ((j : ℕ) (a : A) → Keeps P (body j a))
      → Keeps P (for_each xs i body)
  unfolding for_each pure
  for_each-Keeps [] i body h = λ s p. p
  for_each-Keeps (x ∷ xs) i body h =
      then-Keeps (body i x) (for_each xs (suc i) body) (h i x) (for_each-Keeps xs (suc i) body h)

  pub for_range-Keeps :
      (n i : ℕ) (body : ℕ → Run V (Unit {0}))
      → ((j : ℕ) → Keeps P (body j))
      → Keeps P (for_range n i body)
  unfolding for_range pure
  for_range-Keeps zero i body h = λ s p. p
  for_range-Keeps (suc n) i body h =
      then-Keeps (body i) (for_range n (suc i) body) (h i) (for_range-Keeps n (suc i) body h)

module _ {V : Type 0} where
  pub then-Does :
      (P Q R : Request V → Type 0) (m k : Run V (Unit {0}))
      → Does P m Q
      → Does Q k R
      → Does P (m >> k) R
  then-Does P Q R m k h h' s p =
      let (t, e, q) = h s p in let (u, e', r) = h' t q in (u, ap (λ o. bind o (λ _. k)) e ∙ e', r)

  -- A run that reads the object first.
  pub self-Does :
      (P Q : Request V → Type 0) (f : Request V → Run V (Unit {0}))
      → ((r : Request V) → P r → (t : Request V) × (f r r ≡ returns tt t) × Q t)
      → Does P (self >>= f) Q
  unfolding self
  self-Does P Q f h s p = h s p

  pub modify-Does :
      (P Q : Request V → Type 0) (f : Request V → Request V)
      → ((s : Request V) → P s → Q (f s))
      → Does P (modify f) Q
  unfolding modify
  modify-Does P Q f h s p = (f s, refl, h s p)

  pub when-Does :
      (P : Request V → Type 0) (b : Bool) (m : Run V (Unit {0})) → Does P m P → Does P (when b m) P
  unfolding when pure
  when-Does P true m h = h
  when-Does P false m h = λ s p. (s, refl, p)

  -- A loop over a list, with an invariant on how far it has come.
  pub for_each-Does :
      {A : Type 0} (P : ℕ → Request V → Type 0) (xs : List A) (i : ℕ)
      (body : ℕ → A → Run V (Unit {0})) (G : A → Type 0)
      → ((j : ℕ) (a : A) → j < i + length xs → G a → Does (P j) (body j a) (P (suc j)))
      → All G xs
      → Does (P i) (for_each xs i body) (P (i + length xs))
  unfolding for_each pure
  for_each-Does P [] i body G h g = λ s p. (s, refl, subst (λ n. P n s) (omega arith) p)
  for_each-Does P (x ∷ xs) i body G h g =
      subst (λ n. Does (P i) (for_each (x ∷ xs) i body) (P n)) (omega arith)
        (then-Does (P i) (P (suc i)) (P (suc i + length xs)) (body i x) (for_each xs (suc i) body)
          (h i x (omega arith) g.0)
          (for_each-Does P xs (suc i) body G (λ j a l. h j a (omega arith)) g.1))

  pub for_range-Does :
      (P : ℕ → Request V → Type 0) (n i : ℕ) (body : ℕ → Run V (Unit {0}))
      → ((j : ℕ) → Does (P j) (body j) (P (suc j)))
      → Does (P i) (for_range n i body) (P (i + n))
  unfolding for_range pure
  for_range-Does P zero i body h = λ s p. (s, refl, subst (λ n. P n s) (omega arith) p)
  for_range-Does P (suc n) i body h =
      subst (λ m. Does (P i) (for_range (suc n) i body) (P m)) (omega arith)
        (then-Does (P i) (P (suc i)) (P (suc i + n)) (body i) (for_range n (suc i) body) (h i)
          (for_range-Does P n (suc i) body h))

-- The rules that take a run apart.
pub ruleset run_rules = (
  self-Keeps, bind-Keeps, modify-Keeps, pure-Keeps, fail-Keeps, if-Keeps, option-Keeps, when-Keeps,
  for_each-Keeps, for_range-Keeps,
)
