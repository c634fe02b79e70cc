-- ===== src/Common/Outcome.antt =====
-- The outcome of code that may fail: the firmware's `-1`, the driver's exceptions, an access outside
-- an array.
use Prim.Native.Nat.{ℕ, zero, suc, ◌+◌}
use mathlib.Core.Path.{◌≡◌, refl, ap}
use mathlib.Core.List.{List, [], ◌∷◌, ◌++◌, append_assoc}
use native.Mathlib.Omega.{arith}
use rdml_blue_rov2_deploymen.Common.Lists.{length, length-append}

-- `err e` is a failure that the code reports. `fault` is an access outside an array, which C++ leaves
-- undefined. `stuck` is no value of the program: a loop ran out of the model's fuel.
pub data Result {ℓ κ} (E : Type κ) (A : Type ℓ) : Type (ℓ ⊔ κ) where
  ok : A → Result E A
  err : E → Result E A
  fault : Result E A
  stuck : Result E A

infixl 5 ◌>>=◌
abbrev pub ◌>>=◌ {ℓ κ μ} :
    {E : Type κ} {A : Type ℓ} {B : Type μ} → Result E A → (A → Result E B) → Result E B
ok a >>= f = f a
err e >>= f = err e
fault >>= f = fault
stuck >>= f = stuck

module _ {ℓ κ} {E : Type κ} {A : Type ℓ} where
  -- `a[i]` and `a[i] = v` on an array that holds exactly the elements of the list.
  abbrev pub load : List A → ℕ → Result E A
  load [] i = fault
  load (x ∷ xs) zero = ok x
  load (x ∷ xs) (suc i) = load xs i

  abbrev pub store : List A → ℕ → A → Result E (List A)
  store [] i v = fault
  store (x ∷ xs) zero v = ok (v ∷ xs)
  store (x ∷ xs) (suc i) v = store xs i v >>= λ ys. ok (x ∷ ys)

module _ {ℓ κ} {E : Type κ} {A : Type ℓ} where
  pub load-append :
      (xs : List A) (y : A) (ys : List A) → load {E = E} (xs ++ (y ∷ ys)) (length xs) ≡ ok y
  load-append [] y ys = refl
  load-append (x ∷ xs) y ys = load-append xs y ys

  pub store-append :
      (xs : List A) (y : A) (ys : List A) (v : A)
      → store {E = E} (xs ++ (y ∷ ys)) (length xs) v ≡ ok (xs ++ (v ∷ ys))
  store-append [] y ys v = refl
  store-append (x ∷ xs) y ys v = ap (λ m. m >>= λ l. ok (x ∷ l)) (store-append xs y ys v)

  -- The same behind two runs of elements with one between them.
  pub store-append_between :
      (xs : List A) (h : A) (p : List A) (y : A) (ys : List A) (v : A)
      → store {E = E} (xs ++ (h ∷ (p ++ (y ∷ ys)))) (length xs + suc (length p)) v
        ≡ ok (xs ++ (h ∷ (p ++ (v ∷ ys))))
  store-append_between xs h p y ys v =
      rw (index, ← append_assoc xs (h ∷ p) (y ∷ ys), ← append_assoc xs (h ∷ p) (v ∷ ys))
        (store-append (xs ++ (h ∷ p)) y ys v)
    where
      index : length xs + suc (length p) ≡ length (xs ++ (h ∷ p))
      index = omega (arith, length-append xs (h ∷ p))

module _ {ℓ κ} {E : Type κ} {A : Type ℓ} where
  pub ok_injective : {x y : A} → ◌≡◌ {A = Result E A} (ok x) (ok y) → x ≡ y
  ok_injective h = cc

  pub ok-ne-err : {x : A} {e : E} → ¬ (ok x ≡ err e)
  ok-ne-err h = cc
