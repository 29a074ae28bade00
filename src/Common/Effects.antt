-- ===== src/Common/Effects.antt =====
-- Go functions that return a value and an error, and change a state on the way. What was written
-- before an error stays written, so the state comes back beside the error too.
use Prim.Native.Nat.{ℕ, zero, suc}
use mathlib.Core.Option.{Option, none, some}
use mathlib.Core.List.{List, [], ◌∷◌}
use mathlib.Core.Path.{◌≡◌, refl}
use native.Mathlib.Omega.{arith}

-- An error is kept by its cause: what `errors.Is` finds under the `%w` wrapping.
-- `not_found` is go-datastore's `ErrNotFound`, `absent` the text that `types.ErrNotFound` gives, and
-- `failed` any other error, with its text.
pub data Error : Type 0 where
  not_found : Error
  absent : Error
  failed : List ℕ → Error

-- A panic is an outcome of its own.
pub data Result {ℓ} (A : Type ℓ) : Type ℓ where
  ok : A → Result A
  err : Error → Result A
  panic : Result A

abbrev pub Exec {ℓ} : Type ℓ → Type ℓ → Type ℓ
Exec S A = S → Result A × S

module _ {ℓ} {S A : Type ℓ} where
  abbrev pub pure : A → Exec S A
  pure a s = (ok a, s)

  abbrev pub raise : Error → Exec S A
  raise e s = (err e, s)

  abbrev pub lift : Result A → Exec S A
  lift r s = (r, s)

  abbrev pub gets : (S → Result A) → Exec S A
  gets f s = (f s, s)

module _ {ℓ} {S A B : Type ℓ} where
  abbrev pub continue : Result A → (A → Exec S B) → Exec S B
  continue (ok a) f s = f a s
  continue (err e) f s = (err e, s)
  continue panic f s = (panic, s)

  infixl 5 ◌>>=◌ ◌>>◌
  abbrev pub ◌>>=◌ : Exec S A → (A → Exec S B) → Exec S B
  ◌>>=◌ m f s = let (r, s') = m s in continue r f s'

  abbrev pub ◌>>◌ : Exec S A → Exec S B → Exec S B
  m >> n = m >>= λ _. n

module _ {ℓ} {A : Type ℓ} where
  -- `errors.Is(err, ErrNotFound)` set apart from the other errors
  abbrev pub if_found : Result A → Result (Option A)
  if_found (ok a) = ok (some a)
  if_found (err not_found) = ok none
  if_found (err absent) = err absent
  if_found (err (failed t)) = err (failed t)
  if_found panic = panic

  abbrev pub catch_not_found : {S : Type ℓ} → Exec S A → Exec S (Option A)
  catch_not_found m s = let (r, s') = m s in (if_found r, s')

  -- `b[n:]` panics where `n` is past the end.
  abbrev pub slice_from : ℕ → List A → Result (List A)
  slice_from zero xs = ok xs
  slice_from (suc n) [] = panic
  slice_from (suc n) (x ∷ xs) = slice_from n xs

abbrev pub bind_result {ℓ κ} : {A : Type ℓ} {B : Type κ} → Result A → (A → Result B) → Result B
bind_result (ok a) f = f a
bind_result (err e) f = err e
bind_result panic f = panic

-- What a chain returns comes from what its first part returned.
pub bind-ok {ℓ} :
    {S A B : Type ℓ} (m : Exec S A) (f : A → Exec S B) (s : S) (b : B)
    → ((m >>= f) s).0 ≡ ok b
    → (a : A) × ((m s).0 ≡ ok a) × ((f a (m s).1).0 ≡ ok b)
bind-ok {S} {A} {B} m f s b e = go (m s).0 refl e
  where
    go :
        (r : Result A)
        → (m s).0 ≡ r
        → (continue r f (m s).1).0 ≡ ok b
        → (a : A) × ((m s).0 ≡ ok a) × ((f a (m s).1).0 ≡ ok b)
    go (ok a) er e' = (a, er, e')
    go (err x) er e' = ground arith
    go panic er e' = ground arith

pub bind_result-ok {ℓ κ} :
    {A : Type ℓ} {B : Type κ} (r : Result A) (f : A → Result B) (b : B)
    → bind_result r f ≡ ok b
    → (a : A) × (r ≡ ok a) × (f a ≡ ok b)
bind_result-ok (ok a) f b e = (a, refl, e)
bind_result-ok (err x) f b e = ground arith
bind_result-ok panic f b e = ground arith

pub ok-injective {ℓ} : {A : Type ℓ} (a b : A) → ok a ≡ ok b → a ≡ b
ok-injective a b e = ground arith
