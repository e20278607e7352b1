-- ===== src/Prelude/Exec.antt =====
-- Code that reads and writes a state and may fail, as a monad; Rust's `?` is its bind.
use mathlib.Core.Path.{◌≡◌, refl}
use mathlib.Core.Bool.{Bool, true, false}
use adhoc_cross_device_conne.Prelude.Result.{Result, ok, err}

abbrev pub Exec {ℓ} : Type 0 → Type 0 → Type ℓ → Type ℓ
Exec E S A = S → Result E (A × S)

infixl 5 ◌>>=◌ ◌>>◌
abbrev pub ◌>>=◌ {ℓ κ} :
    {E S : Type 0} {A : Type ℓ} {B : Type κ} → Exec E S A → (A → Exec E S B) → Exec E S B
◌>>=◌ m f s = elim (m s) [ ok (a, s') ↦ f a s' | err e ↦ err e ]

abbrev pub ◌>>◌ {ℓ} : {E S : Type 0} {B : Type ℓ} → Exec E S (Unit {0}) → Exec E S B → Exec E S B
m >> k = m >>= λ _. k

abbrev pub pure {ℓ} : {E S : Type 0} {A : Type ℓ} → A → Exec E S A
pure a s = ok (a, s)

abbrev pub fail {ℓ} : {E S : Type 0} {A : Type ℓ} → E → Exec E S A
fail e s = err e

-- `ensure!(test, e)`
abbrev pub require : {E S : Type 0} → Bool → E → Exec E S (Unit {0})
require true e s = ok (tt, s)
require false e s = err e

result-eq-ok {ℓ κ} :
    {E S : Type 0} {A : Type ℓ} {B : Type κ} (r : Result E (A × S)) (f : A → Exec E S B) (t : S)
    (b : B)
    → (elim r [ ok (a, s') ↦ f a s' | err e ↦ err e ]) ≡ ok (b, t)
    → (a : A) × (u : S) × (r ≡ ok (a, u)) × (f a u ≡ ok (b, t))
result-eq-ok (ok (a, u)) f t b h = (a, u, refl, h)
result-eq-ok (err e) f t b h = cc

-- Inversion of a successful bind.
pub >>=-eq-ok {ℓ κ} :
    {E S : Type 0} {A : Type ℓ} {B : Type κ} (m : Exec E S A) (f : A → Exec E S B) (s t : S) (b : B)
    → (m >>= f) s ≡ ok (b, t)
    → (a : A) × (u : S) × (m s ≡ ok (a, u)) × (f a u ≡ ok (b, t))
>>=-eq-ok m f s t b h = result-eq-ok (m s) f t b h
