-- ===== src/Prelude/Results.antt =====
-- Results with an error, and what a chain that succeeds has passed through.
use mathlib.Core.Path.{◌≡◌, refl}
use mathlib.Core.Bool.{Bool, true, false}
use arcmux.Prelude.Tests.{if◌then◌else◌}
use mathlib.Core.Option.{Option, none, some}

pub data Result {ℓ} (E A : Type ℓ) : Type ℓ where
  ok : A → Result E A
  err : E → Result E A

-- `abbrev`, so that `ok a >>= f` computes wherever it stands.
infixl 5 ◌>>=◌ ◌>>◌
abbrev pub ◌>>=◌ {ℓ} : {E A B : Type ℓ} → Result E A → (A → Result E B) → Result E B
ok a >>= f = f a
err e >>= f = err e

abbrev pub guard {ℓ} : {E : Type ℓ} → Bool → E → Result E (Unit {ℓ})
guard true e = ok tt
guard false e = err e

abbrev pub ◌>>◌ {ℓ} : {E B : Type ℓ} → Result E (Unit {ℓ}) → Result E B → Result E B
m >> k = m >>= λ _. k

abbrev pub ok_or {ℓ} : {E A : Type ℓ} → E → Option A → Result E A
ok_or e none = err e
ok_or e (some a) = ok a

pub >>=-ok {ℓ} :
    {E A B : Type ℓ} (m : Result E A) (f : A → Result E B) {b : B}
    → (m >>= f) ≡ ok b
    → (a : A) × (m ≡ ok a) × (f a ≡ ok b)
>>=-ok (ok a) f h = (a, refl, h)
>>=-ok (err e) f h = cc

pub guard-ok {ℓ} :
    {E B : Type ℓ} (t : Bool) (e : E) (k : Result E B) {b : B}
    → (guard t e >> k) ≡ ok b
    → (t ≡ true) × (k ≡ ok b)
guard-ok true e k h = (refl, h)
guard-ok false e k h = cc

pub ok_unique {ℓ} : {E A : Type ℓ} {x : Result E A} {a b : A} → x ≡ ok a → x ≡ ok b → a ≡ b
ok_unique h k = cc

pub ok_or-ok {ℓ} : {E A : Type ℓ} (e : E) (o : Option A) {a : A} → ok_or e o ≡ ok a → o ≡ some a
ok_or-ok e none h = cc
ok_or-ok e (some a) h = cc

-- Both branches of a test that succeeds
pub if_ok {ℓ κ} :
    {E A : Type ℓ} {P : Type κ} (t : Bool) {x y : Result E A} {a : A}
    → (if t then x else y) ≡ ok a
    → (x ≡ ok a → P)
    → (y ≡ ok a → P)
    → P
if_ok true h f g = f h
if_ok false h f g = g h
