-- ===== src/Base/Errors.antt =====
-- A call of a Python function returns, or raises an exception that the caller does not see handled.
use mathlib.Core.Path.{◌≡◌, refl}
use mathlib.Core.Logic.{◌⊎◌, inl, inr}
use mathlib.Core.Option.{Option, none, some}
use Prim.Native.Nat.{ℕ, ◌/◌}
use brb_partially_connected.Base.Tests.{◌==◌, if◌then◌else◌}

pub data Exception : Type 0 where
  zero_division index_error key_error value_error name_error user_error : Exception
  file_not_found networkx_error recursion_error : Exception

pub data Result (A : Type 0) : Type 0 where
  ok : A → Result A
  raise : Exception → Result A

infixl 5 ◌>>=◌
abbrev pub ◌>>=◌ : {A B : Type 0} → Result A → (A → Result B) → Result B
ok a >>= f = f a
raise e >>= f = raise e

-- A lookup that raises where nothing is found.
abbrev pub or_raise : {A : Type 0} → Exception → Option A → Result A
or_raise e none = raise e
or_raise e (some a) = ok a

-- `int(a / b)`
abbrev pub quotient : (a b : ℕ) → Result ℕ
quotient a b = if b == 0 then raise zero_division else ok (a / b)

pub Result-cases :
    {A : Type 0} (r : Result A) → ((a : A) × (r ≡ ok a)) ⊎ ((e : Exception) × (r ≡ raise e))
Result-cases (ok a) = inl (a, refl)
Result-cases (raise e) = inr (e, refl)

-- What holds of a result, if there is one.
abbrev pub AllOk : {A : Type 0} → (A → Type 0) → Result A → Type 0
AllOk P (ok a) = P a
AllOk P (raise e) = Unit

pub AllOk-bind :
    {A B : Type 0} (P : A → Type 0) (Q : B → Type 0) (r : Result A) (f : A → Result B)
    → AllOk P r
    → ((a : A) → P a → AllOk Q (f a))
    → AllOk Q (r >>= f)
AllOk-bind P Q (ok a) f p q = q a p
AllOk-bind P Q (raise e) f p q = tt

pub AllOk-weaken :
    {A : Type 0} (P Q : A → Type 0) (r : Result A) → ((a : A) → P a → Q a) → AllOk P r → AllOk Q r
AllOk-weaken P Q (ok a) weaker p = weaker a p
AllOk-weaken P Q (raise e) weaker p = tt

pub AllOk-both :
    {A : Type 0} (P Q : A → Type 0) (r : Result A)
    → AllOk P r
    → AllOk Q r
    → AllOk (λ a. P a × Q a) r
AllOk-both P Q (ok a) p q = (p, q)
AllOk-both P Q (raise e) p q = tt
