-- ===== src/Base/Halt.antt =====
-- What a kernel routine comes to: a result, the halt of `BUG_ON` or a fatal trap
-- (include/kernel/compiler/bug.h, `fatal` of include/kernel/asm/generic.h), or a loop that still
-- runs when the fuel of the model is spent.
use mathlib.Core.Bool.{Bool, true, false}

pub data Run {ℓ} (A : Type ℓ) : Type ℓ where
  ok : A → Run A
  bug : Run A
  running : Run A

infixl 5 ◌>>=◌ ◌>>◌
abbrev pub ◌>>=◌ {ℓ κ} : {A : Type ℓ} {B : Type κ} → Run A → (A → Run B) → Run B
ok a >>= f = f a
bug >>= f = bug
running >>= f = running

abbrev pub ◌>>◌ {ℓ} : {B : Type ℓ} → Run (Unit {0}) → Run B → Run B
m >> k = m >>= λ _. k

-- BUG_ON(cond)
abbrev pub bug_on : Bool → Run (Unit {0})
bug_on true = bug
bug_on false = ok tt
