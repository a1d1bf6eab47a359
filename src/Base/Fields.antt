-- ===== src/Base/Fields.antt =====
-- Memory, one map for each struct field: a pointer is a number, 0 is NULL, and the field `f` of the
-- object at `p` is `f p`. Writes to different fields cannot meet, as in C.
use Prim.Native.Nat.{ℕ}
use mathlib.Core.Path.{◌≡◌}
use mathlib.Core.Logic.{◌≢◌}
use native.Mathlib.Omega.{arith}
use so_tp.Base.Tests.{◌==◌, if◌then◌else◌, eq→==, ne→==}

-- `p->f = v`.
abbrev pub update {ℓ} : {A : Type ℓ} → (ℕ → A) → ℕ → A → ℕ → A
update f p v q = if p == q then v else f q

pub update_self {ℓ} : {A : Type ℓ} (f : ℕ → A) (p : ℕ) (v : A) → update f p v p ≡ v
update_self f p v = rw (eq→== p p (omega arith))

pub update_ne {ℓ} : {A : Type ℓ} (f : ℕ → A) (p q : ℕ) (v : A) → p ≢ q → update f p v q ≡ f q
update_ne f p q v h = rw (ne→== p q h)
