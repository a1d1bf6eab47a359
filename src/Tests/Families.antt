-- ===== src/Tests/Families.antt =====
-- A process, 16, with the children 32 and 48.
use so_tp.Base.{refl, [], ◌∷◌, arith, ◌==◌, if◌then◌else◌}
use so_tp.State.{Processes}
use so_tp.Process.{attach_child, detach_child}
use so_tp.Process.Family.{Children, attach_child-Children, detach_child-Children}
use so_tp.Tests.Schedules.{processes}

abbrev family : Processes
family = record processes {
  parent = λ p. if p == 32 then 16 else if p == 48 then 16 else 0;
  first_child = λ p. if p == 16 then 32 else 0;
  next_sibling = λ p. if p == 32 then 48 else 0;
  prev_sibling = λ p. if p == 48 then 32 else 0;
}

family-Children : Children family 16 (32 ∷ 48 ∷ [])
family-Children = record {
  chain = omega arith;
  first_is = refl;
  distinct = omega arith;
  parents = (refl, (refl, tt));
}

attach_child-Children_example : Children (attach_child family 16 64) 16 (64 ∷ 32 ∷ 48 ∷ [])
attach_child-Children_example =
    attach_child-Children family 16 64 (32 ∷ 48 ∷ []) family-Children (omega arith) (omega arith)
      (omega arith) refl

detach_child-Children_example : Children (detach_child family 32) 16 (48 ∷ [])
detach_child-Children_example =
    detach_child-Children family 16 32 (32 ∷ 48 ∷ []) family-Children refl (omega arith)
