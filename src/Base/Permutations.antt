-- ===== src/Base/Permutations.antt =====
-- Sorting keeps the items.
use mathlib.Core.Logic.{inl, inr}
use mathlib.Core.Bool.{Bool}
use mathlib.Core.List.Perm
use mathlib.Core.List.{List, [], ◌∷◌, Perm}
use ai_model_scheduler.Base.Tests.{Bool-cases}
use ai_model_scheduler.Base.Order.{insert_by, sort_by}

module _ {A : Type 0} (leq : A → A → Bool) where
  insert_by-Perm : (a : A) (bs : List A) → Perm (insert_by leq a bs) (a ∷ bs)
  unfolding insert_by
  insert_by-Perm a [] = Perm.rfl
  insert_by-Perm a (b ∷ bs) = elim (Bool-cases (leq a b)) [
    | inl e ↦ rw e Perm.rfl
    | inr e ↦ rw e (Perm.trans (Perm.cons b (insert_by-Perm a bs)) (Perm.swap a b bs))
  ]

  pub sort_by-Perm : (bs : List A) → Perm (sort_by leq bs) bs
  unfolding sort_by
  sort_by-Perm [] = Perm.rfl
  sort_by-Perm (b ∷ bs) =
      Perm.trans (insert_by-Perm b (sort_by leq bs)) (Perm.cons b (sort_by-Perm bs))
