-- ===== src/Bench/Parts.antt =====
-- internal/bench/runner.go: the parts into which `stageDataset` splits the packed dataset.
use ai_model_scheduler.Base.{
  ◌∙◌, [], ◌∷◌, ◌++◌, List, inl, inr, inr, inl, ltb, Bool-cases, ◌-◌, arith, ap, All, ◌++◌, length,
  ◌≤◌, ◌≡◌, ℕ, ◌∷◌, List, zero, suc, refl,
}
use ai_model_scheduler.Bench.Staging.{split_parts, chunks, take, drop}

unfoldable pub concat : {A : Type 0} → List (List A) → List A
concat [] = []
concat (xs ∷ xss) = xs ++ concat xss

module _ {A : Type 0} where
  append-take : (n : ℕ) (xs : List A) → take n xs ++ drop n xs ≡ xs
  unfolding take drop
  append-take zero xs = refl
  append-take (suc n) [] = refl
  append-take (suc n) (x ∷ xs) = ap (λ ys. x ∷ ys) (append-take n xs)

  length-take : (n : ℕ) (xs : List A) → length (take n xs) ≤ n
  unfolding take
  length-take zero xs = ground arith
  length-take (suc n) [] = ground arith
  length-take (suc n) (x ∷ xs) = ground (arith, length-take n xs)

  length-drop : (n : ℕ) (xs : List A) → length (drop n xs) ≡ length xs - n
  unfolding drop
  length-drop zero xs = ground arith
  length-drop (suc n) [] = ground arith
  length-drop (suc n) (x ∷ xs) = ground (arith, length-drop n xs)

  append_empty : (xs : List A) → xs ++ [] ≡ xs
  append_empty [] = refl
  append_empty (x ∷ xs) = ap (λ ys. x ∷ ys) (append_empty xs)

  concat-split_parts : (rounds size : ℕ) (xs : List A) → concat (split_parts rounds size xs) ≡ xs
  unfolding split_parts concat
  concat-split_parts zero size [] = refl
  concat-split_parts zero size (x ∷ xs) = append_empty (x ∷ xs)
  concat-split_parts (suc rounds) size xs = elim (Bool-cases (ltb size (length xs))) [
    | inl e ↦
        rw (e, split_parts)
          (ap (λ ys. take size xs ++ ys) (concat-split_parts rounds size (drop size xs))
            ∙ append-take size xs)
    | inr e ↦ rw (e, split_parts) (append_empty xs)
  ]

  split_parts_fit :
      (rounds size : ℕ) (xs : List A)
      → 1 ≤ size
      → length xs ≤ rounds
      → All (λ part. length part ≤ size) (split_parts rounds size xs)
  unfolding split_parts
  split_parts_fit zero size xs pos_size fits = (ground arith, tt)
  split_parts_fit (suc rounds) size xs pos_size fits = elim (Bool-cases (ltb size (length xs))) [
    | inl e ↦
        rw (e, split_parts)
          (
            length-take size xs,
            split_parts_fit rounds size (drop size xs) pos_size
                (ground (arith, length-drop size xs, e, pos_size, fits)),
          )
    | inr e ↦ rw (e, split_parts) (ground (arith, e), tt)
  ]

  -- The parts of a packed dataset are put together to the dataset again, and none is longer than
  -- the size asked for, if that is positive.
  pub concat-chunks :
      (size : ℕ) (xs : List A)
      → 1 ≤ size
      → (concat (chunks size xs) ≡ xs) × All (λ part. length part ≤ size) (chunks size xs)
  unfolding chunks
  concat-chunks size xs positive = (
    concat-split_parts (length xs) size xs,
    split_parts_fit (length xs) size xs positive (ground arith),
  )
