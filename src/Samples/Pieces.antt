-- ===== src/Samples/Pieces.antt =====
-- A list in parts.
use ai_model_scheduler.Base.{length, All, ◌≡◌, arith, ℕ, ◌≤◌, List, [], ◌∷◌}
use ai_model_scheduler.Bench.Parts.{concat-chunks, concat}
use ai_model_scheduler.Bench.Staging.{chunks}

abbrev items : List ℕ
items = 5 ∷ 6 ∷ 7 ∷ []

two_positive : 1 ≤ 2
two_positive = ground arith

concat-chunks_example :
    (concat (chunks 2 items) ≡ items) × All (λ part. length part ≤ 2) (chunks 2 items)
concat-chunks_example = concat-chunks 2 items two_positive
