-- ===== src/Base/Order.antt =====
-- The order of texts, and sorting by a Boolean test.
use Prim.Native.String.{String}
use Prim.Native.Char.{code}
use mathlib.Core.Path.{◌≡◌, refl}
use mathlib.Core.Logic.{◌⊎◌, inl, inr}
use mathlib.Core.Bool.{Bool, true, false, ◌&&◌, ◌||◌}
use mathlib.Core.List.{List, [], ◌∷◌}
use native.Mathlib.Omega.{arith}
use ai_model_scheduler.Base.Tests.{ltb, eqb, if◌then◌else◌, Bool-cases}
use ai_model_scheduler.Base.Lists.{All}

unfoldable pub text_leb : String → String → Bool
text_leb String.[] t = true
text_leb (String.◌∷◌ c s) String.[] = false
text_leb (String.◌∷◌ c s) (String.◌∷◌ d t) =
    ltb (code c) (code d) || (eqb (code c) (code d) && text_leb s t)

pub text_leb_total : (s t : String) → (text_leb s t ≡ true) ⊎ (text_leb t s ≡ true)
unfolding text_leb
text_leb_total String.[] t = inl refl
text_leb_total (String.◌∷◌ c s) String.[] = inr refl
text_leb_total (String.◌∷◌ c s) (String.◌∷◌ d t) = ground (arith, text_leb_total s t)

module _ {ℓ} {A : Type ℓ} (leq : A → A → Bool) where
  unfoldable pub insert_by : A → List A → List A
  insert_by a [] = a ∷ []
  insert_by a (b ∷ bs) = let later = insert_by a bs in if leq a b then a ∷ b ∷ bs else b ∷ later

  -- Go's sort.Slice leaves the order of equal items open; this is one of the orders that it may give.
  unfoldable pub sort_by : List A → List A
  unfolding insert_by
  sort_by [] = []
  sort_by (a ∷ bs) = insert_by a (sort_by bs)

  -- Nothing to precede, or an item that may stand after `a`.
  abbrev pub IsBelow : A → List A → Type 0
  IsBelow a [] = Unit
  IsBelow a (b ∷ bs) = leq a b ≡ true

  -- Each item may stand before the next.
  abbrev pub IsSorted : List A → Type 0
  IsSorted [] = Unit
  IsSorted (a ∷ bs) = IsBelow a bs × IsSorted bs

  insert_by-IsBelow :
      (a b : A) (bs : List A) → leq b a ≡ true → IsBelow b bs → IsBelow b (insert_by a bs)
  unfolding insert_by
  insert_by-IsBelow a b [] h k = h
  insert_by-IsBelow a b (c ∷ cs) h k = elim (Bool-cases (leq a c)) [
    | inl e ↦ rw e h
    | inr e ↦ rw e k
  ]

  module _ (total : (a b : A) → (leq a b ≡ true) ⊎ (leq b a ≡ true)) where
    insert_by-IsSorted : (a : A) (bs : List A) → IsSorted bs → IsSorted (insert_by a bs)
    unfolding insert_by
    insert_by-IsSorted a [] h = (tt, tt)
    insert_by-IsSorted a (b ∷ bs) (below, rest) = elim (Bool-cases (leq a b)) [
      | inl e ↦ rw e (e, (below, rest))
      | inr e ↦
          let ba : leq b a ≡ true = ground (arith, total a b, e) in
          rw e (insert_by-IsBelow a b bs ba below, insert_by-IsSorted a bs rest)
    ]

    pub sort_by-IsSorted : (bs : List A) → IsSorted (sort_by bs)
    unfolding sort_by
    sort_by-IsSorted [] = tt
    sort_by-IsSorted (b ∷ bs) = insert_by-IsSorted b (sort_by bs) (sort_by-IsSorted bs)

  -- What holds of all items still does, and back.
  module _ (P : A → Type 0) where
    insert_by-All : (a : A) (bs : List A) → P a → All P bs → All P (insert_by a bs)
    unfolding insert_by
    insert_by-All a [] p h = (p, tt)
    insert_by-All a (b ∷ bs) p (q, h) = elim (Bool-cases (leq a b)) [
      | inl e ↦ rw e (p, (q, h))
      | inr e ↦ rw e (q, insert_by-All a bs p h)
    ]

    pub sort_by-All : (bs : List A) → All P bs → All P (sort_by bs)
    unfolding sort_by
    sort_by-All [] h = tt
    sort_by-All (b ∷ bs) (p, h) = insert_by-All b (sort_by bs) p (sort_by-All bs h)
