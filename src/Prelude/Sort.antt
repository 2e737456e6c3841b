-- ===== src/Prelude/Sort.antt =====
-- Stable sorting by insertion, as `sort.Slice` and SQL's ORDER BY order rows whose keys differ, with
-- Go's order on strings.
use grpc_go_project.Prelude.Tests.{if-cases, ltb, ◌==◌, if◌then◌else◌}
use grpc_go_project.Prelude.Lists.{All}
use mathlib.Core.Path.{◌≡◌, refl, ap, ◌∙◌}
use mathlib.Core.Bool.{Bool, true, false, ◌||◌}
use mathlib.Core.List.{List, [], ◌∷◌}
use native.Mathlib.Omega.{arith}
use grpc_go_project.Prelude.Text.{Text}

-- `s < t` on strings.
unfoldable pub text_ltb : Text → Text → Bool
text_ltb s [] = false
text_ltb [] (d ∷ t) = true
text_ltb (c ∷ s) (d ∷ t) = let rest = text_ltb s t in if c == d then rest else ltb c d

module _ {A : Type 0} where
  -- Behind all that stand before it by the order, and before its equals.
  unfoldable pub insert_by : (A → A → Bool) → A → List A → List A
  insert_by before a [] = a ∷ []
  insert_by before a (b ∷ bs) =
      let rest = insert_by before a bs in if before b a then b ∷ rest else a ∷ b ∷ bs

  unfoldable pub sort_by : (A → A → Bool) → List A → List A
  unfolding insert_by
  sort_by before [] = []
  sort_by before (a ∷ as') = insert_by before a (sort_by before as')

  unfoldable pub any : (A → Bool) → List A → Bool
  any p [] = false
  any p (a ∷ as') = p a || any p as'

  any-insert_by :
      (p : A → Bool) (before : A → A → Bool) (a : A) (bs : List A)
      → any p (insert_by before a bs) ≡ (p a || any p bs)
  unfolding any insert_by
  any-insert_by p before a [] = refl
  any-insert_by p before a (b ∷ bs) =
      if-cases (λ z. any p z ≡ (p a || (p b || any p bs))) (before b a) (b ∷ insert_by before a bs)
        (a ∷ b ∷ bs) (λ _. let ih = any-insert_by p before a bs in ground arith) (λ _. refl)

  -- Sorting keeps what is there.
  pub any-sort_by :
      (p : A → Bool) (before : A → A → Bool) (xs : List A) → any p (sort_by before xs) ≡ any p xs
  unfolding any sort_by
  any-sort_by p before [] = refl
  any-sort_by p before (a ∷ as') =
      any-insert_by p before a (sort_by before as') ∙ ap (λ z. p a || z) (any-sort_by p before as')

  All-insert_by :
      (P : A → Type 0) (before : A → A → Bool) (a : A) (bs : List A)
      → P a
      → All P bs
      → All P (insert_by before a bs)
  unfolding insert_by
  All-insert_by P before a [] h k = (h, tt)
  All-insert_by P before a (b ∷ bs) h k =
      if-cases (All P) (before b a) (b ∷ insert_by before a bs) (a ∷ b ∷ bs)
        (λ _. (k.0, All-insert_by P before a bs h k.1)) (λ _. (h, k))

  pub All-sort_by :
      (P : A → Type 0) (before : A → A → Bool) (xs : List A) → All P xs → All P (sort_by before xs)
  unfolding sort_by
  All-sort_by P before [] h = h
  All-sort_by P before (a ∷ as') h =
      All-insert_by P before a (sort_by before as') h.0 (All-sort_by P before as' h.1)
