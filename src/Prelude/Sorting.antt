-- ===== src/Prelude/Sorting.antt =====
-- `sort` by an order on texts: the same list in whatever order the texts come.
use mathlib.Core.Path.{◌≡◌, refl, sym, ap, ◌∙◌}
use mathlib.Core.Bool.{Bool, true, ◌||◌}
use mathlib.Core.List.{List, [], ◌∷◌, Perm, foldr}
use mathlib.Core.List.Perm
use native.Mathlib.Omega.{arith}
use memo_build.Prelude.Tests.{if◌then◌else◌}
use memo_build.Prelude.Texts.{Text}

pub record IsTotalOrder (leb : Text → Text → Bool) : Type 0 where
  pub total : (s t : Text) → (leb s t || leb t s) ≡ true
  pub antisym : (s t : Text) → leb s t ≡ true → leb t s ≡ true → s ≡ t
  pub trans : (s t u : Text) → leb s t ≡ true → leb t u ≡ true → leb s u ≡ true

module _ (leb : Text → Text → Bool) where
  unfoldable pub insert_by : Text → List Text → List Text
  insert_by a [] = a ∷ []
  insert_by a (x ∷ xs) = let rest = insert_by a xs in if leb a x then a ∷ x ∷ xs else x ∷ rest

  unfoldable pub sort_by : List Text → List Text
  unfolding insert_by
  sort_by [] = []
  sort_by (x ∷ xs) = insert_by x (sort_by xs)

  pub insert_by-swap :
      (a b : Text) (xs : List Text)
      → IsTotalOrder leb
      → insert_by a (insert_by b xs) ≡ insert_by b (insert_by a xs)
  unfolding insert_by
  insert_by-swap a b [] order = ground (arith, order.total a b, order.antisym a b)
  insert_by-swap a b (x ∷ xs) order = ground (
    arith,
    order.total a b,
    order.antisym a b,
    order.trans a x b,
    order.trans b x a,
    order.trans a b x,
    order.trans b a x,
    order.total a x,
    order.total b x,
    insert_by-swap a b xs order,
  )

  sort_by-foldr : (xs : List Text) → sort_by xs ≡ foldr insert_by [] xs
  unfolding sort_by
  sort_by-foldr [] = refl
  sort_by-foldr (x ∷ xs) = ap (insert_by x) (sort_by-foldr xs)

  texts-IsSet : IsSet (List Text)
  texts-IsSet = hlevel

  pub sort_by-Perm : (xs ys : List Text) → IsTotalOrder leb → Perm xs ys → sort_by xs ≡ sort_by ys
  sort_by-Perm xs ys order perm =
      sort_by-foldr xs
      ∙ Perm.foldr-eq {B = List Text} texts-IsSet insert_by (λ a b zs. insert_by-swap a b zs order)
          perm []
      ∙ sym (sort_by-foldr ys)
