-- ===== src/Prelude/Sets.antt =====
-- Sets of texts as lists: membership, the distinct elements of a list, and a sorted set.
use Prim.Native.Nat.{suc, ◌≤◌}
use Prim.Native.String.{String, compare}
use Prim.Native.Nat.{Ordering}
use text.Mathlib.TextEquality.{eq_iff, path_by_compare}
use mathlib.Core.Path.{◌≡◌, refl}
use mathlib.Core.Bool.{Bool, false, ◌||◌}
use mathlib.Core.List.{List, [], ◌∷◌, ◌++◌}
use native.Mathlib.Omega.{arith}
use cyberwatch_rs.Prelude.Tests.{◌==◌, text_eq, if◌then◌else◌}
use cyberwatch_rs.Prelude.Lists.{length}

unfoldable pub member : String → List String → Bool
member x [] = false
member x (y ∷ ys) = y == x || member x ys

-- What a `HashSet` holds after the elements are inserted.
unfoldable pub distinct : List String → List String
unfolding member
distinct [] = []
distinct (x ∷ xs) = let rest = distinct xs in if member x rest then rest else x ∷ rest

-- `BTreeSet::insert`: the set is in increasing order.
unfoldable pub insert_sorted : String → List String → List String
insert_sorted x [] = x ∷ []
insert_sorted x (y ∷ ys) =
    let rest = insert_sorted x ys in
    elim (compare x y) [ Ordering.lt ↦ x ∷ y ∷ ys | Ordering.eq ↦ y ∷ ys | Ordering.gt ↦ y ∷ rest ]

pub member-distinct : (x : String) (ys : List String) → member x (distinct ys) ≡ member x ys
unfolding member distinct
member-distinct x [] = refl
member-distinct x (y ∷ ys) = ground (arith, member-distinct x ys, member-distinct y ys, eq_iff y x)

pub member-append :
    (x : String) (ys zs : List String) → member x (ys ++ zs) ≡ (member x ys || member x zs)
unfolding member
member-append x [] zs = refl
member-append x (y ∷ ys) zs = ground (arith, member-append x ys zs)

pub member-insert_sorted :
    (x y : String) (ys : List String) → member x (insert_sorted y ys) ≡ (y == x || member x ys)
unfolding member insert_sorted
member-insert_sorted x y [] = refl
member-insert_sorted x y (z ∷ zs) =
    ground (arith, member-insert_sorted x y zs, eq_iff z x, eq_iff y x, path_by_compare y z)

-- One more element, anywhere in the list, adds one to the number of distinct elements if it is new.
pub length-distinct-insert :
    (e : String) (xs ys : List String)
    → length (distinct (xs ++ e ∷ ys)) ≡ (
        if member e (xs ++ ys)
        then length (distinct (xs ++ ys))
        else suc (length (distinct (xs ++ ys))))
unfolding distinct
length-distinct-insert e [] ys = ground (arith, member-distinct e ys)
length-distinct-insert e (x ∷ xs) ys =
    rw (member-distinct x (xs ++ e ∷ ys), member-distinct x (xs ++ ys), member-append x xs (e ∷ ys))
      (ground (
        arith,
        length-distinct-insert e xs ys,
        member-append x xs ys,
        member-append e xs ys,
        eq_iff x e,
        eq_iff e x,
      ))

-- There is more than one distinct element exactly when two elements differ.
pub length-distinct-tail :
    (x : String) (xs : List String) → length (distinct xs) ≤ length (distinct (x ∷ xs))
unfolding distinct
length-distinct-tail x xs = ground arith
