-- ===== src/Common/Sorting.antt =====
-- std::sort on numbers, as an insertion sort, and what it keeps.
use Prim.Native.Nat.{ℕ, zero, suc, ◌≤◌, ◌<◌}
use mathlib.Core.Path.{◌≡◌, refl, ◌∙◌, ap}
use mathlib.Core.Bool.{Bool, true, false, ◌||◌}
use mathlib.Core.List.{List, [], ◌∷◌}
use native.Mathlib.Omega.{arith}
use google_protobuf_dynamic.Common.Tests.{leb, ◌==◌, if◌then◌else◌}
use google_protobuf_dynamic.Common.Lists.{take}

unfoldable pub insert_sorted : ℕ → List ℕ → List ℕ
insert_sorted x [] = x ∷ []
insert_sorted x (y ∷ ys) = if leb x y then x ∷ y ∷ ys else y ∷ insert_sorted x ys

unfoldable pub sort : List ℕ → List ℕ
unfolding insert_sorted
sort [] = []
sort (x ∷ xs) = insert_sorted x (sort xs)

abbrev pub contains : ℕ → List ℕ → Bool
contains k [] = false
contains k (x ∷ xs) = k == x || contains k xs

abbrev pub Distinct : List ℕ → Type 0
Distinct [] = Unit
Distinct (x ∷ xs) = (contains x xs ≡ false) × Distinct xs

abbrev pub AtLeast : ℕ → List ℕ → Type 0
AtLeast x [] = Unit
AtLeast x (y ∷ ys) = (x ≤ y) × AtLeast x ys

abbrev pub Sorted : List ℕ → Type 0
Sorted [] = Unit
Sorted (x ∷ xs) = AtLeast x xs × Sorted xs

-- vector::back of `x ∷ xs`.
unfoldable pub last : ℕ → List ℕ → ℕ
last x [] = x
last x (y ∷ ys) = last y ys

contains-insert_sorted :
    (k x : ℕ) (xs : List ℕ) → contains k (insert_sorted x xs) ≡ (k == x || contains k xs)
unfolding insert_sorted
contains-insert_sorted k x [] = refl
contains-insert_sorted k x (y ∷ ys) = ground (arith, contains-insert_sorted k x ys)

pub contains-sort : (k : ℕ) (xs : List ℕ) → contains k (sort xs) ≡ contains k xs
unfolding sort
contains-sort k [] = refl
contains-sort k (x ∷ xs) =
    contains-insert_sorted k x (sort xs) ∙ ap (λ (b : Bool). k == x || b) (contains-sort k xs)

AtLeast-trans : (x y : ℕ) (xs : List ℕ) → x ≤ y → AtLeast y xs → AtLeast x xs
AtLeast-trans x y [] h a = tt
AtLeast-trans x y (z ∷ zs) h a = (omega arith, AtLeast-trans x y zs h a.1)

AtLeast-insert_sorted :
    (k x : ℕ) (xs : List ℕ) → k ≤ x → AtLeast k xs → AtLeast k (insert_sorted x xs)
unfolding insert_sorted
AtLeast-insert_sorted k x [] h a = (h, tt)
AtLeast-insert_sorted k x (y ∷ ys) h a = ground (arith, AtLeast-insert_sorted k x ys)

insert_sorted-Sorted : (x : ℕ) (xs : List ℕ) → Sorted xs → Sorted (insert_sorted x xs)
unfolding insert_sorted
insert_sorted-Sorted x [] s = (tt, tt)
insert_sorted-Sorted x (y ∷ ys) s =
    ground (arith, insert_sorted-Sorted x ys, AtLeast-trans x y ys, AtLeast-insert_sorted y x ys)

pub sort-Sorted : (xs : List ℕ) → Sorted (sort xs)
unfolding sort
sort-Sorted [] = tt
sort-Sorted (x ∷ xs) = insert_sorted-Sorted x (sort xs) (sort-Sorted xs)

insert_sorted-Distinct :
    (x : ℕ) (xs : List ℕ) → contains x xs ≡ false → Distinct xs → Distinct (insert_sorted x xs)
unfolding insert_sorted
insert_sorted-Distinct x [] h d = (refl, tt)
insert_sorted-Distinct x (y ∷ ys) h d =
    ground (arith, insert_sorted-Distinct x ys, contains-insert_sorted y x ys)

pub sort-Distinct : (xs : List ℕ) → Distinct xs → Distinct (sort xs)
unfolding sort
sort-Distinct [] d = tt
sort-Distinct (x ∷ xs) d =
    insert_sorted-Distinct x (sort xs) (contains-sort x xs ∙ d.0) (sort-Distinct xs d.1)

below_all : (k x : ℕ) (xs : List ℕ) → AtLeast x xs → k < x → contains k xs ≡ false
below_all k x [] a h = refl
below_all k x (y ∷ ys) a h = ground (arith, below_all k x ys)

-- In a prefix of a sorted list are all the members that do not pass the prefix's last one.
pub contains-take_low :
    (k c x : ℕ) (xs : List ℕ)
    → Sorted (x ∷ xs)
    → contains k (x ∷ xs) ≡ true
    → k ≤ last x (take c xs)
    → contains k (x ∷ take c xs) ≡ true
unfolding last
contains-take_low k zero x xs s h l = ground (arith, below_all k x xs)
contains-take_low k (suc c) x [] s h l = h
contains-take_low k (suc c) x (y ∷ ys) s h l = ground (arith, contains-take_low k c y ys)

-- The last one of a prefix bounds it.
pub contains-take_high :
    (k c x : ℕ) (xs : List ℕ)
    → Sorted (x ∷ xs)
    → contains k (x ∷ take c xs) ≡ true
    → k ≤ last x (take c xs)
unfolding last
contains-take_high k zero x xs s h = ground arith
contains-take_high k (suc c) x [] s h = ground arith
contains-take_high k (suc c) x (y ∷ ys) s h =
    ground (arith, contains-take_high k c y ys, contains-take_high y c y ys)

pub contains-take : (k c : ℕ) (xs : List ℕ) → contains k xs ≡ false → contains k (take c xs) ≡ false
contains-take k zero xs h = refl
contains-take k (suc c) [] h = refl
contains-take k (suc c) (x ∷ xs) h = ground (arith, contains-take k c xs)

pub take-Distinct : (c : ℕ) (xs : List ℕ) → Distinct xs → Distinct (take c xs)
take-Distinct zero xs d = tt
take-Distinct (suc c) [] d = tt
take-Distinct (suc c) (x ∷ xs) d = (contains-take x c xs d.0, take-Distinct c xs d.1)
