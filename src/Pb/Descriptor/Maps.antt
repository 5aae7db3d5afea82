-- ===== src/Pb/Descriptor/Maps.antt =====
-- The association lists that stand for unordered_map and for Perl's hashes.
use google_protobuf_dynamic.Common.{
  ℕ, ◌≡◌, refl, ◌==◌, false, none, some, List, [], ◌∷◌, if◌then◌else◌, arith,
}
use google_protobuf_dynamic.Common.Sorting.{contains, Distinct}
use google_protobuf_dynamic.Pb.Descriptor.{find, assign, erase}

abbrev pub keys_of : {V : Type 0} → List (ℕ × V) → List ℕ
keys_of [] = []
keys_of ((k, v) ∷ m) = k ∷ keys_of m

pub find-assign :
    {V : Type 0} (j k : ℕ) (v : V) (m : List (ℕ × V))
    → find j (assign k v m) ≡ (if k == j then some v else find j m)
unfolding find assign
find-assign j k v [] = refl
find-assign j k v ((i, w) ∷ m) = ground (arith, find-assign j k v m)

find-missing :
    {V : Type 0} (k : ℕ) (m : List (ℕ × V)) → contains k (keys_of m) ≡ false → find k m ≡ none
unfolding find
find-missing k [] h = refl
find-missing k ((i, w) ∷ m) h = ground (arith, find-missing k m)

pub find-erase :
    {V : Type 0} (j k : ℕ) (m : List (ℕ × V))
    → Distinct (keys_of m)
    → find j (erase k m) ≡ (if k == j then none else find j m)
unfolding find erase
find-erase j k [] d = ground arith
find-erase j k ((i, w) ∷ m) d = ground (arith, find-erase j k m d.1, find-missing i m d.0)

contains-erase :
    {V : Type 0} (j k : ℕ) (m : List (ℕ × V))
    → contains j (keys_of m) ≡ false
    → contains j (keys_of (erase k m)) ≡ false
unfolding erase
contains-erase j k [] h = refl
contains-erase j k ((i, w) ∷ m) h = ground (arith, contains-erase j k m)

pub erase-Distinct :
    {V : Type 0} (k : ℕ) (m : List (ℕ × V)) → Distinct (keys_of m) → Distinct (keys_of (erase k m))
unfolding erase
erase-Distinct k [] d = tt
erase-Distinct k ((i, w) ∷ m) d = ground (arith, erase-Distinct k m d.1, contains-erase i k m d.0)
