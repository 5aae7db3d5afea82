-- ===== src/Mapper/TransformQueue/Once.antt =====
-- A scalar is transformed once, however often it waits in the queue of src/transform.cpp.
use google_protobuf_dynamic.Common.{
  ℕ, suc, Bool, ◌+◌, ◌<◌, ◌≤◌, ◌≡◌, refl, ◌∙◌, ◌==◌, ltb, if◌then◌else◌, true, false, List, [], ◌∷◌,
  arith, Bool-cases, ap, ==_iff, inl, inr,
}
use google_protobuf_dynamic.Common.Sorting.{contains}
use google_protobuf_dynamic.Mapper.TransformQueue.{
  TableEntry, PendingTransform, DecoderTransformQueue, Applied, apply_one, apply_from,
  apply_transforms, reversed,
}

-- How often a scalar waits, and how often it is transformed.
unfoldable pub waiting : ℕ → List PendingTransform → ℕ
waiting sv [] = 0
waiting sv (p ∷ pending) = (if p.target == sv then 1 else 0) + waiting sv pending

abbrev pub target_of : Applied → ℕ
target_of (Applied.transform t target) = target
target_of (Applied.transform_fieldtable t target entries) = target

unfoldable pub times_applied : ℕ → List Applied → ℕ
times_applied sv [] = 0
times_applied sv (a ∷ applied) = (if target_of a == sv then 1 else 0) + times_applied sv applied

target-apply_one :
    (fieldtable : List TableEntry) (p : PendingTransform)
    → target_of (apply_one fieldtable p) ≡ p.target
unfolding apply_one
target-apply_one fieldtable p = ground arith

-- A shared scalar that was seen is not transformed again; one that was not is once.
shared-apply_from :
    (refcnt : (round sv : ℕ) → ℕ) (round : ℕ) (fieldtable : List TableEntry)
    (pending : List PendingTransform) (seen : List ℕ) (sv : ℕ)
    → ((i : ℕ) → 2 < refcnt i sv)
    → times_applied sv (apply_from refcnt round fieldtable pending seen)
      ≡ (if contains sv seen then 0 else (if ltb 0 (waiting sv pending) then 1 else 0))
unfolding apply_from times_applied waiting
shared-apply_from refcnt round fieldtable [] seen sv shared = ground arith
shared-apply_from refcnt round fieldtable (p ∷ pending) seen sv shared =
    let next = shared-apply_from refcnt (suc round) fieldtable pending in
    elim (Bool-cases (p.target == sv)) [
      | inl same ↦
          let here = ==_iff p.target sv in
          let counted : ltb 2 (refcnt round p.target) ≡ true =
            ground (arith, shared round, ap (refcnt round) (here.0 same)) in
          elim (Bool-cases (contains p.target seen)) [
            | inl before ↦
                rw (counted, before)
                  (ground (
                    arith,
                    same,
                    before,
                    ap (λ (t : ℕ). contains t seen) (here.0 same),
                    next seen sv shared,
                  ))
            | inr first ↦
                rw (counted, first)
                  (ground (
                    arith,
                    same,
                    first,
                    ap (λ (t : ℕ). contains t seen) (here.0 same),
                    target-apply_one fieldtable p,
                    next (p.target ∷ seen) sv shared,
                  ))
          ]
      | inr other ↦ elim (Bool-cases (ltb 2 (refcnt round p.target))) [
        | inl counted ↦ elim (Bool-cases (contains p.target seen)) [
          | inl before ↦ rw (counted, before) (ground (arith, other, next seen sv shared))
          | inr first ↦
              rw (counted, first)
                (ground
                  (arith, other, target-apply_one fieldtable p, next (p.target ∷ seen) sv shared))
        ]
        | inr single ↦
            rw single (ground (arith, other, target-apply_one fieldtable p, next seen sv shared))
      ]
    ]

-- A scalar that is not shared is transformed each time that it waits.
single-apply_from :
    (refcnt : (round sv : ℕ) → ℕ) (round : ℕ) (fieldtable : List TableEntry)
    (pending : List PendingTransform) (seen : List ℕ) (sv : ℕ)
    → ((i : ℕ) → refcnt i sv ≤ 2)
    → times_applied sv (apply_from refcnt round fieldtable pending seen) ≡ waiting sv pending
unfolding apply_from times_applied waiting
single-apply_from refcnt round fieldtable [] seen sv single = refl
single-apply_from refcnt round fieldtable (p ∷ pending) seen sv single =
    let next = single-apply_from refcnt (suc round) fieldtable pending in
    elim (Bool-cases (ltb 2 (refcnt round p.target))) [
      | inl counted ↦
          let other : (p.target == sv) ≡ false = ground (
            arith,
            counted,
            single round,
            ==_iff p.target sv,
            λ (h : p.target ≡ sv). ap (refcnt round) h,
          ) in
          elim (Bool-cases (contains p.target seen)) [
            | inl before ↦ rw (counted, before) (ground (arith, other, next seen sv single))
            | inr first ↦
                rw (counted, first)
                  (ground
                    (arith, other, target-apply_one fieldtable p, next (p.target ∷ seen) sv single))
          ]
      | inr alone ↦ rw alone (ground (arith, target-apply_one fieldtable p, next seen sv single))
    ]

waiting-reversed :
    (sv : ℕ) (pending done : List PendingTransform)
    → waiting sv (reversed pending done) ≡ waiting sv pending + waiting sv done
unfolding waiting reversed
waiting-reversed sv [] done = omega arith
waiting-reversed sv (p ∷ pending) done = omega (arith, waiting-reversed sv pending (p ∷ done))

-- The scalar has more than two references in every round, or in none.
abbrev pub Counted : (refcnt : (round sv : ℕ) → ℕ) (shared : Bool) (sv : ℕ) → Type 0
Counted refcnt shared sv = (round : ℕ) → ltb 2 (refcnt round sv) ≡ shared

-- A scalar that has more than two references in every round is transformed once, if it waits at all; one
-- that has two at most in every round is transformed as often as it waits. The counts of the other
-- scalars may change from round to round.
pub apply_transforms-waiting :
    (refcnt : (round sv : ℕ) → ℕ) (q : DecoderTransformQueue) (sv : ℕ) (shared : Bool)
    → Counted refcnt shared sv
    → times_applied sv (apply_transforms refcnt q) ≡ (
        if shared
        then (if ltb 0 (waiting sv q.pending_transforms) then 1 else 0)
        else waiting sv q.pending_transforms)
unfolding apply_transforms waiting
apply_transforms-waiting refcnt q sv true counted =
    shared-apply_from refcnt 0 q.fieldtable (reversed q.pending_transforms []) [] sv
      (λ i. ground (arith, counted i))
    ∙ ap (λ (n : ℕ). if ltb 0 n then 1 else 0)
        (waiting-reversed sv q.pending_transforms [] ∙ omega arith)
apply_transforms-waiting refcnt q sv false counted =
    single-apply_from refcnt 0 q.fieldtable (reversed q.pending_transforms []) [] sv
      (λ i. ground (arith, counted i))
    ∙ waiting-reversed sv q.pending_transforms []
    ∙ omega arith
