-- ===== src/Mapper/TransformQueue.antt =====
-- class DecoderTransformQueue of src/transform.h and transform.cpp: the transformations that wait
-- until a message is decoded. A transformation and a scalar are numbers that stand for objects.
pub mod Once
use google_protobuf_dynamic.Common.{
  ℕ, zero, suc, ◌+◌, ◌-◌, ltb, ◌==◌, ◌&&◌, if◌then◌else◌, Bool, true, false, Option, none, some,
  List, [], ◌∷◌, ◌++◌, ◌>>=◌, get_elem?, set, take, drop, length,
}
use google_protobuf_dynamic.Common.Sorting.{contains}

-- A field's number and the scalar of its value.
pub record TableEntry : Type 0 where
  pub field : ℕ
  pub value : ℕ

-- `fieldtable_offset == -1` is `none`; otherwise it comes with `fieldtable_size`.
pub record PendingTransform : Type 0 where
  pub transform : ℕ
  pub target : ℕ
  pub table : Option (ℕ × ℕ)

-- `referenced` are the references that the queue owns: a scalar stands in it once for each.
pub record DecoderTransformQueue : Type 0 where
  pub pending_transforms : List PendingTransform
  pub fieldtable : List TableEntry
  pub referenced : List ℕ

-- `SvREFCNT_dec` takes one reference back.
unfoldable pub release : ℕ → List ℕ → List ℕ
release sv [] = []
release sv (r ∷ referenced) = if r == sv then referenced else r ∷ release sv referenced

unfoldable pub release_targets : List PendingTransform → List ℕ → List ℕ
unfolding release
release_targets [] referenced = referenced
release_targets (p ∷ pending) referenced = release_targets pending (release p.target referenced)

unfoldable pub release_values : List TableEntry → List ℕ → List ℕ
unfolding release
release_values [] referenced = referenced
release_values (e ∷ entries) referenced = release_values entries (release e.value referenced)

unfoldable pub clear_queue : DecoderTransformQueue → DecoderTransformQueue
unfolding release_targets release_values
clear_queue q = record {
  pending_transforms = [];
  fieldtable = [];
  referenced = release_values q.fieldtable (release_targets q.pending_transforms q.referenced);
}

-- `push_back(PendingTransform(SvREFCNT_inc(target), transform))`
unfoldable pub push_transform :
    (target transform : ℕ) → DecoderTransformQueue → DecoderTransformQueue
push_transform target transform q = record q {
  pending_transforms =
      q.pending_transforms
      ++ ((record { transform = transform; target = target; table = none }) ∷ []);
  referenced = target ∷ q.referenced;
}

-- The transformation of the field, or that of the message; the result is the index of the last
-- pending one, which is the largest number where there is none.
unfoldable pub add_transform :
    (target : ℕ) (message_transform field_transform : Option ℕ)
    → DecoderTransformQueue
    → Option ℕ × DecoderTransformQueue
unfolding push_transform
add_transform target message_transform (some t) q =
    let q' = push_transform target t q in (some (length q'.pending_transforms - 1), q')
add_transform target (some t) none q =
    let q' = push_transform target t q in (some (length q'.pending_transforms - 1), q')
add_transform target none none q =
    (elim q.pending_transforms [ [] ↦ none | _ ∷ _ ↦ some (length q.pending_transforms - 1) ], q)

-- The queue takes over the caller's references to the values.
unfoldable pub own_values : List TableEntry → List ℕ → List ℕ
own_values [] referenced = referenced
own_values (e ∷ entries) referenced = e.value ∷ own_values entries referenced

-- An index outside the vector is undefined.
unfoldable pub finish_add_transform :
    (index : ℕ) → List TableEntry → DecoderTransformQueue → Option DecoderTransformQueue
unfolding own_values
finish_add_transform index entries q = get_elem? q.pending_transforms index >>= λ p.
    some (record q {
      fieldtable = q.fieldtable ++ entries;
      referenced = own_values entries q.referenced;
      pending_transforms =
          set q.pending_transforms index
            (record p { table = some (length q.fieldtable, length entries) });
    })

-- A call of a transformation: with the target alone, or with the entries of its table.
pub data Applied : Type 0 where
  transform : (transform target : ℕ) → Applied
  transform_fieldtable : (transform target : ℕ) → List TableEntry → Applied

unfoldable pub apply_one : List TableEntry → PendingTransform → Applied
apply_one fieldtable p = elim p.table [
  | none ↦ Applied.transform p.transform p.target
  | some (offset, size) ↦
      Applied.transform_fieldtable p.transform p.target (take size (drop offset fieldtable))
]

-- The loop of `apply_transforms`, over the pending ones from the last to the first. `refcnt` are
-- the reference counts at each round: the transformations of the rounds before, which are Perl or
-- other code, may have changed them.
unfoldable pub apply_from :
    (refcnt : (round sv : ℕ) → ℕ) (round : ℕ)
    → List TableEntry
    → List PendingTransform
    → (already_mapped : List ℕ) → List Applied
unfolding apply_one
apply_from refcnt round fieldtable [] already_mapped = []
apply_from refcnt round fieldtable (p ∷ pending) already_mapped =
    if ltb 2 (refcnt round p.target)
    then (if contains p.target already_mapped
        then apply_from refcnt (suc round) fieldtable pending already_mapped
        else apply_one fieldtable p
          ∷ apply_from refcnt (suc round) fieldtable pending (p.target ∷ already_mapped))
    else apply_one fieldtable p ∷ apply_from refcnt (suc round) fieldtable pending already_mapped

unfoldable pub reversed : List PendingTransform → List PendingTransform → List PendingTransform
reversed [] done = done
reversed (p ∷ pending) done = reversed pending (p ∷ done)

unfoldable pub apply_transforms :
    (refcnt : (round sv : ℕ) → ℕ) → DecoderTransformQueue → List Applied
unfolding apply_from reversed
apply_transforms refcnt q = apply_from refcnt 0 q.fieldtable (reversed q.pending_transforms []) []
