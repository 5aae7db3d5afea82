-- ===== src/Mapper/Context/Levels.antt =====
-- The levels of a MapperContext are a stack, whatever storage is reused, and their ids tell them
-- apart.
use google_protobuf_dynamic.Common.{
  ℕ, suc, ◌+◌, ◌-◌, ◌%◌, ◌^◌, ◌<◌, ◌≤◌, ◌≡◌, refl, ap, ◌∙◌, sym, subst, Option-cases, ◌>>=◌, inl,
  inr, Option, some, List, [], ◌∷◌, ◌++◌, arith,
}
use mathlib.Core.Option.{some-injective}
use mathlib.Core.List.{append_assoc}
use google_protobuf_dynamic.Mapper.Context.{
  Kind, Place, Item, MapperContext, rewind, clear, push_level_with, pop_level, set_place,
  next_after, fill_context,
}

-- The ids grow from the outermost level to the innermost; all are at least 1 and at most `top`.
unfoldable pub Growing : ℕ → List Item → Type 0
Growing top [] = 0 ≤ top
Growing top (item ∷ live) = (0 < item.id) × (item.id ≤ top) × Growing (item.id - 1) live

abbrev pub reserved : List Item → ℕ
reserved [] = 0
reserved (_ ∷ _) = 1

-- A new id is free: it is above the innermost level's, but where no storage is left, where
-- the next level takes the number after it.
unfoldable pub HasFreshIds : MapperContext → Type 0
HasFreshIds c = (0 < c.next_id) × Growing (c.next_id - reserved c.spare) c.live

Growing-weaken : (a b : ℕ) (live : List Item) → a ≤ b → Growing a live → Growing b live
unfolding Growing
Growing-weaken a b [] h g = omega arith
Growing-weaken a b (item ∷ live) h (p, q, g) = (p, omega (arith, q, h), g)

pub clear-HasFreshIds : (c : MapperContext) → HasFreshIds (clear c)
unfolding HasFreshIds clear Growing
clear-HasFreshIds c = (omega arith, omega arith)

next_after_small : (id : ℕ) → id + 1 < 2 ^ 32 → (id + 1) % 2 ^ 32 ≡ id + 1
next_after_small id room = omega (arith, room)

-- A level that is added to any context has an id above all others'.
pushed-Growing :
    (kind : Kind) (place : Place) (next_id : ℕ) (live spare : List Item)
    → next_id + 1 < 2 ^ 32
    → HasFreshIds (record { next_id = next_id; live = live; spare = spare })
    → HasFreshIds
        (push_level_with kind place (record { next_id = next_id; live = live; spare = spare }))
unfolding HasFreshIds push_level_with next_after Growing
pushed-Growing kind place next_id live [] room (p, g) =
    let id = next_after_small next_id room in
    rw id
      (omega arith, (omega arith, omega arith, Growing-weaken (next_id - 0) _ live (omega arith) g))
pushed-Growing kind place next_id live (item ∷ []) room (p, g) =
    rw (next_after_small next_id room) (omega arith, (p, omega arith, g))
pushed-Growing kind place next_id live (item ∷ other ∷ spare) room (p, g) =
    rw (next_after_small next_id room) (omega arith, (p, omega arith, g))

popped-Growing :
    (next_id : ℕ) (live spare : List Item) (c' : MapperContext)
    → HasFreshIds (record { next_id = next_id; live = live; spare = spare })
    → pop_level (record { next_id = next_id; live = live; spare = spare }) ≡ some c'
    → HasFreshIds c'
unfolding HasFreshIds pop_level Growing
popped-Growing next_id [] spare c' f e = cc e
popped-Growing next_id (item ∷ live) spare c' (p, (low, high, g)) e =
    subst HasFreshIds (some-injective _ _ e) (p, Growing-weaken _ _ live (omega arith) g)

reserved-bound : (next_id : ℕ) (spare : List Item) → next_id ≤ next_id + 1 - reserved spare
reserved-bound next_id [] = omega arith
reserved-bound next_id (_ ∷ _) = omega arith

set-Growing :
    (change : Place → Option Place) (next_id : ℕ) (live spare : List Item) (c' : MapperContext)
    → next_id + 1 < 2 ^ 32
    → HasFreshIds (record { next_id = next_id; live = live; spare = spare })
    → set_place change (record { next_id = next_id; live = live; spare = spare }) ≡ some c'
    → HasFreshIds c'
unfolding HasFreshIds set_place next_after Growing
set-Growing change next_id [] spare c' room f e = cc e
set-Growing change next_id (item ∷ live) spare c' room (p, (low, high, g)) e =
    elim (Option-cases (change item.place)) [
      | inl fault ↦ cc (fault, e)
      | inr (place, found) ↦
          subst HasFreshIds
            (some-injective _ _ (rw (found, set_place, next_after_small next_id room) at e))
            (
              omega arith,
              (p, reserved-bound next_id spare, Growing-weaken _ _ live (omega arith) g),
            )
    ]

-- The calls that an encoder makes on a context, with the number of ids that they take.
pub data Calls : ℕ → MapperContext → MapperContext → Type 0 where
  done : {c : MapperContext} → Calls 0 c c
  push :
      {n : ℕ} {c e : MapperContext} (kind : Kind) (place : Place)
      → Calls n (push_level_with kind place c) e
      → Calls (suc n) c e
  pop : {n : ℕ} {c c' e : MapperContext} → pop_level c ≡ some c' → Calls n c' e → Calls n c e
  set :
      {n : ℕ} {c c' e : MapperContext} (change : Place → Option Place)
      → set_place change c ≡ some c'
      → Calls n c' e
      → Calls (suc n) c e

-- There are `n` ids left before the number wraps around.
abbrev HasRoom : ℕ → MapperContext → Type 0
HasRoom n c = HasFreshIds c × (c.next_id + n < 2 ^ 32)

push_level-HasRoom :
    (kind : Kind) (place : Place) (n : ℕ) (c : MapperContext)
    → HasRoom (suc n) c
    → HasRoom n (push_level_with kind place c)
unfolding push_level_with next_after
push_level-HasRoom kind place n c (f, room) = (
  pushed-Growing kind place c.next_id c.live c.spare (omega (arith, room)) f,
  pushed_id c.next_id c.live c.spare room,
)
  where
    pushed_id :
        (next_id : ℕ) (live spare : List Item)
        → next_id + suc n < 2 ^ 32
        → (push_level_with kind place
              (record { next_id = next_id; live = live; spare = spare })).next_id
            + n
          < 2 ^ 32
    pushed_id next_id live [] room = omega (arith, room)
    pushed_id next_id live (item ∷ spare) room = omega (arith, room)

pop_level-HasRoom :
    (n : ℕ) (c c' : MapperContext) → HasRoom n c → pop_level c ≡ some c' → HasRoom n c'
unfolding pop_level
pop_level-HasRoom n c c' (f, room) e =
    (popped-Growing c.next_id c.live c.spare c' f e, ground (arith, e, room))

set_id :
    (change : Place → Option Place) (next_id : ℕ) (live spare : List Item) (c' : MapperContext)
    → set_place change (record { next_id = next_id; live = live; spare = spare }) ≡ some c'
    → (next_id + 1) % 2 ^ 32 ≡ c'.next_id
unfolding set_place next_after
set_id change next_id [] spare c' e = cc e
set_id change next_id (item ∷ live) spare c' e = elim (Option-cases (change item.place)) [
  | inl fault ↦ cc (fault, e)
  | inr (place, found) ↦
      ap (λ (c : MapperContext). c.next_id) (some-injective _ _ (rw (found, set_place) at e))
]

set_place-HasRoom :
    (change : Place → Option Place) (n : ℕ) (c c' : MapperContext)
    → HasRoom (suc n) c
    → set_place change c ≡ some c'
    → HasRoom n c'
unfolding set_place next_after
set_place-HasRoom change n c c' (f, room) e = (
  set-Growing change c.next_id c.live c.spare c' (omega (arith, room)) f e,
  omega (arith, room, set_id change c.next_id c.live c.spare c' e),
)

calls-HasFreshIds : (n : ℕ) (c e : MapperContext) → HasRoom n c → Calls n c e → HasFreshIds e
calls-HasFreshIds _ c _ f done = f.0
calls-HasFreshIds (suc n) c e f (push kind place more) =
    calls-HasFreshIds n _ e (push_level-HasRoom kind place n c f) more
calls-HasFreshIds n c e f (pop {c' = c'} moved more) =
    calls-HasFreshIds n c' e (pop_level-HasRoom n c c' f moved) more
calls-HasFreshIds (suc n) c e f (set {c' = c'} change moved more) =
    calls-HasFreshIds n c' e (set_place-HasRoom change n c c' f moved) more

-- After `clear` of any context and calls that take fewer than 2 ^ 32 - 1 ids, so that `nextId` does not
-- wrap around, the ids of the levels are positive and grow from the outermost level to the innermost: no
-- two levels of the path have the same id.
pub Calls-HasFreshIds :
    (n : ℕ) (c e : MapperContext) → n + 1 < 2 ^ 32 → Calls n (clear c) e → HasFreshIds e
unfolding clear
Calls-HasFreshIds n c e room calls =
    calls-HasFreshIds n (clear c) e (clear-HasFreshIds c, omega (arith, room)) calls

rewind-++ : (live spare : List Item) → rewind live spare ≡ rewind live [] ++ spare
unfolding rewind
rewind-++ [] spare = refl
rewind-++ (item ∷ live) spare =
    rewind-++ live (item ∷ spare)
    ∙ sym (append_assoc (rewind live []) (item ∷ []) spare)
    ∙ ap (λ (r : List Item). r ++ spare) (sym (rewind-++ live (item ∷ [])))

-- What `push_level` adds at the end of the path, with storage to reuse and without.
abbrev pub new_item : Kind → Place → MapperContext → Item
new_item kind place c = record {
  kind = kind;
  id = elim c.spare [ [] ↦ (c.next_id + 1) % 2 ^ 32 | _ ∷ _ ↦ c.next_id ];
  place = place;
}

fill_context-pushed :
    (kind : Kind) (place : Place) (next_id : ℕ) (live spare : List Item)
    → let c : MapperContext = record { next_id = next_id; live = live; spare = spare } in
      fill_context (push_level_with kind place c) ≡ fill_context c ++ (new_item kind place c ∷ [])
unfolding fill_context push_level_with next_after rewind
fill_context-pushed kind place next_id live [] = rewind-++ live _
fill_context-pushed kind place next_id live (item ∷ spare) = rewind-++ live _

pop-pushed :
    (kind : Kind) (place : Place) (next_id : ℕ) (live spare : List Item)
    → let c : MapperContext = record { next_id = next_id; live = live; spare = spare } in
      (pop_level (push_level_with kind place c) >>= λ c'. some (fill_context c'))
      ≡ some (fill_context c)
unfolding fill_context push_level_with next_after pop_level
pop-pushed kind place next_id live [] = refl
pop-pushed kind place next_id live (item ∷ spare) = refl

-- The path that a callback sees is that of a stack: a push adds one level at the end, whether or
-- not its storage is new, and a pop right after it gives the path before. The id of the new level is
-- that of an `unsigned int`.
pub fill_context-push_level :
    (kind : Kind) (place : Place) (c : MapperContext)
    → (fill_context (push_level_with kind place c) ≡ fill_context c ++ (new_item kind place c ∷ []))
      × ((pop_level (push_level_with kind place c) >>= λ c'. some (fill_context c'))
          ≡ some (fill_context c))
fill_context-push_level kind place c = (
  fill_context-pushed kind place c.next_id c.live c.spare,
  pop-pushed kind place c.next_id c.live c.spare,
)
