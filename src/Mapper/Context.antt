-- ===== src/Mapper/Context.antt =====
-- class MapperContext of src/mapper_context.h and mapper_context.cpp: the path from the encoded
-- value to the place that the encoder is at.
pub mod Levels
use google_protobuf_dynamic.Common.{
  ℕ, zero, suc, ◌+◌, ◌-◌, ◌%◌, ◌^◌, Option, none, some, List, [], ◌∷◌, length,
}

pub data Kind : Type 0 where
  array hash message : Kind

-- The argument of `set_hash_key`: a scalar, or characters.
pub data Key : Type 0 where
  svkey : ℕ → Key
  keybuf : (buffer len : ℕ) → Key

-- The union of an item. An index is `none` until `set_array_index`; a NULL pointer is `none`, and
-- `keybuf` comes with its length.
pub data Place : Type 0 where
  unset : Place
  array_item : (array : ℕ) (index : Option ℕ) → Place
  hash_item : (hash : Option ℕ) (svkey : Option ℕ) (keybuf : Option (ℕ × ℕ)) → Place

pub record Item : Type 0 where
  pub kind : Kind
  pub id : ℕ
  pub place : Place

-- `level_storage` is a list and `next_level` a place in it: `live` are the items before
-- it, the nearest first, and `spare` those from it on. `next_level == end()` is an empty `spare`.
pub record MapperContext : Type 0 where
  pub next_id : ℕ
  pub live : List Item
  pub spare : List Item

-- The items in front of `spare` again: `next_level` is moved to the beginning.
unfoldable pub rewind : (live spare : List Item) → List Item
rewind [] spare = spare
rewind (item ∷ live) spare = rewind live (item ∷ spare)

unfoldable pub clear : MapperContext → MapperContext
clear c = record { next_id = 1; live = []; spare = rewind c.live c.spare }

-- An `unsigned int` after `++`.
unfoldable pub next_after : ℕ → ℕ
next_after id = (id + 1) % 2 ^ 32

-- The private `push_level`: the id of a reused item is `nextId++`, that of a new one the number
-- after the increment.
unfoldable pub push_level_with : Kind → Place → MapperContext → MapperContext
unfolding next_after
push_level_with kind place c = elim c.spare [
  | [] ↦ record c {
    next_id = next_after c.next_id;
    live = (record { kind = kind; id = next_after c.next_id; place = place }) ∷ c.live;
  }
  | _ ∷ spare ↦ record {
    next_id = next_after c.next_id;
    live = (record { kind = kind; id = c.next_id; place = place }) ∷ c.live;
    spare = spare;
  }
]

-- `push_level(AV *)`
unfoldable pub push_array_level : ℕ → MapperContext → MapperContext
push_array_level av c = push_level_with Kind.array (array_item av none) c

-- `push_hash_level`, for `push_level(HV *, Kind)` and, with NULL, for `push_level(SV *, Kind)`.
unfoldable pub push_hash_level : Option ℕ → Kind → MapperContext → MapperContext
push_hash_level hv kind c = push_level_with kind (hash_item hv none none) c

-- `next_level--`; at the first item this is undefined.
unfoldable pub pop_level : MapperContext → Option MapperContext
pop_level c = elim c.live [
  | [] ↦ none
  | item ∷ live ↦ some (record c { live = live; spare = item ∷ c.spare })
]

-- The parts of the union that the setters write, each for the kind of level it is meant for. A key
-- of one kind leaves that of the other kind as it was.
with_key : Key → Place → Option Place
with_key (svkey key) (hash_item hv _ characters) = some (hash_item hv (some key) characters)
with_key (keybuf buffer len) (hash_item hv scalar _) =
    some (hash_item hv scalar (some (buffer, len)))
with_key key _ = none

with_index : ℕ → Place → Option Place
with_index index (array_item av _) = some (array_item av (some index))
with_index index _ = none

move_to : Place → Item → List Item → MapperContext → MapperContext
unfolding next_after
move_to place item live c = record c {
  next_id = next_after c.next_id;
  live = (record item { id = c.next_id; place = place }) ∷ live;
}

-- A write through the reference that `push_level` gave for the innermost level; the setters take
-- `id = (*nextId)++`.
unfoldable pub set_place : (Place → Option Place) → MapperContext → Option MapperContext
unfolding move_to
set_place change c = elim c.live [
  | [] ↦ none
  | item ∷ live ↦ elim (change item.place) [
    | none ↦ none
    | some place ↦ some (move_to place item live c)
  ]
]

unfoldable pub set_hash_key : Key → MapperContext → Option MapperContext
unfolding with_key
set_hash_key key c = set_place (with_key key) c

unfoldable pub set_array_index : ℕ → MapperContext → Option MapperContext
unfolding with_index
set_array_index index c = set_place (with_index index) c

-- The vector `levels` after `fill_context`, from the outermost level on.
unfoldable pub fill_context : MapperContext → List Item
unfolding rewind
fill_context c = rewind c.live []
