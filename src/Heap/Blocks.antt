-- ===== src/Heap/Blocks.antt =====
-- The heap as a list of blocks in address order: the specification that the linked headers of
-- kernel/mem/heap.cpp implement.
use os_from_scratch.Common.{
  ℕ, ◌+◌, ◌-◌, ◌%◌, ◌≤◌, ◌≡◌, refl, sym, ◌∙◌, arith, Bool, true, false, ◌&&◌, ◌||◌, List, [], ◌∷◌,
  ◌++◌, Option, none, some, leb, ◌==◌, if◌then◌else◌, leb→le, Bool-cases, inl, inr,
}
use os_from_scratch.Heap.{header_size}

pub record Block : Type 0 where
  pub addr : ℕ
  pub size : ℕ
  pub free : Bool

-- Where the payload of a block ends.
abbrev pub end_of : Block → ℕ
end_of x = x.addr + header_size + x.size

-- Headers and sizes are multiples of 4, and each block ends before the next one begins.
abbrev pub Layout : ℕ → ℕ → List Block → Type 0
Layout lo limit [] = lo ≤ limit
Layout lo limit (x ∷ xs) =
    (lo ≤ x.addr) × (x.addr % 4 ≡ 0) × (x.size % 4 ≡ 0) × Layout (end_of x) limit xs

-- A block of `size` bytes in place of the free block `x`.
abbrev pub split : ℕ → Block → List Block
split size x =
    if leb (header_size + 4) (x.size - size)
    then record { addr = x.addr; size = size; free = false }
      ∷ record {
        addr = x.addr + header_size + size;
        size = x.size - size - header_size;
        free = true;
      }
      ∷ []
    else record x { free = false } ∷ []

-- A block in front of the outcome for the rest.
abbrev pub put_front : Block → Option (ℕ × List Block) → Option (ℕ × List Block)
put_front x none = none
put_front x (some (a, ys)) = some (a, x ∷ ys)

-- The first free block that is large enough, and the list in which it is taken.
unfoldable pub first_fit : ℕ → List Block → Option (ℕ × List Block)
first_fit size [] = none
first_fit size (x ∷ xs) =
    let rest = put_front x (first_fit size xs) in
    if x.free && leb size x.size then some (x.addr, split size x ++ xs) else rest

-- `x` takes in the free blocks that follow it, and so does each block after them.
unfoldable pub merge_from : Block → List Block → List Block
merge_from x [] = x ∷ []
merge_from x (y ∷ ys) =
    let merged =
      merge_from (record { addr = x.addr; size = x.size + header_size + y.size; free = true }) ys in
    let moved = x ∷ merge_from y ys in if x.free && y.free then merged else moved

abbrev pub coalesce : List Block → List Block
coalesce [] = []
coalesce (x ∷ xs) = merge_from x xs

-- The block at `a` is marked free.
abbrev pub release : ℕ → List Block → List Block
release a [] = []
release a (x ∷ xs) = record x { free = x.addr == a || x.free } ∷ release a xs

-- The blocks that are in use.
abbrev pub live : List Block → List Block
live [] = []
live (x ∷ xs) = if x.free then live xs else x ∷ live xs

abbrev pub starts_free : List Block → Bool
starts_free [] = false
starts_free (x ∷ xs) = x.free

-- No free block follows a free block.
abbrev pub IsCoalesced : List Block → Type 0
IsCoalesced [] = Unit {0}
IsCoalesced (x ∷ xs) = ((x.free && starts_free xs) ≡ false) × IsCoalesced xs

pub Layout-weaken :
    (lo lo' limit limit' : ℕ) (xs : List Block)
    → lo' ≤ lo
    → limit ≤ limit'
    → Layout lo limit xs
    → Layout lo' limit' xs
Layout-weaken lo lo' limit limit' [] p q l = omega arith
Layout-weaken lo lo' limit limit' (x ∷ xs) p q l =
    (omega arith, l.1, l.2, Layout-weaken (end_of x) (end_of x) limit limit' xs (omega arith) q l.3)

pub Layout-le : (lo limit : ℕ) (xs : List Block) → Layout lo limit xs → lo ≤ limit
Layout-le lo limit [] l = l
Layout-le lo limit (x ∷ xs) l = omega (arith, Layout-le (end_of x) limit xs l.3)

pub split-Layout :
    (lo limit size : ℕ) (x : Block) (xs : List Block)
    → size % 4 ≡ 0
    → size ≤ x.size
    → Layout lo limit (x ∷ xs)
    → Layout lo limit (split size x ++ xs)
split-Layout lo limit size x xs m fits l =
    elim (Bool-cases (leb (header_size + 4) (x.size - size))) [
      | inl room ↦ rw room (
        l.0,
        l.1,
        m,
        (
          omega arith,
          omega (arith, l.1),
          omega (arith, leb→le _ _ room, l.2),
          Layout-weaken (end_of x) _ limit limit xs (omega (arith, leb→le _ _ room)) (omega arith)
              l.3,
        ),
      )
      | inr tight ↦ rw tight l
    ]

-- How a block was found: here, or further on.
pub data Finds (size : ℕ) : List Block → ℕ → List Block → Type 0 where
  here :
      {x : Block} {xs : List Block}
      → x.free ≡ true
      → size ≤ x.size
      → Finds size (x ∷ xs) x.addr (split size x ++ xs)
  later :
      {x : Block} {xs ys : List Block} {a : ℕ}
      → (x.free && leb size x.size) ≡ false
      → Finds size xs a ys
      → Finds size (x ∷ xs) a (x ∷ ys)

-- No block is free and large enough.
abbrev pub NoneFits : ℕ → List Block → Type 0
NoneFits size [] = Unit {0}
NoneFits size (x ∷ xs) = ((x.free && leb size x.size) ≡ false) × NoneFits size xs

abbrev pub Searched : ℕ → List Block → Option (ℕ × List Block) → Type 0
Searched size xs none = NoneFits size xs
Searched size xs (some (a, ys)) = Finds size xs a ys

put_front-Searched :
    (size : ℕ) (x : Block) (xs : List Block) (o : Option (ℕ × List Block))
    → (x.free && leb size x.size) ≡ false
    → Searched size xs o
    → Searched size (x ∷ xs) (put_front x o)
put_front-Searched size x xs none miss s = (miss, s)
put_front-Searched size x xs (some (a, ys)) miss s = later miss s

and_left : (a b : Bool) → (a && b) ≡ true → a ≡ true
and_left a b h = ground arith

and_right : (a b : Bool) → (a && b) ≡ true → b ≡ true
and_right a b h = ground arith

pub first_fit-Searched : (size : ℕ) (xs : List Block) → Searched size xs (first_fit size xs)
unfolding first_fit
first_fit-Searched size [] = tt
first_fit-Searched size (x ∷ xs) = elim (Bool-cases (x.free && leb size x.size)) [
  | inl hit ↦ rw hit (here (and_left _ _ hit) (leb→le _ _ (and_right x.free _ hit)))
  | inr miss ↦ rw miss (put_front-Searched size x xs _ miss (first_fit-Searched size xs))
]

-- Allocation keeps the layout.
pub Finds-Layout :
    (size : ℕ) (lo limit : ℕ) {xs : List Block} {a : ℕ} {ys : List Block}
    → size % 4 ≡ 0
    → Finds size xs a ys
    → Layout lo limit xs
    → Layout lo limit ys
Finds-Layout size lo limit m (here {x} {xs} f fits) l = split-Layout lo limit size x xs m fits l
Finds-Layout size lo limit m (later {x} miss found) l =
    (l.0, l.1, l.2, Finds-Layout size (end_of x) limit m found l.3)

-- The merged block ends where the last block that it took in ends, or before.
pub merge_from-Layout :
    (lo limit : ℕ) (x : Block) (xs : List Block)
    → Layout lo limit (x ∷ xs)
    → Layout lo limit (merge_from x xs)
unfolding merge_from
merge_from-Layout lo limit x [] l = l
merge_from-Layout lo limit x (y ∷ ys) l = elim (Bool-cases (x.free && y.free)) [
  | inl both ↦ rw both (
      merge_from-Layout lo limit
        (record { addr = x.addr; size = x.size + header_size + y.size; free = true }) ys
        (
          l.0,
          l.1,
          omega arith,
          Layout-weaken (end_of y) _ limit limit ys (omega arith) (omega arith) l.3.3,
        ))
  | inr other ↦ rw other (l.0, l.1, l.2, merge_from-Layout (end_of x) limit y ys l.3)
]

-- Merging keeps every block that is in use as it is.
pub merge_from-live : (x : Block) (xs : List Block) → live (merge_from x xs) ≡ live (x ∷ xs)
unfolding merge_from
merge_from-live x [] = refl
merge_from-live x (y ∷ ys) = elim (Bool-cases (x.free && y.free)) [
  | inl both ↦
      (let fx : x.free ≡ true = and_left _ _ both in
        let fy : y.free ≡ true = and_right x.free _ both in
        rw (both, fx, fy)
          (merge_from-live
            (record { addr = x.addr; size = x.size + header_size + y.size; free = true }) ys))
  | inr other ↦ rw (other, merge_from-live y ys)
]

starts_free-merge_from : (x : Block) (xs : List Block) → starts_free (merge_from x xs) ≡ x.free
unfolding merge_from
starts_free-merge_from x [] = refl
starts_free-merge_from x (y ∷ ys) = elim (Bool-cases (x.free && y.free)) [
  | inl both ↦ rw both (
      starts_free-merge_from
        (record { addr = x.addr; size = x.size + header_size + y.size; free = true }) ys
      ∙ sym (and_left x.free y.free both))
  | inr other ↦ rw other refl
]

pub merge_from-IsCoalesced : (x : Block) (xs : List Block) → IsCoalesced (merge_from x xs)
unfolding merge_from
merge_from-IsCoalesced x [] = (ground arith, tt)
merge_from-IsCoalesced x (y ∷ ys) = elim (Bool-cases (x.free && y.free)) [
  | inl both ↦ rw both (
      merge_from-IsCoalesced
        (record { addr = x.addr; size = x.size + header_size + y.size; free = true }) ys)
  | inr other ↦ rw (other, starts_free-merge_from y ys) (other, merge_from-IsCoalesced y ys)
]
