-- ===== src/Heap/Chain.antt =====
-- How the linked headers stand for a list of blocks, and which writes leave a chain alone.
use os_from_scratch.Common.{ℕ, ◌≤◌, ◌≡◌, ◌≢◌, refl, ◌∙◌, arith, List, [], ◌∷◌}
use os_from_scratch.Heap.{HeapBlock}
use os_from_scratch.Heap.Blocks.{Block, end_of, Layout}

-- From the pointer `p` the headers lead through the blocks `xs` to NULL.
abbrev pub Chain : (ℕ → HeapBlock) → ℕ → List Block → Type 0
Chain blocks p [] = p ≡ 0
Chain blocks p (x ∷ xs) =
    (p ≡ x.addr)
    × (x.addr ≢ 0)
    × ((blocks x.addr).size ≡ x.size)
    × ((blocks x.addr).is_free ≡ x.free)
    × Chain blocks (blocks x.addr).next xs

-- Two headers that differ at most in `prev`, which no operation reads.
pub record Same (b c : HeapBlock) : Type 0 where
  pub size : b.size ≡ c.size
  pub is_free : b.is_free ≡ c.is_free
  pub next : b.next ≡ c.next

pub Same-refl : (b : HeapBlock) → Same b b
Same-refl b = record { size = refl; is_free = refl; next = refl }

-- A chain in a layout that begins at `lo` does not see what changes below `lo`.
pub Chain-frame :
    (blocks blocks' : ℕ → HeapBlock) (lo limit p : ℕ) (xs : List Block)
    → ((a : ℕ) → lo ≤ a → Same (blocks' a) (blocks a))
    → Layout lo limit xs
    → Chain blocks p xs
    → Chain blocks' p xs
Chain-frame blocks blocks' lo limit p [] same l c = c
Chain-frame blocks blocks' lo limit p (x ∷ xs) same l c =
    let here = same x.addr l.0 in
    (
      c.0,
      c.1,
      here.size ∙ c.2,
      here.is_free ∙ c.3,
      rw here.next (
          Chain-frame blocks blocks' (end_of x) limit (blocks x.addr).next xs
            (λ a h. same a (omega arith)) l.3 c.4),
    )
