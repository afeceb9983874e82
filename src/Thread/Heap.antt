-- ===== src/Thread/Heap.antt =====
-- src/oabi/minilib.c: the blocks of `malloc`.
use sn.Base.{
  ◌≡◌, refl, inl, inr, ◌⊎◌, ℕ, ◌+◌, ◌%◌, ◌^◌, ◌≤◌, Option, none, some, List, [], ◌∷◌, ltb,
  Bool-cases, arith,
}
use sn.Thread.{heap_size, aligned_size, malloc}

-- A block: its offset and the size that was asked for.
abbrev pub Block : Type 0
Block = ℕ × ℕ

abbrev add_block : ℕ → Option ℕ → List Block → List Block
add_block size none blocks = blocks
add_block size (some at) blocks = (at, size) ∷ blocks

-- The blocks that a sequence of calls gives, and `_heap_used` after it.
unfoldable pub mallocs : List ℕ → ℕ → List Block × ℕ
mallocs [] used = ([], used)
mallocs (size ∷ sizes) used =
    let (block, used₁) = malloc size used in
    let (blocks, used₂) = mallocs sizes used₁ in (add_block size block blocks, used₂)

-- Every size is at most half of the address space.
abbrev pub AllSmall : List ℕ → Type 0
AllSmall [] = Unit
AllSmall (size ∷ sizes) = (size ≤ 2 ^ 31) × AllSmall sizes

-- The blocks stand one behind the other from `low` on, aligned, and end in the heap.
abbrev pub InOrder : ℕ → List Block → Type 0
InOrder low [] = Unit
InOrder low ((at, size) ∷ blocks) =
    (low ≤ at) × (at % 8 ≡ 0) × (at + size ≤ heap_size) × InOrder (at + size) blocks

InOrder-le :
    (low high : ℕ) (blocks : List Block) → low ≤ high → InOrder high blocks → InOrder low blocks
InOrder-le low high [] h k = tt
InOrder-le low high ((at, size) ∷ blocks) h (a, b, c, d) = (omega arith, b, c, d)

-- A call that gives a block.
malloc_gives :
    (size used : ℕ)
    → size ≤ 2 ^ 31
    → used ≤ heap_size
    → used % 8 ≡ 0
    → ((malloc size used ≡ (none, used)))
      ⊎ ((malloc size used ≡ (some used, used + aligned_size size))
          × (used + size ≤ used + aligned_size size)
          × (used + aligned_size size ≤ heap_size)
          × ((used + aligned_size size) % 8 ≡ 0))
unfolding malloc
malloc_gives size used h k a =
    let wrap : (used + aligned_size size) % 2 ^ 32 ≡ used + aligned_size size = omega arith in
    rw wrap (elim (Bool-cases (ltb heap_size (used + aligned_size size))) [
      | inl e ↦ inl (rw e refl)
      | inr e ↦ inr (rw e refl, omega arith, ground arith, omega arith)
    ])

mallocs-InOrder_from :
    (sizes : List ℕ) (used : ℕ)
    → AllSmall sizes
    → used ≤ heap_size
    → used % 8 ≡ 0
    → InOrder used (mallocs sizes used).0
unfolding mallocs
mallocs-InOrder_from [] used small h a = tt
mallocs-InOrder_from (size ∷ sizes) used (s, small) h a = elim (malloc_gives size used s h a) [
  | inl e ↦ rw e (mallocs-InOrder_from sizes used small h a)
  | inr (e, more, fits, a') ↦ rw e (
    omega arith,
    a,
    omega arith,
    InOrder-le (used + size) (used + aligned_size size) _ more
        (mallocs-InOrder_from sizes (used + aligned_size size) small fits a'),
  )
]

-- From an empty heap, whatever the sizes of the calls, up to 2³¹ each, every block that `malloc`
-- gives starts at a multiple of 8, ends within the heap, and starts behind the end of every block
-- before it.
pub mallocs-InOrder : (sizes : List ℕ) → AllSmall sizes → InOrder 0 (mallocs sizes 0).0
mallocs-InOrder sizes small = mallocs-InOrder_from sizes 0 small (omega arith) refl
