-- ===== src/Unique.antt =====
-- includes/kernel/cpp/unique_ptr.hpp and the swap of types.hpp: pointers that own what they
-- point to.
pub mod Owners
mod Examples
use os_from_scratch.Common.{ℕ, List, ◌∷◌, ◌==◌, if◌then◌else◌}
use os_from_scratch.Common.Word.{store}

-- The member ptr_ of each pointer, by the number of the pointer; 0 is a null pointer, and stands for
-- a pointer that is not there too. `deleted` lists the objects that delete_object destroyed and gave
-- to kfree, the latest first.
pub record Pointers : Type 0 where
  pub ptr : ℕ → ℕ
  pub deleted : List ℕ

unfoldable pub delete_object : ℕ → Pointers → Pointers
delete_object p s = record s { deleted = p ∷ s.deleted }

-- `if (ptr_) delete_object(ptr_)`.
unfoldable pub delete_held : ℕ → Pointers → Pointers
unfolding delete_object
delete_held i s = if s.ptr i == 0 then s else delete_object (s.ptr i) s

unfoldable pub construct : ℕ → ℕ → Pointers → Pointers
unfolding store
construct i p s = record s { ptr = store s.ptr i p }

unfoldable pub destroy : ℕ → Pointers → Pointers
unfolding delete_held store
destroy i s = let s1 = delete_held i s in record s1 { ptr = store s1.ptr i 0 }

unfoldable pub move_construct : ℕ → ℕ → Pointers → Pointers
unfolding store
move_construct i other s = record s { ptr = store (store s.ptr i (s.ptr other)) other 0 }

unfoldable pub move_assign : ℕ → ℕ → Pointers → Pointers
unfolding delete_held store
move_assign i other s =
    let s1 = delete_held i s in
    if i == other then s else record s1 { ptr = store (store s1.ptr i (s1.ptr other)) other 0 }

unfoldable pub release : ℕ → Pointers → ℕ × Pointers
unfolding store
release i s = (s.ptr i, record s { ptr = store s.ptr i 0 })

unfoldable pub reset : ℕ → ℕ → Pointers → Pointers
unfolding delete_held store
reset i p s = let s1 = delete_held i s in record s1 { ptr = store s1.ptr i p }

-- kernel::swap of two pointers, with its local `temp`.
unfoldable pub swap : ℕ → ℕ → ℕ → Pointers → Pointers
unfolding move_construct move_assign destroy
swap temp a b s = destroy temp (move_assign b temp (move_assign a b (move_construct temp a s)))
