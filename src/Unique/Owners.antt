-- ===== src/Unique/Owners.antt =====
-- No object is deleted twice, and none is deleted that a pointer owns.
use os_from_scratch.Common.{
  ℕ, suc, ◌≤◌, ◌≡◌, ◌≢◌, inl, inr, arith, List, [], ◌∷◌, ◌==◌, Bool-cases, if◌then◌else◌,
}
use os_from_scratch.Common.Word.{store}
use os_from_scratch.Unique.{
  Pointers, delete_object, delete_held, construct, destroy, move_construct, move_assign, release,
  reset, swap,
}

-- How often an object was deleted.
unfoldable pub times : ℕ → List ℕ → ℕ
times a [] = 0
times a (b ∷ bs) = let rest = times a bs in if a == b then suc rest else rest

-- Each object has one owner at most, an owned object is not deleted, and no object is deleted twice.
pub record Owned (s : Pointers) : Type 0 where
  pub unique : (i j : ℕ) → i ≢ j → s.ptr i ≡ s.ptr j → s.ptr i ≡ 0
  pub unfreed : (i : ℕ) → s.ptr i ≢ 0 → times (s.ptr i) s.deleted ≡ 0
  pub once : (a : ℕ) → times a s.deleted ≤ 1

-- An object that is new to the pointers: no pointer owns it, and it was not deleted. A null pointer,
-- as from a kmalloc that fails, is one too.
pub record Fresh (p : ℕ) (s : Pointers) : Type 0 where
  pub unowned : (i : ℕ) → s.ptr i ≡ p → p ≡ 0
  pub undeleted : p ≢ 0 → times p s.deleted ≡ 0

-- The operations of a program on its pointers.
pub data Step (s : Pointers) : Pointers → Type 0 where
  constructs : (i p : ℕ) → s.ptr i ≡ 0 → Fresh p s → Step s (construct i p s)
  destroys : (i : ℕ) → Step s (destroy i s)
  moves : (i other : ℕ) → i ≢ other → s.ptr i ≡ 0 → Step s (move_construct i other s)
  assigns : (i other : ℕ) → Step s (move_assign i other s)
  releases : (i : ℕ) → Step s (release i s).1
  resets : (i p : ℕ) → Fresh p s → Step s (reset i p s)

pub data Run (s : Pointers) : Pointers → Type 0 where
  here : Run s s
  next : {t u : Pointers} → Run s t → Step t u → Run s u

construct-Owned : (i p : ℕ) (s : Pointers) → Fresh p s → Owned s → Owned (construct i p s)
unfolding construct store
construct-Owned i p s f h = record {
  unique = λ j k ne e. grind (arith, h.unique j k, f.unowned j, f.unowned k, ne, e);
  unfreed = λ j ne. grind (arith, h.unfreed j, f.undeleted, ne);
  once = h.once;
}

move_construct-Owned :
    (i other : ℕ) (s : Pointers) → i ≢ other → Owned s → Owned (move_construct i other s)
unfolding move_construct store
move_construct-Owned i other s apart h = record {
  unique = λ j k ne e. grind (arith, h.unique j k, h.unique other k, h.unique other j, ne, e);
  unfreed = λ j ne. grind (arith, h.unfreed j, h.unfreed other, ne);
  once = h.once;
}

destroy-Owned : (i : ℕ) (s : Pointers) → Owned s → Owned (destroy i s)
unfolding destroy delete_held delete_object store times
destroy-Owned i s h = elim (Bool-cases (s.ptr i == 0)) [
  | inl nothing ↦ rw nothing (record {
    unique = λ j k ne e. grind (arith, h.unique j k, ne, e);
    unfreed = λ j ne. grind (arith, h.unfreed j, ne);
    once = h.once;
  })
  | inr held ↦ rw held (record {
    unique = λ j k ne e. grind (arith, h.unique j k, ne, e);
    unfreed = λ j ne. grind (arith, h.unfreed j, h.unique j i, ne);
    once = λ a. grind (arith, h.once a, h.unfreed i, held);
  })
]

reset-Owned : (i p : ℕ) (s : Pointers) → Fresh p s → Owned s → Owned (reset i p s)
unfolding reset delete_held delete_object store times
reset-Owned i p s f h = elim (Bool-cases (s.ptr i == 0)) [
  | inl nothing ↦ rw nothing (record {
    unique = λ j k ne e. grind (arith, h.unique j k, f.unowned j, f.unowned k, ne, e);
    unfreed = λ j ne. grind (arith, h.unfreed j, f.undeleted, ne);
    once = h.once;
  })
  | inr held ↦ rw held (record {
    unique = λ j k ne e. grind (arith, h.unique j k, f.unowned j, f.unowned k, ne, e);
    unfreed = λ j ne. grind (arith, h.unfreed j, h.unique j i, f.undeleted, f.unowned i, ne);
    once = λ a. grind (arith, h.once a, h.unfreed i, held);
  })
]

move_assign-Owned : (i other : ℕ) (s : Pointers) → Owned s → Owned (move_assign i other s)
unfolding move_assign delete_held delete_object store times
move_assign-Owned i other s h = elim (Bool-cases (i == other)) [
  | inl itself ↦ rw itself h
  | inr apart ↦ rw apart (elim (Bool-cases (s.ptr i == 0)) [
    | inl nothing ↦ rw nothing (record {
      unique = λ j k ne e. grind (arith, h.unique j k, h.unique other k, h.unique other j, ne, e);
      unfreed = λ j ne. grind (arith, h.unfreed j, h.unfreed other, ne);
      once = h.once;
    })
    | inr held ↦ rw held (record {
      unique = λ j k ne e. grind (arith, h.unique j k, h.unique other k, h.unique other j, ne, e);
      unfreed = λ j ne.
          grind (arith, h.unfreed j, h.unfreed other, h.unique j i, h.unique other i, apart, ne);
      once = λ a. grind (arith, h.once a, h.unfreed i, held);
    })
  ])
]

release-Owned : (i : ℕ) (s : Pointers) → Owned s → Owned (release i s).1
unfolding release store
release-Owned i s h = record {
  unique = λ j k ne e. grind (arith, h.unique j k, ne, e);
  unfreed = λ j ne. grind (arith, h.unfreed j, ne);
  once = h.once;
}

Step-Owned : {s t : Pointers} → Step s t → Owned s → Owned t
Step-Owned {s} (constructs i p free fresh) h = construct-Owned i p s fresh h
Step-Owned {s} (destroys i) h = destroy-Owned i s h
Step-Owned {s} (moves i other apart free) h = move_construct-Owned i other s apart h
Step-Owned {s} (assigns i other) h = move_assign-Owned i other s h
Step-Owned {s} (releases i) h = release-Owned i s h
Step-Owned {s} (resets i p fresh) h = reset-Owned i p s fresh h

-- In every run of a program that starts without owned objects and gives the pointers new objects
-- alone, each object has one owner at most, an owned object was not deleted, and no object is
-- deleted twice.
pub Run-Owned : (s t : Pointers) → ((i : ℕ) → s.ptr i ≡ 0) → s.deleted ≡ [] → Run s t → Owned t
unfolding times
Run-Owned s t none_held none_deleted here = record {
  unique = λ i j ne e. none_held i;
  unfreed = λ i held. absurd (held (none_held i));
  once = λ a. rw none_deleted (omega arith);
}
Run-Owned s u none_held none_deleted (next {t} run step) =
    Step-Owned step (Run-Owned s t none_held none_deleted run)

-- A swap of two pointers through an empty local exchanges what they own, and deletes nothing.
pub swap_lem :
    (temp a b : ℕ) (s : Pointers)
    → temp ≢ a
    → temp ≢ b
    → a ≢ b
    → s.ptr temp ≡ 0
    → ((swap temp a b s).ptr a ≡ s.ptr b)
      × ((swap temp a b s).ptr b ≡ s.ptr a)
      × ((j : ℕ) → j ≢ a → j ≢ b → (swap temp a b s).ptr j ≡ s.ptr j)
      × ((swap temp a b s).deleted ≡ s.deleted)
unfolding swap move_construct move_assign destroy delete_held store
swap_lem temp a b s n1 n2 n3 empty =
    (ground arith, ground arith, λ j m1 m2. ground arith, ground arith)
