-- ===== src/Unique/Examples.antt =====
-- An object is made, moved from one pointer to another, and deleted with that one.
use os_from_scratch.Common.{refl, arith, []}
use os_from_scratch.Common.Word.{store}
use os_from_scratch.Unique.{Pointers, construct, destroy, move_construct}
use os_from_scratch.Unique.Owners.{
  times, Owned, Fresh, Run, here, next, constructs, moves, destroys, Run-Owned,
}

abbrev nobody : Pointers
nobody = record { ptr = λ i. 0; deleted = [] }

nobody-Fresh : Fresh 64 nobody
unfolding times
nobody-Fresh = record { unowned = λ i e. absurd (omega (arith, e)); undeleted = λ ne. refl }

abbrev made : Pointers
made = construct 0 64 nobody

abbrev moved : Pointers
moved = move_construct 1 0 made

nobody-Run : Run nobody (destroy 1 moved)
unfolding construct store
nobody-Run =
    next (next (next here (constructs 0 64 refl nobody-Fresh)) (moves 1 0 (omega arith) refl))
      (destroys 1)

Run-Owned_example : Owned (destroy 1 moved)
Run-Owned_example = Run-Owned nobody (destroy 1 moved) (λ i. refl) refl nobody-Run
