-- ===== src/Keyboard/Reader.antt =====
-- `get_input_buffer` with keyboard interrupts between its accesses: nothing turns interrupts off
-- while it copies.
use os_from_scratch.Common.{
  ℕ, ◌+◌, ◌≤◌, ◌<◌, ◌≡◌, ◌⊎◌, inl, inr, refl, sym, ap, subst, ◌∙◌, arith, Bool, true, false, ◌==◌,
  Bool-cases, ==→eq, ==→ne,
}
use os_from_scratch.Common.Word.{store, store_self, store_ne}
use os_from_scratch.Keyboard.{Keyboard, handle_scancode}

-- Where the reader stands: before the test of `line_ready`, before the round `i` of the loop,
-- before the reset of `buffer_pos`, before the reset of `line_ready`, and behind the return.
pub data Pc : Type 0 where
  called : Pc
  copying : ℕ → Pc
  emptying closing : Pc
  returned : Bool → Pc

-- The driver, the reader, and the buffer of the caller.
pub record Reader : Type 0 where
  pub keyboard : Keyboard
  pub pc : Pc
  pub out : ℕ → ℕ

-- One access of `get_input_buffer(out, max_size)`, or a whole interrupt.
pub data Step (max_size : ℕ) (s : Reader) : Reader → Type 0 where
  interrupt :
      (scancode : ℕ) → Step max_size s (record s { keyboard = handle_scancode scancode s.keyboard })
  no_line :
      s.pc ≡ called
      → s.keyboard.line_ready ≡ false
      → Step max_size s (record s { pc = returned false })
  some_line :
      s.pc ≡ called → s.keyboard.line_ready ≡ true → Step max_size s (record s { pc = copying 0 })
  copy :
      (i : ℕ)
      → s.pc ≡ copying i
      → i < s.keyboard.buffer_pos
      → i + 1 < max_size
      → Step max_size s
          (record s { pc = copying (i + 1); out = store s.out i (s.keyboard.key_buffer i) })
  terminate :
      (i : ℕ)
      → s.pc ≡ copying i
      → (s.keyboard.buffer_pos ≤ i) ⊎ (max_size ≤ i + 1)
      → Step max_size s (record s { pc = emptying; out = store s.out i 0 })
  empty_buffer :
      s.pc ≡ emptying
      → Step max_size s
          (record s { pc = closing; keyboard = record (s.keyboard) { buffer_pos = 0 } })
  close_line :
      s.pc ≡ closing
      → Step max_size s
          (record s { pc = returned true; keyboard = record (s.keyboard) { line_ready = false } })

pub data Reach (max_size : ℕ) (s : Reader) : Reader → Type 0 where
  here : Reach max_size s s
  next : {t u : Reader} → Reach max_size s t → Step max_size t u → Reach max_size s u

-- The first `n` characters of a buffer of `max_size` bytes are those of the line, and the terminator
-- follows them, in the buffer.
pub record Prefix (line : ℕ → ℕ) (max_size n : ℕ) (out : ℕ → ℕ) : Type 0 where
  pub same : (j : ℕ) → j < n → out j ≡ line j
  pub ended : out n ≡ 0
  pub fits : n < max_size

-- While the reader is at work the line stays as it was, but for backspaces that shorten it.
record Locked (line : ℕ → ℕ) (count : ℕ) (k : Keyboard) : Type 0 where
  ready : k.line_ready ≡ true
  same_line : k.key_buffer ≡ line
  shorter : k.buffer_pos ≤ count

-- What holds at each place of the reader, for the line `line` of `count` characters.
Holding : (ℕ → ℕ) → ℕ → ℕ → Reader → Pc → Type 0
Holding line count max_size s called = Locked line count s.keyboard
Holding line count max_size s (copying i) =
    Locked line count s.keyboard
    × (i ≤ count)
    × (i < max_size)
    × ((j : ℕ) → j < i → s.out j ≡ line j)
Holding line count max_size s emptying =
    Locked line count s.keyboard × (n : ℕ) × (n ≤ count) × Prefix line max_size n s.out
Holding line count max_size s closing =
    Locked line count s.keyboard × (n : ℕ) × (n ≤ count) × Prefix line max_size n s.out
Holding line count max_size s (returned true) = (n : ℕ) × (n ≤ count) × Prefix line max_size n s.out
Holding line count max_size s (returned false) = ⊥

-- A locked line takes no character.
handle_scancode-Locked :
    (line : ℕ → ℕ) (count scancode : ℕ) (k : Keyboard)
    → Locked line count k
    → Locked line count (handle_scancode scancode k)
unfolding handle_scancode
handle_scancode-Locked line count scancode k h = record {
  ready = ground arith;
  same_line = ground arith;
  shorter = ground arith;
}

interrupt-Holding :
    (line : ℕ → ℕ) (count max_size scancode : ℕ) (s : Reader) (pc : Pc)
    → Holding line count max_size s pc
    → Holding line count max_size (record s { keyboard = handle_scancode scancode s.keyboard }) pc
unfolding Holding
interrupt-Holding line count max_size scancode s called h =
    handle_scancode-Locked line count scancode s.keyboard h
interrupt-Holding line count max_size scancode s (copying i) (locked, le, lt, same) =
    (handle_scancode-Locked line count scancode s.keyboard locked, le, lt, same)
interrupt-Holding line count max_size scancode s emptying (locked, n, le, p) =
    (handle_scancode-Locked line count scancode s.keyboard locked, n, le, p)
interrupt-Holding line count max_size scancode s closing (locked, n, le, p) =
    (handle_scancode-Locked line count scancode s.keyboard locked, n, le, p)
interrupt-Holding line count max_size scancode s (returned true) h = h
interrupt-Holding line count max_size scancode s (returned false) h = h

Step-Holding :
    (line : ℕ → ℕ) (count max_size : ℕ) {s t : Reader}
    → 0 < max_size
    → Step max_size s t
    → Holding line count max_size s s.pc
    → Holding line count max_size t t.pc
unfolding Holding
Step-Holding line count max_size {s} big (interrupt scancode) h =
    interrupt-Holding line count max_size scancode s s.pc h
Step-Holding line count max_size {s} big (no_line e none) h =
    let locked : Locked line count s.keyboard = subst (λ p. Holding line count max_size s p) e h in
    cc
Step-Holding line count max_size {s} big (some_line e there) h =
    let locked : Locked line count s.keyboard = subst (λ p. Holding line count max_size s p) e h in
    (locked, omega arith, big, λ j lt. absurd (omega arith))
Step-Holding line count max_size {s} big (copy i e more room) h =
    let (locked, le, lt, same) = subst (λ p. Holding line count max_size s p) e h in
    (
      locked,
      omega (arith, locked.shorter),
      room,
      λ j lt. elim (Bool-cases (j == i)) [
        | inl at_i ↦ rw (==→eq j i at_i) (
            store_self s.out i (s.keyboard.key_buffer i) ∙ ap (λ (f : ℕ → ℕ). f i) locked.same_line)
        | inr other ↦
            (let ne = ==→ne j i other in
              store_ne s.out i (s.keyboard.key_buffer i) j ne ∙ same j (omega arith))
      ],
    )
Step-Holding line count max_size {s} big (terminate i e over) h =
    let (locked, le, lt, same) = subst (λ p. Holding line count max_size s p) e h in
    (
      locked,
      i,
      le,
      record {
        same = λ j lt. store_ne s.out i 0 j (omega arith) ∙ same j lt;
        ended = store_self s.out i 0;
        fits = lt;
      },
    )
Step-Holding line count max_size {s} big (empty_buffer e) h =
    let (locked, n, le, p) = subst (λ p. Holding line count max_size s p) e h in
    (record { ready = locked.ready; same_line = locked.same_line; shorter = omega arith }, n, le, p)
Step-Holding line count max_size {s} big (close_line e) h =
    let (locked, n, le, p) = subst (λ p. Holding line count max_size s p) e h in (n, le, p)

Reach-Holding :
    (line : ℕ → ℕ) (count max_size : ℕ) {s t : Reader}
    → 0 < max_size
    → Holding line count max_size s s.pc
    → Reach max_size s t
    → Holding line count max_size t t.pc
Reach-Holding line count max_size big h here = h
Reach-Holding line count max_size big h (next r step) =
    Step-Holding line count max_size big step (Reach-Holding line count max_size big h r)

-- What a return with the answer `answer` says.
Answered : (ℕ → ℕ) → ℕ → ℕ → Reader → Bool → Type 0
Answered line count max_size s answer =
    (answer ≡ true) × (n : ℕ) × (n ≤ count) × Prefix line max_size n s.out

Holding-Answered :
    (line : ℕ → ℕ) (count max_size : ℕ) (s : Reader) (answer : Bool)
    → Holding line count max_size s (returned answer)
    → Answered line count max_size s answer
unfolding Holding Answered
Holding-Answered line count max_size s true (n, le, p) = (refl, n, le, p)
Holding-Answered line count max_size s false h = absurd h

-- Whatever keyboard interrupts come between the accesses of a call of `get_input_buffer`, with a
-- buffer of at least one byte, that finds a line: when it returns it answers true, and the buffer
-- holds a prefix of the line as it was when the call began, with its terminator inside the buffer.
pub reader_lem :
    (max_size : ℕ) (s t : Reader) (answer : Bool)
    → 0 < max_size
    → s.pc ≡ called
    → s.keyboard.line_ready ≡ true
    → Reach max_size s t
    → t.pc ≡ returned answer
    → (answer ≡ true)
      × ((n : ℕ) × (n ≤ s.keyboard.buffer_pos) × Prefix s.keyboard.key_buffer max_size n t.out)
unfolding Holding Answered
reader_lem max_size s t answer big starts ready reach ends =
    let line = s.keyboard.key_buffer in
    let count = s.keyboard.buffer_pos in
    let start : Holding line count max_size s s.pc =
      subst (λ p. Holding line count max_size s p) (sym starts)
        (record { ready = ready; same_line = refl; shorter = omega arith }) in
    let end =
      subst (λ p. Holding line count max_size t p) ends
        (Reach-Holding line count max_size big start reach) in
    let (yes_line, n, le, p) = Holding-Answered line count max_size t answer end in
    (yes_line, (n, le, p))
