-- ===== src/Screen/Text.antt =====
-- What a text leaves on the screen, and where the cursor goes.
use os_from_scratch.Common.{
  ℕ, ◌+◌, ◌-◌, ◌*◌, ◌/◌, ◌%◌, ◌^◌, ◌≤◌, ◌<◌, ◌≡◌, inl, inr, refl, sym, ap, ◌∙◌, arith, List, [],
  ◌∷◌, true, false, ltb, ◌&&◌, ◌==◌, Bool-cases, if◌then◌else◌, none, subst,
}
use os_from_scratch.Common.Word.{u8, store}
use os_from_scratch.Common.Bits.{bit_and_low}
use os_from_scratch.Ports.{Event, Device, outb, inb, outw, inw, halt, clear_flag}
use os_from_scratch.Screen.{
  Screen, get_offset, parse_offset, get_cursor, set_cursor, print_at, print_char, print_string,
}

-- The register of the display controller that the port 0x3D4 selects, and what a register holds.
unfoldable pub selected : List Event → ℕ
selected [] = 0
selected (outb p v ∷ h) = let rest = selected h in if p == 0x3D4 then v else rest
selected (inb p v ∷ h) = selected h
selected (outw p v ∷ h) = selected h
selected (inw p v ∷ h) = selected h
selected (halt ∷ h) = selected h
selected (clear_flag ∷ h) = selected h

unfoldable pub register : (ℕ → ℕ) → ℕ → List Event → ℕ
unfolding selected
register start r [] = u8 (start r)
register start r (outb p v ∷ h) =
    let rest = register start r h in if p == 0x3D5 && selected h == r then u8 v else rest
register start r (inb p v ∷ h) = register start r h
register start r (outw p v ∷ h) = register start r h
register start r (inw p v ∷ h) = register start r h
register start r (halt ∷ h) = register start r h
register start r (clear_flag ∷ h) = register start r h

-- A controller answers a read of the port 0x3D5 with the register that is selected.
pub record IsController (device : Device) (start : ℕ → ℕ) : Type 0 where
  pub answers : (h : List Event) → device h 0x3D5 ≡ register start (selected h) h

-- The offset of the cursor.
unfoldable pub cursor : (ℕ → ℕ) → List Event → ℕ
cursor start h = (register start 14 h * 2 ^ 8 + register start 15 h) * 2

register-lt : (start : ℕ → ℕ) (r : ℕ) (h : List Event) → register start r h < 2 ^ 8
unfolding register
register-lt start r [] = omega arith
register-lt start r (outb p v ∷ h) = ground (arith, register-lt start r h)
register-lt start r (inb p v ∷ h) = register-lt start r h
register-lt start r (outw p v ∷ h) = register-lt start r h
register-lt start r (inw p v ∷ h) = register-lt start r h
register-lt start r (halt ∷ h) = register-lt start r h
register-lt start r (clear_flag ∷ h) = register-lt start r h

-- A read finds the cursor, and leaves it where it is.
get_cursor_lem :
    (device : Device) (start : ℕ → ℕ) (h : List Event)
    → IsController device start
    → ((get_cursor device h).0 ≡ cursor start h)
      × (cursor start (get_cursor device h).1 ≡ cursor start h)
unfolding get_cursor cursor register selected
get_cursor_lem device start h c =
    let h1 = outb 0x3D4 0x0E ∷ h in
    let high = c.answers h1 in
    let h2 = outb 0x3D4 0x0F ∷ inb 0x3D5 (u8 (device h1 0x3D5)) ∷ h1 in
    let low = c.answers h2 in
    (omega (arith, high, low, register-lt start 14 h, register-lt start 15 h), refl)

set_cursor_lem :
    (start : ℕ → ℕ) (offset : ℕ) (h : List Event)
    → offset < 2 ^ 17
    → cursor start (set_cursor offset h) ≡ offset / 2 * 2
unfolding set_cursor cursor register selected
set_cursor_lem start offset h small = omega (arith, bit_and_low 8 (offset / 2))

-- What a character does to the bytes of the screen and to the cursor, on an even offset: a newline
-- goes to the start of the next row, a tab two cells on, and a backspace erases the cell before.
pub record View : Type 0 where
  pub bytes : ℕ → ℕ
  pub at_offset : ℕ

unfoldable pub shown : ℕ → View → View
shown c w =
    if c == 10
    then record w { at_offset = (w.at_offset / 160 + 1) * 160 }
    else if c == 9
    then record w { at_offset = w.at_offset + 4 }
    else if c == 8
    then (if w.at_offset == 0 then w else record w {
      bytes = store (store w.bytes (w.at_offset - 2) 32) (w.at_offset - 2 + 1) 0x0f;
      at_offset = w.at_offset - 2;
    })
    else record w {
      bytes = store (store w.bytes w.at_offset c) (w.at_offset + 1) 0x0f;
      at_offset = w.at_offset + 2;
    }

-- The state of the screen as a view.
abbrev pub view : (ℕ → ℕ) → Screen → View
view start s = record { bytes = s.video; at_offset = cursor start s.history }

cursor_even : (start : ℕ → ℕ) (h : List Event) → cursor start h / 2 * 2 ≡ cursor start h
unfolding cursor
cursor_even start h = omega arith

print_at-shown :
    (device : Device) (start : ℕ → ℕ) (c : ℕ) (s : Screen)
    → IsController device start
    → (shown c (view start s)).at_offset < 2 ^ 17
    → view start (print_at device 0x0f (cursor start s.history) c s) ≡ shown c (view start s)
unfolding print_at get_offset parse_offset shown
print_at-shown device start c s h small =
    let o = cursor start s.history in
    let even = cursor_even start s.history in
    elim (Bool-cases (c == 10)) [
      | inl newline ↦
          (let room = rw newline at small in
            let (found, kept) = get_cursor_lem device start s.history h in
            let target = (o / 160 + 1) * 160 in
            let e : cursor start (
                  set_cursor (get_offset 0 ((get_cursor device s.history).0 / 160 + 1))
                    (get_cursor device s.history).1)
                ≡ target =
              rw found (
                set_cursor_lem start (((o / 160 + 1) * 80 + 0) * 2) (get_cursor device s.history).1
                  (omega arith)
                ∙ omega arith) in
            rw newline (rw e refl))
      | inr n1 ↦ elim (Bool-cases (c == 9)) [
        | inl tab ↦
            (let room = rw (n1, tab) at small in
              let e : cursor start (set_cursor (o + 4) s.history) ≡ o + 4 =
                set_cursor_lem start (o + 4) s.history room ∙ omega (arith, even) in
              rw (n1, tab) (rw e refl))
        | inr n2 ↦ elim (Bool-cases (c == 8)) [
          | inl back ↦ elim (Bool-cases (o == 0)) [
            | inl at_start ↦
                (let guard : ltb 0 o ≡ false = ground (arith, at_start) in
                  rw (n1, n2, back) (rw (at_start, guard) refl))
            | inr inside ↦
                (let guard : ltb 0 o ≡ true = ground (arith, inside) in
                  let room = rw (n1, n2, back, inside) at small in
                  let e : cursor start (set_cursor (o - 2) s.history) ≡ o - 2 =
                    set_cursor_lem start (o - 2) s.history room ∙ omega (arith, even) in
                  rw (n1, n2, back) (rw (inside, guard) (rw e refl)))
          ]
          | inr n3 ↦
              (let room = rw (n1, n2, n3) at small in
                let e : cursor start (set_cursor (o + 2) s.history) ≡ o + 2 =
                  set_cursor_lem start (o + 2) s.history room ∙ omega (arith, even) in
                rw (n1, n2, n3) (rw e refl))
        ]
      ]
    ]

print_char-shown :
    (device : Device) (start : ℕ → ℕ) (c : ℕ) (s : Screen)
    → IsController device start
    → (shown c (view start s)).at_offset < 2 ^ 17
    → view start (print_char device 0x0f none c s) ≡ shown c (view start s)
unfolding print_char
print_char-shown device start c s h small =
    let (found, kept) = get_cursor_lem device start s.history h in
    let s1 = record s { history = (get_cursor device s.history).1 } in
    let same : view start s1 ≡ view start s =
      ap (λ (o : ℕ). record { bytes = s.video; at_offset = o }) kept in
    let here : (get_cursor device s.history).0 ≡ cursor start s1.history = found ∙ sym kept in
    rw here (print_at-shown device start c s1 h (rw same small)) ∙ ap (shown c) same

-- The screen after a text.
unfoldable pub shown_all : List ℕ → View → View
shown_all [] w = w
shown_all (c ∷ cs) w = shown_all cs (shown c w)

-- The cursor stays in what its two registers can hold.
unfoldable pub StaysLow : List ℕ → View → Type 0
StaysLow [] w = Unit {0}
StaysLow (c ∷ cs) w = ((shown c w).at_offset < 2 ^ 17) × StaysLow cs (shown c w)

-- With a display controller that keeps its registers, print_string does to the bytes of the screen
-- and to the cursor what the characters do one after the other, as long as the cursor stays in
-- its two registers.
pub print_string_lem :
    (device : Device) (start : ℕ → ℕ) (cs : List ℕ) (s : Screen)
    → IsController device start
    → StaysLow cs (view start s)
    → view start (print_string device cs s) ≡ shown_all cs (view start s)
unfolding print_string shown_all StaysLow
print_string_lem device start [] s h low = refl
print_string_lem device start (c ∷ cs) s h low =
    let e = print_char-shown device start c s h low.0 in
    print_string_lem device start cs (print_char device 0x0f none c s) h
      (subst (λ w. StaysLow cs w) (sym e) low.1)
    ∙ ap (shown_all cs) e

-- The row that parse_offset finds is the row of the offset, but a column from 40 on comes back
-- 40 too low.
pub parse_offset-get_offset :
    (col row : ℕ)
    → col < 80
    → parse_offset (get_offset col row) ≡ (if ltb col 40 then col else col - 40, row)
unfolding parse_offset get_offset
parse_offset-get_offset col row lt = elim (Bool-cases (ltb col 40)) [
  | inl left ↦
      (let small : col < 40 = ground (arith, left) in
        let e1 : (row * 80 + col) * 2 % 80 / 2 ≡ col = omega arith in
        let e2 : (row * 80 + col) * 2 / (2 * 80) ≡ row = omega arith in rw (left, e1, e2) refl)
  | inr right ↦
      (let big : 40 ≤ col = ground (arith, right) in
        let e1 : (row * 80 + col) * 2 % 80 / 2 ≡ col - 40 = omega arith in
        let e2 : (row * 80 + col) * 2 / (2 * 80) ≡ row = omega arith in rw (right, e1, e2) refl)
]
