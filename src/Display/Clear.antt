-- ===== src/Display/Clear.antt =====
-- The loop of vbe_clear_screen over the pixels.
use os_from_scratch.Common.{
  ℕ, zero, suc, ◌+◌, ◌*◌, ◌/◌, ◌%◌, ◌^◌, ◌≤◌, ◌<◌, ◌≡◌, refl, ap, ◌∙◌, arith, inl, inr, Bool, true,
  false, ◌||◌, ◌&&◌, ltb, leb, ◌==◌, ==→eq, Bool-cases,
}
use native.Mathlib.Nat.{div-add-mod, mod-lt, mul_comm, mul-le-mul_left, mul-le-mul_right}
use os_from_scratch.Common.Word.{u32}
use os_from_scratch.Display.{Frame, vbe_put_pixel, clear_loop, vbe_clear_screen}
use os_from_scratch.Display.Pixels.{IsFrame, pixel, rows_apart}
use os_from_scratch.Display.Drawn.{Drawn, none-Drawn, then-Drawn, same-Drawn, put-Drawn}

-- The pixels that the rounds from `i` on draw, by their number in the order of the rows.
abbrev numbered : ℕ → ℕ → ℕ → ℕ → ℕ → Bool
numbered left i width u v = leb i (v * width + u) && ltb (v * width + u) (i + left)

split_number : (i width : ℕ) → 0 < width → i ≡ i / width * width + i % width
split_number i width pos = omega (arith, div-add-mod i width, mul_comm width (i / width))

-- A pixel and its number determine each other.
number_unique :
    (u v i width : ℕ) → u < width → (u == i % width && v == i / width) ≡ (v * width + u == i)
number_unique u v i width lt =
    let e = split_number i width (omega arith) in
    let small : i % width < width = mod-lt i (omega arith) in
    elim (Bool-cases (v == i / width)) [
      | inl row ↦
          (let same : v * width ≡ i / width * width =
              ap (λ (t : ℕ). t * width) (==→eq v (i / width) row) in
            ground (arith, e, same, row))
      | inr other ↦ elim (Bool-cases (ltb v (i / width))) [
        | inl above ↦
            (let before = rows_apart v (i / width) width (ground (arith, above)) in
              ground (arith, e, before, other, small))
        | inr not_above ↦
            (let after = rows_apart (i / width) v width (ground (arith, other, not_above)) in
              ground (arith, e, after, other, small))
      ]
    ]

row_of_number : (i width height : ℕ) → 0 < width → i < height * width → i / width < height
row_of_number i width height pos lt = elim (Bool-cases (ltb (i / width) height)) [
  | inl inside ↦ ground (arith, inside)
  | inr outside ↦
      (let le : height ≤ i / width = ground (arith, outside) in
        absurd (omega (arith, split_number i width pos, mul-le-mul_right width le)))
]

positive : (a b n : ℕ) → n < a * b → 0 < b
positive a b n lt = elim (Bool-cases (b == 0)) [
  | inl none_there ↦ absurd (omega (arith, ap (λ (t : ℕ). a * t) (==→eq b 0 none_there)))
  | inr some_there ↦ ground (arith, some_there)
]

clear_loop-Drawn :
    (left i width color : ℕ) (s : Frame)
    → IsFrame s
    → width ≡ s.width
    → i + left ≤ s.height * width
    → color < 2 ^ 32
    → Drawn (numbered left i width) color s (clear_loop left i width color s)
unfolding clear_loop
clear_loop-Drawn zero i width color s h e room small =
    same-Drawn (λ u v. false) (numbered zero i width) color s s (none-Drawn color s h)
      (λ u v lt. ground arith)
clear_loop-Drawn (suc left) i width color s h e room small =
    let pos : 0 < width = positive s.height width i (omega arith) in
    let within : i % width < width = mod-lt i pos in
    let column : i % width < s.width = omega arith in
    let line : i / width < s.height = row_of_number i width s.height pos (omega arith) in
    let s1 = vbe_put_pixel (i % width) (i / width) color s in
    let first = put-Drawn (i % width) (i / width) color s h column line small in
    let high : s1.height * width ≡ s.height * width = ap (λ (t : ℕ). t * width) first.height in
    let rest =
      clear_loop-Drawn left (i + 1) width color s1 first.frame (omega (arith, first.width))
        (omega (arith, high)) small in
    same-Drawn (λ u v. numbered left (i + 1) width u v || (u == i % width && v == i / width))
      (numbered (suc left) i width) color s (clear_loop left (i + 1) width color s1)
      (then-Drawn (λ u v. u == i % width && v == i / width) (numbered left (i + 1) width) color s s1
        (clear_loop left (i + 1) width color s1) first rest)
      (λ u v lt. rw (number_unique u v i width (omega arith)) (ground arith))

-- Clearing gives every pixel of the screen the colour.
pub vbe_clear_screen_lem :
    (color u v : ℕ) (s : Frame)
    → IsFrame s
    → color < 2 ^ 32
    → u < s.width
    → v < s.height
    → pixel (vbe_clear_screen color s) u v ≡ color
unfolding vbe_clear_screen
vbe_clear_screen_lem color u v s h small hu hv =
    let few : s.height * s.width ≤ s.height * s.pitch =
      mul-le-mul_left s.height (omega (arith, h.row, h.narrow)) in
    let all : u32 (s.height * s.width) ≡ s.height * s.width = omega (arith, few, h.whole, h.fits) in
    let drawn =
      clear_loop-Drawn (s.height * s.width) 0 s.width color s h refl (omega arith) small in
    let inside = rows_apart v s.height s.width hv in
    let hit : numbered (s.height * s.width) 0 s.width u v ≡ true = ground (arith, inside) in
    rw all (drawn.pixels u v hu ∙ rw hit refl)
