-- ===== src/Display/Lines.antt =====
-- The lines that vbe_draw_line and vbe_draw_rect draw.
use os_from_scratch.Common.{
  ℕ, zero, suc, ◌+◌, ◌-◌, ◌^◌, ◌≤◌, ◌<◌, arith, Bool, false, ◌||◌, ◌&&◌, ltb, leb, ◌==◌,
}
use os_from_scratch.Display.{Frame, vbe_put_pixel, line_loop, vbe_draw_line, vbe_draw_rect}
use os_from_scratch.Display.Pixels.{IsFrame}
use os_from_scratch.Display.Drawn.{Drawn, none-Drawn, then-Drawn, same-Drawn, put-Drawn}

-- The pixels of a row from the column `i` on.
abbrev pub segment : ℕ → ℕ → ℕ → ℕ → ℕ → Bool
segment left i y u v = v == y && (leb i u && ltb u (i + left))

line_loop-Drawn :
    (left i y color : ℕ) (s : Frame)
    → IsFrame s
    → i + left ≤ s.width
    → y < s.height
    → color < 2 ^ 32
    → Drawn (segment left i y) color s (line_loop left i y color s)
unfolding line_loop
line_loop-Drawn zero i y color s h hx hy small =
    same-Drawn (λ u v. false) (segment zero i y) color s s (none-Drawn color s h)
      (λ u v lt. ground arith)
line_loop-Drawn (suc left) i y color s h hx hy small =
    let s1 = vbe_put_pixel i y color s in
    let first = put-Drawn i y color s h (omega arith) hy small in
    let rest =
      line_loop-Drawn left (i + 1) y color s1 first.frame (omega (arith, first.width))
        (omega (arith, first.height)) small in
    same-Drawn (λ u v. segment left (i + 1) y u v || (u == i && v == y)) (segment (suc left) i y)
      color s (line_loop left (i + 1) y color s1)
      (then-Drawn (λ u v. u == i && v == y) (segment left (i + 1) y) color s s1
        (line_loop left (i + 1) y color s1) first rest)
      (λ u v lt. ground arith)

-- A line on the screen is drawn from `x1` up to `x2`, in the row `y1` whatever `y2` is.
pub vbe_draw_line-Drawn :
    (x1 y1 x2 y2 color : ℕ) (s : Frame)
    → IsFrame s
    → x1 ≤ x2
    → x2 ≤ s.width
    → y1 < s.height
    → color < 2 ^ 32
    → Drawn (segment (x2 - x1) x1 y1) color s (vbe_draw_line x1 y1 x2 y2 color s)
unfolding vbe_draw_line
vbe_draw_line-Drawn x1 y1 x2 y2 color s h le hx hy small =
    line_loop-Drawn (x2 - x1) x1 y1 color s h (omega arith) hy small

-- Of a rectangle on the screen the top edge alone is drawn.
pub vbe_draw_rect-Drawn :
    (x1 y1 x2 y2 color : ℕ) (s : Frame)
    → IsFrame s
    → x1 ≤ x2
    → x2 ≤ s.width
    → y1 < s.height
    → color < 2 ^ 32
    → Drawn (segment (x2 - x1) x1 y1) color s (vbe_draw_rect x1 y1 x2 y2 color s)
unfolding vbe_draw_rect
vbe_draw_rect-Drawn x1 y1 x2 y2 color s h le hx hy small =
    line_loop-Drawn (x2 - x1) x1 y1 color s h (omega arith) hy small
