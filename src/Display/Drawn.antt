-- ===== src/Display/Drawn.antt =====
-- Which pixels of the screen a piece of drawing changes.
use os_from_scratch.Common.{
  ℕ, ◌^◌, ◌<◌, ◌≡◌, refl, sym, ◌∙◌, arith, inl, inr, Bool, false, ◌||◌, ◌&&◌, ◌==◌, Bool-cases,
  if◌then◌else◌,
}
use os_from_scratch.Common.Word.{}
use os_from_scratch.Display.{Frame, vbe_put_pixel}
use os_from_scratch.Display.Pixels.{IsFrame, pixel, vbe_put_pixel-drawn, vbe_put_pixel_lem}

-- From `s` to `t` the pixels of the screen in `on` got the colour, and the others kept theirs.
pub record Drawn (on : ℕ → ℕ → Bool) (color : ℕ) (s t : Frame) : Type 0 where
  pub frame : IsFrame t
  pub width : t.width ≡ s.width
  pub height : t.height ≡ s.height
  pub pixels : (u v : ℕ) → u < s.width → pixel t u v ≡ (if on u v then color else pixel s u v)

pub none-Drawn : (color : ℕ) (s : Frame) → IsFrame s → Drawn (λ u v. false) color s s
none-Drawn color s h = record { frame = h; width = refl; height = refl; pixels = λ u v lt. refl }

pub then-Drawn :
    (p q : ℕ → ℕ → Bool) (color : ℕ) (s t r : Frame)
    → Drawn p color s t
    → Drawn q color t r
    → Drawn (λ u v. q u v || p u v) color s r
then-Drawn p q color s t r a b = record {
  frame = b.frame;
  width = b.width ∙ a.width;
  height = b.height ∙ a.height;
  pixels = λ u v lt.
      let first = a.pixels u v lt in
      let second = b.pixels u v (omega (arith, a.width)) in
      elim (Bool-cases (q u v)) [
        | inl drawn ↦ (let e = rw drawn at second in rw drawn e)
        | inr kept ↦ (let e = rw kept at second in rw kept (e ∙ first))
      ];
}

pub same-Drawn :
    (p q : ℕ → ℕ → Bool) (color : ℕ) (s t : Frame)
    → Drawn p color s t
    → ((u v : ℕ) → u < s.width → p u v ≡ q u v)
    → Drawn q color s t
same-Drawn p q color s t a e = record {
  frame = a.frame;
  width = a.width;
  height = a.height;
  pixels = λ u v lt. rw (sym (e u v lt)) (a.pixels u v lt);
}

pub put-Drawn :
    (x y color : ℕ) (s : Frame)
    → IsFrame s
    → x < s.width
    → y < s.height
    → color < 2 ^ 32
    → Drawn (λ u v. u == x && v == y) color s (vbe_put_pixel x y color s)
put-Drawn x y color s h hx hy small =
    let e = vbe_put_pixel-drawn x y color s h hx hy in
    record {
      frame = rw e (record {
        words = h.words;
        row = h.row;
        narrow = h.narrow;
        few = h.few;
        depth = h.depth;
        whole = h.whole;
        fits = h.fits;
      });
      width = rw e refl;
      height = rw e refl;
      pixels = λ u v lt. vbe_put_pixel_lem x y color u v s h hx hy lt small;
    }
