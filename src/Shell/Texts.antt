-- ===== src/Shell/Texts.antt =====
-- Texts, the latest character first, and the strings in memory that spell them.
use os_from_scratch.Common.{
  ℕ, ◌<◌, ◌≡◌, ◌≢◌, inl, inr, refl, sym, ap, ◌∙◌, arith, Bool, true, false, ◌&&◌, List, [], ◌∷◌,
  length, ◌==◌, ==→eq, ==→ne, Bool-cases,
}
use os_from_scratch.Libc.{}
use os_from_scratch.Libc.Text.{IsString}
use os_from_scratch.Keyboard.{}
use os_from_scratch.Keyboard.Line.{Spells}
use os_from_scratch.Shell.{}

-- A text, the latest character first.
unfoldable pub NonZero : List ℕ → Type 0
NonZero [] = Unit {0}
NonZero (c ∷ cs) = (c ≢ 0) × NonZero cs

unfoldable pub same_text : List ℕ → List ℕ → Bool
same_text [] [] = true
same_text [] (d ∷ ds) = false
same_text (c ∷ cs) [] = false
same_text (c ∷ cs) (d ∷ ds) = let rest = same_text cs ds in c == d && rest

-- The literal from its last character on.
unfoldable pub backwards : List ℕ → List ℕ → List ℕ
backwards [] done = done
backwards (c ∷ cs) done = backwards cs (c ∷ done)

pub Spells-IsString :
    (s : ℕ → ℕ) (cs : List ℕ)
    → Spells s cs
    → NonZero cs
    → s (length cs) ≡ 0
    → IsString s (length cs)
unfolding Spells NonZero
Spells-IsString s cs h nz ended = record {
  terminator = ended;
  before = λ k lt. nonzero_at cs k h nz lt;
}
  where
    nonzero_at : (ds : List ℕ) (k : ℕ) → Spells s ds → NonZero ds → k < length ds → s k ≢ 0
    nonzero_at [] k a b lt = absurd (omega arith)
    nonzero_at (d ∷ ds) k a b lt = elim (Bool-cases (k == length ds)) [
      | inl last ↦ (let e = ==→eq k (length ds) last in λ z. b.0 (sym a.0 ∙ ap s (sym e) ∙ z))
      | inr earlier ↦
          (let ne = ==→ne k (length ds) earlier in nonzero_at ds k a.1 b.1 (omega arith))
    ]

pub same_text-yes :
    (s t : ℕ → ℕ) (cs ds : List ℕ)
    → Spells s cs
    → Spells t ds
    → length cs ≡ length ds
    → ((k : ℕ) → k < length cs → s k ≡ t k)
    → same_text cs ds ≡ true
unfolding Spells same_text
same_text-yes s t [] [] a b e same = refl
same_text-yes s t [] (d ∷ ds) a b e same = absurd (omega arith)
same_text-yes s t (c ∷ cs) [] a b e same = absurd (omega arith)
same_text-yes s t (c ∷ cs) (d ∷ ds) a b e same =
    let lengths : length cs ≡ length ds = omega (arith, e) in
    let first : c ≡ d = sym a.0 ∙ same (length cs) (omega arith) ∙ ap t lengths ∙ b.0 in
    let rest = same_text-yes s t cs ds a.1 b.1 lengths (λ k lt. same k (omega arith)) in
    ground (arith, first, rest)

pub same_text-eq : (cs ds : List ℕ) → same_text cs ds ≡ true → cs ≡ ds
unfolding same_text
same_text-eq [] [] e = refl
same_text-eq [] (d ∷ ds) e = absurd (ground (arith, e))
same_text-eq (c ∷ cs) [] e = absurd (ground (arith, e))
same_text-eq (c ∷ cs) (d ∷ ds) e =
    let first : c ≡ d = ground (arith, e) in
    let rest : cs ≡ ds = same_text-eq cs ds (ground (arith, e)) in rw (first, rest) refl

pub Spells-agree :
    (s t : ℕ → ℕ) (cs : List ℕ) (k : ℕ) → Spells s cs → Spells t cs → k < length cs → s k ≡ t k
unfolding Spells
Spells-agree s t [] k a b lt = absurd (omega arith)
Spells-agree s t (c ∷ cs) k a b lt = elim (Bool-cases (k == length cs)) [
  | inl last ↦ rw (==→eq k (length cs) last) (a.0 ∙ sym b.0)
  | inr earlier ↦
      (let ne = ==→ne k (length cs) earlier in Spells-agree s t cs k a.1 b.1 (omega arith))
]
