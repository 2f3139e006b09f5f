-- ===== src/Libc/Text.antt =====
-- `len` and `strcmp` on terminated strings.
use os_from_scratch.Common.{
  ℕ, zero, suc, ◌+◌, ◌≤◌, ◌<◌, ◌≡◌, ◌≢◌, ◌⊎◌, ◌↔◌, refl, sym, ap, ◌∙◌, arith, true, false, ◌&&◌,
  not, Option, some, ◌==◌, Bool-cases, inl, inr, ==→eq, ==→ne,
}
use os_from_scratch.Libc.{len_loop, len, strcmp}

-- The string at `s` has its terminator at `n`.
pub record IsString (s : ℕ → ℕ) (n : ℕ) : Type 0 where
  pub terminator : s n ≡ 0
  pub before : (k : ℕ) → k < n → s k ≢ 0

len_loop_lem :
    (fuel : ℕ) (s : ℕ → ℕ) (i n : ℕ)
    → IsString s n
    → i ≤ n
    → n < i + fuel
    → len_loop fuel s i ≡ some n
unfolding len_loop
len_loop_lem zero s i n is le lt = absurd (omega arith)
len_loop_lem (suc fuel) s i n is le lt = elim (Bool-cases (i == n)) [
  | inl here ↦
      (let zero_here : (s i == 0) ≡ true = rw (==→eq i n here) (ground (arith, is.terminator)) in
        rw zero_here (ap some (==→eq i n here)))
  | inr further ↦
      (let ne : i ≢ n = ==→ne i n further in
        let more : (s i == 0) ≡ false = ground (arith, is.before i) in
        rw more (len_loop_lem fuel s (i + 1) n is (omega arith) (omega arith)))
]

-- `len` returns the index of the terminator, with fuel above it.
pub len_lem : (fuel : ℕ) (s : ℕ → ℕ) (n : ℕ) → IsString s n → n < fuel → len fuel s ≡ some n
unfolding len
len_lem fuel s n is lt = len_loop_lem fuel s 0 n is (omega arith) (omega arith)

-- `strcmp` stops at the first place where the strings differ, or at the terminator of both.
pub record Stops (s t : ℕ → ℕ) (from n : ℕ) (r : Option (ℕ × ℕ)) : Type 0 where
  pub place : ℕ
  pub result : r ≡ some (s place, t place)
  pub first : from ≤ place
  pub last : place ≤ n
  pub equal : (k : ℕ) → from ≤ k → k < place → s k ≡ t k
  pub stop : (s place ≡ 0) ⊎ (s place ≢ t place)

strcmp-Stops :
    (fuel : ℕ) (s t : ℕ → ℕ) (i n : ℕ)
    → IsString s n
    → i ≤ n
    → n < i + fuel
    → Stops s t i n (strcmp fuel s t i)
unfolding strcmp
strcmp-Stops zero s t i n is le lt = absurd (omega arith)
strcmp-Stops (suc fuel) s t i n is le lt = elim (Bool-cases (not (s i == 0) && s i == t i)) [
  | inr over ↦ rw over (record {
    place = i;
    result = refl;
    first = omega arith;
    last = le;
    equal = λ k p q. absurd (omega arith);
    stop = ground arith;
  })
  | inl same ↦
      (let nonzero : s i ≢ 0 = ground arith in
        let eq : s i ≡ t i = ground arith in
        let ne : i ≢ n = λ e. nonzero (ap s e ∙ is.terminator) in
        let rest = strcmp-Stops fuel s t (i + 1) n is (omega arith) (omega arith) in
        rw same (record {
          place = rest.place;
          result = rest.result;
          first = omega (arith, rest.first);
          last = rest.last;
          equal = λ k p q. elim (Bool-cases (k == i)) [
            | inl at_i ↦ rw (==→eq k i at_i) eq
            | inr above ↦ (let ne' : k ≢ i = ==→ne k i above in rest.equal k (omega arith) q)
          ];
          stop = rest.stop;
        }))
]

-- At the place where `strcmp` stops, equal characters are the terminators of both strings.
both_end :
    (s t : ℕ → ℕ) (n m : ℕ) (r : Option (ℕ × ℕ))
    → IsString s n
    → IsString t m
    → (stops : Stops s t 0 n r) → s stops.place ≡ t stops.place
    → (n ≡ m) × ((k : ℕ) → k < n → s k ≡ t k)
both_end s t n m r is it stops e = elim stops.stop [
  | inr ne ↦ absurd (ne e)
  | inl ended ↦
      (let p = stops.place in
        let le = stops.last in
        let at_n : p ≡ n = ground (arith, is.before p) in
        let at_m : p ≡ m =
          ground (arith, it.before p, is.before m, stops.equal m (omega arith), it.terminator) in
        (sym at_n ∙ at_m, λ k lt. stops.equal k (omega arith) (omega arith)))
]

same_stop :
    (s t : ℕ → ℕ) (n m : ℕ) (r : Option (ℕ × ℕ))
    → IsString s n
    → IsString t m
    → (stops : Stops s t 0 n r) → n ≡ m
    → ((k : ℕ) → k < n → s k ≡ t k)
    → s stops.place ≡ t stops.place
same_stop s t n m r is it stops e same = elim (Bool-cases (stops.place == n)) [
  | inl at_n ↦ rw (==→eq stops.place n at_n) (is.terminator ∙ sym (ap t e ∙ it.terminator))
  | inr other ↦
      (let ne = ==→ne stops.place n other in let le = stops.last in same stops.place (omega arith))
]

-- With fuel above the length of the first string `strcmp` ends, and the two characters that it
-- compares last are equal exactly when the strings are equal up to and with their terminator.
pub strcmp_lem :
    (fuel : ℕ) (s t : ℕ → ℕ) (n m : ℕ)
    → IsString s n
    → IsString t m
    → n < fuel
    → (a : ℕ) × (b : ℕ) × (strcmp fuel s t 0 ≡ some (a, b))
      × ((a ≡ b) ↔ ((n ≡ m) × ((k : ℕ) → k < n → s k ≡ t k)))
strcmp_lem fuel s t n m is it lt =
    let r = strcmp-Stops fuel s t 0 n is (omega arith) (omega arith) in
    (
      s r.place,
      t r.place,
      r.result,
      (
        both_end s t n m (strcmp fuel s t 0) is it r,
        λ (e, same). same_stop s t n m (strcmp fuel s t 0) is it r e same,
      ),
    )
