-- ===== src/Ata/Identify/Drive.antt =====
-- What the identification of a drive finds.
use os_from_scratch.Common.{
  ℕ, zero, suc, ◌+◌, ◌*◌, ◌/◌, ◌%◌, ◌^◌, ◌≤◌, ◌<◌, ◌≡◌, ◌≢◌, ◌⊎◌, inl, inr, refl, ◌∙◌, arith, true,
  false, bit_and, ◌==◌, ==→eq, ==→ne, Bool-cases, if◌then◌else◌,
}
use os_from_scratch.Common.Word.{◌>>◌, store, store_self, store_ne}
use os_from_scratch.Common.Bits.{bit_or_above, bit_and_low}
use os_from_scratch.Ports.{}
use os_from_scratch.Ata.{AtaDevice}
use os_from_scratch.Ata.Transfer.{}
use os_from_scratch.Ata.Identify.{model_loop, lba48_count, lba28_count, parse_identify}

-- The character `j` of the model: each word holds two, the first one in its high byte.
unfoldable pub model_char : (ℕ → ℕ) → ℕ → ℕ
model_char words j =
    if j % 2 == 0 then words (27 + j / 2) / 2 ^ 8 % 2 ^ 8 else words (27 + j / 2) % 2 ^ 8

abbrev first_char : (ℕ → ℕ) → ℕ → ℕ
first_char words i = bit_and (words (27 + i / 2) >> 8) 0xFF

abbrev second_char : (ℕ → ℕ) → ℕ → ℕ
second_char words i = bit_and (words (27 + i / 2)) 0xFF

-- The two characters of a word.
first_char-model_char :
    (q : ℕ) (words : ℕ → ℕ) → first_char words (2 * q) ≡ model_char words (2 * q)
unfolding model_char
first_char-model_char q words =
    let even : (2 * q % 2 == 0) ≡ true = ground arith in
    rw even (bit_and_low 8 (words (27 + 2 * q / 2) / 2 ^ 8))

second_char-model_char :
    (q : ℕ) (words : ℕ → ℕ) → second_char words (2 * q) ≡ model_char words (2 * q + 1)
unfolding model_char
second_char-model_char q words =
    let odd : ((2 * q + 1) % 2 == 0) ≡ false = ground arith in
    let half : (2 * q + 1) / 2 ≡ 2 * q / 2 = omega arith in
    rw (odd, half) (bit_and_low 8 (words (27 + 2 * q / 2)))

model_loop-outside :
    (left i j : ℕ) (words model : ℕ → ℕ)
    → (j < i) ⊎ (i + 2 * left ≤ j)
    → model_loop left i words model j ≡ model j
unfolding model_loop
model_loop-outside zero i j words model out = refl
model_loop-outside (suc left) i j words model out =
    let before : j ≢ i = elim out [ inl a ↦ omega arith | inr b ↦ omega arith ] in
    let next : j ≢ i + 1 = elim out [ inl a ↦ omega arith | inr b ↦ omega arith ] in
    model_loop-outside left (i + 2) j words
      (store (store model i (first_char words i)) (i + 1) (second_char words i))
      (elim out [ inl a ↦ inl (omega arith) | inr b ↦ inr (omega arith) ])
    ∙ store_ne (store model i (first_char words i)) (i + 1) (second_char words i) j next
    ∙ store_ne model i (first_char words i) j before

model_loop-inside :
    (left q j : ℕ) (words model : ℕ → ℕ)
    → 2 * q ≤ j
    → j < 2 * q + 2 * left
    → model_loop left (2 * q) words model j ≡ model_char words j
unfolding model_loop model_char
model_loop-inside zero q j words model le lt = absurd (omega arith)
model_loop-inside (suc left) q j words model le lt =
    let next : 2 * q + 2 ≡ 2 * (q + 1) = omega arith in
    let with_first = store model (2 * q) (first_char words (2 * q)) in
    let with_both = store with_first (2 * q + 1) (second_char words (2 * q)) in
    elim (Bool-cases (j == 2 * q)) [
      | inl at_first ↦ rw (==→eq j (2 * q) at_first) (
          model_loop-outside left (2 * q + 2) (2 * q) words with_both (inl (omega arith))
          ∙ store_ne with_first (2 * q + 1) (second_char words (2 * q)) (2 * q) (omega arith)
          ∙ store_self model (2 * q) (first_char words (2 * q))
          ∙ first_char-model_char q words)
      | inr not_first ↦ elim (Bool-cases (j == 2 * q + 1)) [
        | inl at_second ↦ rw (==→eq j (2 * q + 1) at_second) (
            model_loop-outside left (2 * q + 2) (2 * q + 1) words with_both (inl (omega arith))
            ∙ store_self with_first (2 * q + 1) (second_char words (2 * q))
            ∙ second_char-model_char q words)
        | inr not_second ↦
            (let n1 = ==→ne j (2 * q) not_first in
              let n2 = ==→ne j (2 * q + 1) not_second in
              rw next
                (model_loop-inside left (q + 1) j words with_both (omega arith) (omega arith)))
      ]
    ]

-- Four words below 2 ^ 16 joined to a number.
lba48_count_lem :
    (words : ℕ → ℕ)
    → ((k : ℕ) → words k < 2 ^ 16)
    → lba48_count words ≡ words 100 + words 101 * 2 ^ 16 + words 102 * 2 ^ 32 + words 103 * 2 ^ 48
unfolding lba48_count
lba48_count_lem words small =
    let first = bit_or_above 16 (words 100) (words 101) (small 100) in
    let second =
      bit_or_above 32 (words 100 + words 101 * 2 ^ 16) (words 102)
        (omega (arith, small 100, small 101)) in
    let third =
      bit_or_above 48 (words 100 + words 101 * 2 ^ 16 + words 102 * 2 ^ 32) (words 103)
        (omega (arith, small 100, small 101, small 102)) in
    rw (first, second) third

-- A drive that was found: the model, the number of sectors by the wider address if the drive has
-- it, and the flag that says so.
pub record Identified (words : ℕ → ℕ) (d d' : AtaDevice) : Type 0 where
  pub model : (j : ℕ) → j < 40 → d'.model j ≡ model_char words j
  pub count : d'.sector_count ≡ (
      if bit_and (words 83) (2 ^ 10) == 0
      then words 60 + words 61 * 2 ^ 16
      else words 100 + words 101 * 2 ^ 16 + words 102 * 2 ^ 32 + words 103 * 2 ^ 48)
  pub flags : d'.flags ≡ (if bit_and (words 83) (2 ^ 10) == 0 then 0x05 else 0x03)
  pub same : (d'.base ≡ d.base) × (d'.slave ≡ d.slave) × (d'.sector_size ≡ d.sector_size)

pub parse_identify-Identified :
    (words : ℕ → ℕ) (d : AtaDevice)
    → d.flags ≡ 0
    → ((k : ℕ) → words k < 2 ^ 16)
    → Identified words d (parse_identify words d)
unfolding parse_identify lba28_count
parse_identify-Identified words d clear small =
    let text = model_loop 20 0 words d.model in
    let model : (j : ℕ) → j < 40 → store text 41 0 j ≡ model_char words j = λ j lt.
      store_ne text 41 0 j (omega arith)
      ∙ model_loop-inside 20 0 j words d.model (omega arith) (omega arith) in
    elim (Bool-cases (bit_and (words 83) (2 ^ 10) == 0)) [
      | inl narrow ↦ rw narrow (record {
        model = model;
        count = rw narrow (bit_or_above 16 (words 60) (words 61) (small 60));
        flags = rw (narrow, clear) refl;
        same = (refl, refl, refl);
      })
      | inr wide ↦ rw wide (record {
        model = model;
        count = rw wide (lba48_count_lem words small);
        flags = rw (wide, clear) refl;
        same = (refl, refl, refl);
      })
    ]
