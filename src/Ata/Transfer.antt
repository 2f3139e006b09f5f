-- ===== src/Ata/Transfer.antt =====
-- What a read leaves in the buffer.
use os_from_scratch.Common.{
  ℕ, zero, suc, ◌+◌, ◌*◌, ◌^◌, ◌≤◌, ◌<◌, ◌≡◌, ◌⊎◌, refl, sym, ap, ◌∙◌, arith, Bool, List, ◌∷◌, some,
  ltb, ◌==◌, Bool-cases, inl, inr, ==→eq, ==→ne,
}
use os_from_scratch.Common.Word.{u16, store, store_self, store_ne}
use os_from_scratch.Ports.{Event, Device, inw}
use os_from_scratch.Ata.{
  AtaDevice, sectors, wait_ready, wait_irq, read_words, read_sectors, ata_select_drive,
  send_command, start_command, ata_read_lba28,
}
use os_from_scratch.Ata.Waits.{
  gave, gave-Overlooks, then_words, then_words-add, then_words-same, wait_irq-view, wait_ready-view,
  ata_select_drive-view, send_command-view, start_command-of,
}

-- The `n` words of `out` from the word `k` on are those that the data port gave between the
-- histories `h` and `h'`, all of them and in their order, and the others are those of `buffer`.
pub record Filled (device : Device) (d : AtaDevice) (k n : ℕ) (buffer out : ℕ → ℕ)
    (h h' : List Event) : Type 0 where
  pub words : gave device d.base h' ≡ then_words n k out (gave device d.base h)
  pub fits : (j : ℕ) → k ≤ j → j < k + n → out j < 2 ^ 16
  pub outside : (j : ℕ) → (j < k) ⊎ (k + n ≤ j) → out j ≡ buffer j

gave_word :
    (device : Device) (port word : ℕ) (h : List Event)
    → gave device port (inw port word ∷ h) ≡ u16 (device h port) ∷ gave device port h
unfolding gave
gave_word device port word h = ground arith

pub read_words-Filled :
    (left k : ℕ) (device : Device) (d : AtaDevice) (buffer : ℕ → ℕ) (h : List Event)
    → Filled device d k left buffer
        (read_words left k device d buffer h).0
        h
        (read_words left k device d buffer h).1
unfolding read_words then_words gave
read_words-Filled zero k device d buffer h = record {
  words = refl;
  fits = λ j p q. absurd (omega arith);
  outside = λ j p. refl;
}
read_words-Filled (suc left) k device d buffer h =
    let word = u16 (device h d.base) in
    let h1 = inw d.base word ∷ h in
    let rest = read_words-Filled left (k + 1) device d (store buffer k word) h1 in
    let out = (read_words left (k + 1) device d (store buffer k word) h1).0 in
    let at_k : out k ≡ word = rest.outside k (inl (omega arith)) ∙ store_self buffer k word in
    let given : gave device d.base h1 ≡ u16 (out k) ∷ gave device d.base h =
      gave_word device d.base word h
      ∙ ap (λ (w : ℕ). w ∷ gave device d.base h) (omega (arith, at_k)) in
    record {
      words = rest.words ∙ ap (then_words left (k + 1) out) given;
      fits = λ j p q. elim (Bool-cases (j == k)) [
        | inl here ↦ rw (==→eq j k here) (omega (arith, at_k))
        | inr other ↦ (let ne = ==→ne j k other in rest.fits j (omega arith) (omega arith))
      ];
      outside = λ j p.
          rest.outside j (elim p [ inl a ↦ inl (omega arith) | inr b ↦ inr (omega arith) ])
          ∙ store_ne buffer k word j (elim p [ inl a ↦ omega arith | inr b ↦ omega arith ]);
    }

-- The drive interrupts before each of the `left` sectors of a read, within the fuel.
unfoldable pub SectorsEnd :
    ℕ → ℕ → ℕ → Device → (List Event → Bool) → AtaDevice → (ℕ → ℕ) → List Event → Type 0
SectorsEnd fuel zero i device fired d buffer h = Unit {0}
SectorsEnd fuel (suc left) i device fired d buffer h =
    (h1 : List Event) × (wait_irq fuel fired h ≡ some h1)
    × SectorsEnd fuel left (i + 1) device fired d (read_words 256 (i * 256) device d buffer h1).0
        (read_words 256 (i * 256) device d buffer h1).1

-- Each wait of the read ends within the fuel: for BSY to clear before the command and behind it, and
-- for the interrupt before each sector.
pub record Serves (fuel : ℕ) (device : Device) (fired : List Event → Bool) (d : AtaDevice) (lba : ℕ)
    (buffer : ℕ → ℕ) (size : ℕ) (h : List Event) : Type 0 where
  pub idle : List Event
  pub clears : wait_ready fuel device d (ata_select_drive d h) ≡ some idle
  pub taken : List Event
  pub takes : wait_ready fuel device d (send_command d lba (sectors size) 0x20 idle) ≡ some taken
  pub interrupts : SectorsEnd fuel (sectors size) 0 device fired d buffer taken

read_sectors-step :
    (fuel left i : ℕ) (device : Device) (fired : List Event → Bool) (d : AtaDevice) (buffer : ℕ → ℕ)
    (h h1 : List Event)
    → wait_irq fuel fired h ≡ some h1
    → read_sectors fuel (suc left) i device fired d buffer h
      ≡ read_sectors fuel left
          (i + 1)
          device
          fired
          d
          (read_words 256 (i * 256) device d buffer h1).0
          (read_words 256 (i * 256) device d buffer h1).1
unfolding read_sectors
read_sectors-step fuel left i device fired d buffer h h1 waited = rw (read_sectors, waited) refl

-- A sector, and the sectors behind it.
Filled-join :
    (n m k : ℕ) (device : Device) (d : AtaDevice) (buffer middle out : ℕ → ℕ)
    (h h1 h2 h' : List Event)
    → gave device d.base h1 ≡ gave device d.base h
    → Filled device d k n buffer middle h1 h2
    → Filled device d (k + n) m middle out h2 h'
    → Filled device d k (n + m) buffer out h h'
Filled-join n m k device d buffer middle out h h1 h2 h' quiet first rest = record {
  words =
      rest.words
      ∙ ap (then_words m (k + n) out) (
          first.words
          ∙ then_words-same n k middle out (gave device d.base h1)
              (λ j p q. sym (rest.outside j (inl q)))
          ∙ ap (then_words n k out) quiet)
      ∙ sym (then_words-add n m k out (gave device d.base h));
  fits = λ j p q. elim (Bool-cases (ltb j (k + n))) [
    | inl now ↦
        (let lt : j < k + n = ground (arith, now) in
          let e = rest.outside j (inl lt) in omega (arith, e, first.fits j p lt))
    | inr later ↦ rest.fits j (ground (arith, later)) (omega arith)
  ];
  outside = λ j p.
      rest.outside j (elim p [ inl a ↦ inl (omega arith) | inr b ↦ inr (omega arith) ])
      ∙ first.outside j (elim p [ inl a ↦ inl a | inr b ↦ inr (omega arith) ]);
}

read_sectors-Filled :
    (fuel left i : ℕ) (device : Device) (fired : List Event → Bool) (d : AtaDevice) (buffer : ℕ → ℕ)
    (h : List Event)
    → SectorsEnd fuel left i device fired d buffer h
    → (out : ℕ → ℕ) × (h' : List Event) × (read_sectors fuel left i device fired d buffer h
        ≡ some (out, h'))
      × Filled device d (i * 256) (left * 256) buffer out h h'
unfolding read_sectors SectorsEnd then_words
read_sectors-Filled fuel zero i device fired d buffer h end = (
  buffer,
  h,
  refl,
  record { words = refl; fits = λ j p q. absurd (omega arith); outside = λ j p. refl },
)
read_sectors-Filled fuel (suc left) i device fired d buffer h end =
    let (h1, waited, later) = end in
    let middle = (read_words 256 (i * 256) device d buffer h1).0 in
    let h2 = (read_words 256 (i * 256) device d buffer h1).1 in
    let quiet =
      wait_irq-view (gave device d.base) (gave-Overlooks device d.base) fuel fired h h1 waited in
    let (out, h', done, rest) =
      read_sectors-Filled fuel left (i + 1) device fired d middle h2 later in
    let from : (i + 1) * 256 ≡ i * 256 + 256 = omega arith in
    let size : suc left * 256 ≡ 256 + left * 256 = omega arith in
    (
      out,
      h',
      read_sectors-step fuel left i device fired d buffer h h1 waited ∙ done,
      rw size (
          Filled-join 256 (left * 256) (i * 256) device d buffer middle out h h1 h2 h' quiet
            (read_words-Filled 256 (i * 256) device d buffer h1) (rw from at rest)),
    )

ata_read_lba28-steps :
    (fuel : ℕ) (device : Device) (fired : List Event → Bool) (d : AtaDevice) (lba : ℕ)
    (buffer : ℕ → ℕ) (size : ℕ) (h h1 h2 : List Event)
    → start_command fuel device d lba (sectors size) 0x20 h ≡ some h1
    → wait_ready fuel device d h1 ≡ some h2
    → ata_read_lba28 fuel device fired d lba buffer size h
      ≡ read_sectors fuel (sectors size) 0 device fired d buffer h2
unfolding ata_read_lba28
ata_read_lba28-steps fuel device fired d lba buffer size h h1 h2 started waited =
    rw (ata_read_lba28, started, waited) refl

-- Where each wait of this run ends within the fuel, `ata_read_lba28` of `size` bytes, where
-- `size + 511` fits in 32 bits, ends. The words that the data port gave during the run, each at its
-- own read, then stand in the buffer in the order of the reads, from its start on; they are whole
-- sectors, the fewest that hold `size` bytes, and no word behind them has changed.
pub ata_read_lba28_lem :
    (fuel : ℕ) (device : Device) (fired : List Event → Bool) (d : AtaDevice) (lba : ℕ)
    (buffer : ℕ → ℕ) (size : ℕ) (h : List Event)
    → Serves fuel device fired d lba buffer size h
    → size + 511 < 2 ^ 32
    → (out : ℕ → ℕ) × (h' : List Event) × (ata_read_lba28 fuel device fired d lba buffer size h
        ≡ some (out, h'))
      × Filled device d 0 (sectors size * 256) buffer out h h'
      × (size ≤ sectors size * 512)
      × (sectors size * 512 < size + 512)
ata_read_lba28_lem fuel device fired d lba buffer size h serves fits =
    let view = gave device d.base in
    let is = gave-Overlooks device d.base in
    let sent = send_command d lba (sectors size) 0x20 serves.idle in
    let (out, h', done, filled) =
      read_sectors-Filled fuel (sectors size) 0 device fired d buffer serves.taken
        serves.interrupts in
    let quiet : view serves.taken ≡ view h =
      wait_ready-view view is fuel device d sent serves.taken serves.takes
      ∙ send_command-view view is d lba (sectors size) 0x20 serves.idle
      ∙ wait_ready-view view is fuel device d (ata_select_drive d h) serves.idle serves.clears
      ∙ ata_select_drive-view view is d h in
    (
      out,
      h',
      ata_read_lba28-steps fuel device fired d lba buffer size h sent serves.taken
            (start_command-of fuel device d lba (sectors size) 0x20 h serves.idle serves.clears)
            serves.takes
          ∙ done,
      record {
        words = filled.words ∙ ap (then_words (sectors size * 256) 0 out) quiet;
        fits = filled.fits;
        outside = filled.outside;
      },
      omega arith,
      omega arith,
    )
