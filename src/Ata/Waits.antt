-- ===== src/Ata/Waits.antt =====
-- The words that go over the data port, which no wait reads or writes.
use os_from_scratch.Common.{
  ℕ, zero, suc, ◌+◌, ◌≤◌, ◌<◌, ◌≡◌, refl, ◌∙◌, arith, Bool, List, [], ◌∷◌, Option, none, some,
  bit_and, not, ◌&&◌, ◌==◌, Bool-cases, inl, inr, if◌then◌else◌,
}
use os_from_scratch.Common.Word.{u8, u16}
use os_from_scratch.Ports.{Event, Device, outb, inb, outw, inw, halt, clear_flag}
use os_from_scratch.Ata.{
  AtaDevice, Wait, ready, failed, out_of_fuel, wait_ready, wait_irq, wait_drq, ata_select_drive,
  set_registers, send_command, start_command,
}
use os_from_scratch.Ata.Identify.{wait_data}

-- The words that went out over a port, the latest first.
unfoldable pub sent : ℕ → List Event → List ℕ
sent port [] = []
sent port (outw p v ∷ h) = let rest = sent port h in if p == port then v ∷ rest else rest
sent port (outb p v ∷ h) = sent port h
sent port (inb p v ∷ h) = sent port h
sent port (inw p v ∷ h) = sent port h
sent port (halt ∷ h) = sent port h
sent port (clear_flag ∷ h) = sent port h

-- The words that the device gave at the reads of a port, the latest first: each one is the answer
-- to the history up to its read.
unfoldable pub gave : Device → ℕ → List Event → List ℕ
gave device port [] = []
gave device port (inw p v ∷ h) =
    let rest = gave device port h in if p == port then u16 (device h port) ∷ rest else rest
gave device port (outb p v ∷ h) = gave device port h
gave device port (inb p v ∷ h) = gave device port h
gave device port (outw p v ∷ h) = gave device port h
gave device port (halt ∷ h) = gave device port h
gave device port (clear_flag ∷ h) = gave device port h

-- The `n` words of the buffer from the word `k` on, in their order, after `before`.
unfoldable pub then_words : ℕ → ℕ → (ℕ → ℕ) → List ℕ → List ℕ
then_words zero k buffer before = before
then_words (suc n) k buffer before = then_words n (k + 1) buffer (u16 (buffer k) ∷ before)

pub then_words-add :
    (m n k : ℕ) (buffer : ℕ → ℕ) (before : List ℕ)
    → then_words (m + n) k buffer before
      ≡ then_words n (k + m) buffer (then_words m k buffer before)
unfolding then_words
then_words-add zero n k buffer before =
    let e : zero + n ≡ n = omega arith in let f : k + zero ≡ k = omega arith in rw (e, f) refl
then_words-add (suc m) n k buffer before =
    let e : suc m + n ≡ suc (m + n) = omega arith in
    let f : k + suc m ≡ k + 1 + m = omega arith in
    rw (e, f) (then_words-add m n (k + 1) buffer (u16 (buffer k) ∷ before))

pub then_words-same :
    (n k : ℕ) (a b : ℕ → ℕ) (before : List ℕ)
    → ((j : ℕ) → k ≤ j → j < k + n → a j ≡ b j)
    → then_words n k a before ≡ then_words n k b before
unfolding then_words
then_words-same zero k a b before same = refl
then_words-same (suc n) k a b before same = rw (same k (omega arith) (omega arith)) (
    then_words-same n (k + 1) a b (u16 (b k) ∷ before)
      (λ j p q. same j (omega arith) (omega arith)))

-- A view of the history that bytes and waits do not change.
pub record Overlooks (view : List Event → List ℕ) : Type 0 where
  pub outbs : (p v : ℕ) (h : List Event) → view (outb p v ∷ h) ≡ view h
  pub inbs : (p v : ℕ) (h : List Event) → view (inb p v ∷ h) ≡ view h
  pub halts : (h : List Event) → view (halt ∷ h) ≡ view h
  pub clears : (h : List Event) → view (clear_flag ∷ h) ≡ view h

pub sent-Overlooks : (port : ℕ) → Overlooks (sent port)
unfolding sent
sent-Overlooks port = record {
  outbs = λ p v h. refl;
  inbs = λ p v h. refl;
  halts = λ h. refl;
  clears = λ h. refl;
}

pub gave-Overlooks : (device : Device) (port : ℕ) → Overlooks (gave device port)
unfolding gave
gave-Overlooks device port = record {
  outbs = λ p v h. refl;
  inbs = λ p v h. refl;
  halts = λ h. refl;
  clears = λ h. refl;
}

-- The history behind a wait, or `h0` where it did not end.
ended : List Event → Option (List Event) → List Event
ended h0 none = h0
ended h0 (some h) = h

stopped : List Event → Wait → List Event
stopped h0 (ready h) = h
stopped h0 (failed h) = h
stopped h0 out_of_fuel = h0

module _ (view : List Event → List ℕ) (is : Overlooks view) where
  irq_ended :
      (fuel : ℕ) (fired : List Event → Bool) (h0 h : List Event)
      → view h ≡ view h0
      → view (ended h0 (wait_irq fuel fired h)) ≡ view h0
  unfolding wait_irq ended
  irq_ended zero fired h0 h e = refl
  irq_ended (suc fuel) fired h0 h e = elim (Bool-cases (fired h)) [
    | inl now ↦ rw now (is.clears h ∙ e)
    | inr later ↦ rw later (irq_ended fuel fired h0 (halt ∷ h) (is.halts h ∙ e))
  ]

  ready_ended :
      (fuel : ℕ) (device : Device) (d : AtaDevice) (h0 h : List Event)
      → view h ≡ view h0
      → view (ended h0 (wait_ready fuel device d h)) ≡ view h0
  unfolding wait_ready ended
  ready_ended zero device d h0 h e = refl
  ready_ended (suc fuel) device d h0 h e =
      let status = u8 (device h (d.base + 7)) in
      elim (Bool-cases (bit_and status 0x80 == 0)) [
        | inl now ↦ rw now (is.inbs _ _ h ∙ e)
        | inr later ↦
            rw later
              (ready_ended fuel device d h0 (inb (d.base + 7) status ∷ h) (is.inbs _ _ h ∙ e))
      ]

  data_ended :
      (fuel : ℕ) (device : Device) (d : AtaDevice) (h0 h : List Event)
      → view h ≡ view h0
      → view (ended h0 (wait_data fuel device d h)) ≡ view h0
  unfolding wait_data ended
  data_ended zero device d h0 h e = refl
  data_ended (suc fuel) device d h0 h e =
      let status = u8 (device h (d.base + 7)) in
      let h1 = inb (d.base + 7) status ∷ h in
      let again = u8 (device h1 (d.base + 7)) in
      let e1 = is.inbs (d.base + 7) status h ∙ e in
      let e2 = is.inbs (d.base + 7) again h1 ∙ e1 in
      elim (Bool-cases (bit_and status 0x08 == 0)) [
        | inr asked ↦ rw asked e1
        | inl idle ↦ elim (Bool-cases (bit_and again 0x01 == 0)) [
          | inr wrong ↦ rw (idle, wrong) e2
          | inl fine ↦
              rw (idle, fine) (data_ended fuel device d h0 (inb (d.base + 7) again ∷ h1) e2)
        ]
      ]

  drq_stopped :
      (fuel : ℕ) (device : Device) (d : AtaDevice) (h0 h : List Event)
      → view h ≡ view h0
      → view (stopped h0 (wait_drq fuel device d h)) ≡ view h0
  unfolding wait_drq stopped
  drq_stopped zero device d h0 h e = refl
  drq_stopped (suc fuel) device d h0 h e =
      let status = u8 (device h (d.base + 7)) in
      let e1 = is.inbs (d.base + 7) status h ∙ e in
      elim (Bool-cases (bit_and status 0x01 == 0)) [
        | inl fine ↦
            elim (Bool-cases (bit_and status 0x80 == 0 && not (bit_and status 0x08 == 0))) [
              | inl now ↦ rw (fine, now) e1
              | inr later ↦
                  rw (fine, later) (drq_stopped fuel device d h0 (inb (d.base + 7) status ∷ h) e1)
            ]
        | inr wrong ↦ rw wrong e1
      ]

  pub wait_irq-view :
      (fuel : ℕ) (fired : List Event → Bool) (h h' : List Event)
      → wait_irq fuel fired h ≡ some h'
      → view h' ≡ view h
  unfolding ended
  wait_irq-view fuel fired h h' e = rw e at (irq_ended fuel fired h h refl)

  pub wait_ready-view :
      (fuel : ℕ) (device : Device) (d : AtaDevice) (h h' : List Event)
      → wait_ready fuel device d h ≡ some h'
      → view h' ≡ view h
  unfolding ended
  wait_ready-view fuel device d h h' e = rw e at (ready_ended fuel device d h h refl)

  pub wait_data-view :
      (fuel : ℕ) (device : Device) (d : AtaDevice) (h h' : List Event)
      → wait_data fuel device d h ≡ some h'
      → view h' ≡ view h
  unfolding ended
  wait_data-view fuel device d h h' e = rw e at (data_ended fuel device d h h refl)

  pub wait_drq-ready :
      (fuel : ℕ) (device : Device) (d : AtaDevice) (h h' : List Event)
      → wait_drq fuel device d h ≡ ready h'
      → view h' ≡ view h
  unfolding stopped
  wait_drq-ready fuel device d h h' e = rw e at (drq_stopped fuel device d h h refl)

  pub wait_drq-failed :
      (fuel : ℕ) (device : Device) (d : AtaDevice) (h h' : List Event)
      → wait_drq fuel device d h ≡ failed h'
      → view h' ≡ view h
  unfolding stopped
  wait_drq-failed fuel device d h h' e = rw e at (drq_stopped fuel device d h h refl)

  pub ata_select_drive-view :
      (d : AtaDevice) (h : List Event) → view (ata_select_drive d h) ≡ view h
  unfolding ata_select_drive
  ata_select_drive-view d h = elim (Bool-cases (d.slave == 0)) [
    | inl master ↦ rw master (is.outbs _ _ h)
    | inr slave ↦ rw slave (is.outbs _ _ h)
  ]

  pub send_command-view :
      (d : AtaDevice) (lba count command : ℕ) (h : List Event)
      → view (send_command d lba count command h) ≡ view h
  unfolding send_command set_registers
  send_command-view d lba count command h =
      is.outbs _ _ _
      ∙ is.clears _
      ∙ is.outbs _ _ _
      ∙ is.outbs _ _ _
      ∙ is.outbs _ _ _
      ∙ is.outbs _ _ _
      ∙ is.outbs _ _ _

-- A command goes out when the wait for BSY to clear ends.
pub start_command-of :
    (fuel : ℕ) (device : Device) (d : AtaDevice) (lba count command : ℕ) (h idle : List Event)
    → wait_ready fuel device d (ata_select_drive d h) ≡ some idle
    → start_command fuel device d lba count command h ≡ some (send_command d lba count command idle)
unfolding start_command
start_command-of fuel device d lba count command h idle e = rw (start_command, e) refl
