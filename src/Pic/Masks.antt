-- ===== src/Pic/Masks.antt =====
-- What the set-up of the controllers leaves in them.
use os_from_scratch.Common.{ℕ, ◌≡◌, refl, arith, List, [], ◌∷◌, bit_and, ◌==◌, if◌then◌else◌}
use os_from_scratch.Common.Word.{u8}
use os_from_scratch.Ports.{Event, Device, outb, inb, outw, inw, halt, clear_flag}
use os_from_scratch.Pic.{pic1_command, pic1_data, pic2_command, pic2_data, arch_irq_controller_init}

-- The initialisation words that an 8259 takes at its data port behind ICW1.
pub data Icw : Type 0 where
  icw2 icw3 icw4 : Icw

-- The registers of an 8259, as its data sheet has them: the mask, the vector of its first line, the
-- lines of the cascade, the mode, and the words that it still waits for.
pub record Chip : Type 0 where
  pub mask : ℕ
  pub offset : ℕ
  pub cascade : ℕ
  pub mode : ℕ
  pub pending : List Icw

-- A write to the command port: with bit 4 it is ICW1, which clears the mask, and whose bits 1 and 0
-- say whether ICW3 and ICW4 follow. The other commands leave these registers.
abbrev pub command : ℕ → Chip → Chip
command v c =
    let last = if bit_and v 0x01 == 0 then [] else icw4 ∷ [] in
    if bit_and v 0x10 == 0
    then c
    else record c { mask = 0; pending = icw2 ∷ (if bit_and v 0x02 == 0 then icw3 ∷ last else last) }

-- A write to the data port is the word that the controller waits for, or else the mask.
abbrev pub take : ℕ → List Icw → Chip → Chip
take v [] c = record c { mask = v }
take v (icw2 ∷ rest) c = record c { offset = v; pending = rest }
take v (icw3 ∷ rest) c = record c { cascade = v; pending = rest }
take v (icw4 ∷ rest) c = record c { mode = v; pending = rest }

-- The controller behind two ports after the events of a history.
unfoldable pub chip : ℕ → ℕ → Chip → List Event → Chip
chip command_port data_port start [] = start
chip command_port data_port start (outb p v ∷ h) =
    let c = chip command_port data_port start h in
    if p == command_port then command v c else if p == data_port then take v c.pending c else c
chip command_port data_port start (inb p v ∷ h) = chip command_port data_port start h
chip command_port data_port start (outw p v ∷ h) = chip command_port data_port start h
chip command_port data_port start (inw p v ∷ h) = chip command_port data_port start h
chip command_port data_port start (halt ∷ h) = chip command_port data_port start h
chip command_port data_port start (clear_flag ∷ h) = chip command_port data_port start h

abbrev pub master : Chip → List Event → Chip
master start h = chip pic1_command pic1_data start h

abbrev pub slave : Chip → List Event → Chip
slave start h = chip pic2_command pic2_data start h

-- The devices at the ports are two 8259 that are `m` and `s` at the start: a read of a data port
-- gives the mask, when the controller does not wait for a word of its initialisation.
pub record IsController (device : Device) (m s : Chip) : Type 0 where
  pub first :
      (h : List Event) → (master m h).pending ≡ [] → u8 (device h pic1_data) ≡ u8 (master m h).mask
  pub second :
      (h : List Event) → (slave s h).pending ≡ [] → u8 (device h pic2_data) ≡ u8 (slave s h).mask

-- A controller runs with the given first vector and cascade, in the mode of the 8086, and with the
-- mask of before.
pub record IsProgrammed (offset cascade : ℕ) (before after : Chip) : Type 0 where
  pub vector : after.offset ≡ u8 offset
  pub wired : after.cascade ≡ cascade
  pub mode : after.mode ≡ 1
  pub running : after.pending ≡ []
  pub mask : u8 after.mask ≡ u8 before.mask

-- On two 8259 that do not wait for a word of an initialisation, `arch_irq_controller_init` gives each
-- its first vector, wires the slave to line 2 of the master, sets the mode of the 8086, and leaves
-- both running with the masks that they had, although the initialisation clears them.
pub arch_irq_controller_init_lem :
    (device : Device) (m s : Chip) (master_offset slave_offset : ℕ) (h : List Event)
    → IsController device m s
    → (master m h).pending ≡ []
    → (slave s h).pending ≡ []
    → IsProgrammed master_offset 4
        (master m h)
        (master m (arch_irq_controller_init device master_offset slave_offset h))
      × IsProgrammed slave_offset 2
          (slave s h)
          (slave s (arch_irq_controller_init device master_offset slave_offset h))
unfolding arch_irq_controller_init chip
arch_irq_controller_init_lem device m s master_offset slave_offset h is idle1 idle2 = (
  record {
    vector = refl;
    wired = refl;
    mode = refl;
    running = refl;
    mask = omega (arith, is.first h idle1);
  },
  record {
    vector = refl;
    wired = refl;
    mode = refl;
    running = refl;
    mask = omega (arith, is.second (inb pic1_data (u8 (device h pic1_data)) ∷ h) idle2);
  },
)
