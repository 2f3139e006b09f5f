-- ===== src/Pic.antt =====
-- arch/x86/interrupts/pic.c: the two 8259 interrupt controllers.
pub mod Masks
mod Examples
use os_from_scratch.Common.{ℕ, ◌-◌, ◌*◌, ◌^◌, List, ◌∷◌, bit_and, bit_or, ltb, leb, if◌then◌else◌}
use os_from_scratch.Common.Word.{◌<<◌}
use os_from_scratch.Ports.{Event, Device, out_byte, in_byte}

abbrev pub pic1_command : ℕ
pic1_command = 0x20

abbrev pub pic1_data : ℕ
pic1_data = 0x21

abbrev pub pic2_command : ℕ
pic2_command = 0xA0

abbrev pub pic2_data : ℕ
pic2_data = 0xA1

abbrev pub pic_eoi : ℕ
pic_eoi = 0x20

-- ICW1_INIT | ICW1_ICW4, and ICW4_8086.
abbrev pub icw1 : ℕ
icw1 = 0x11

abbrev pub icw4 : ℕ
icw4 = 0x01

unfoldable pub arch_irq_controller_init : Device → ℕ → ℕ → List Event → List Event
arch_irq_controller_init device master_offset slave_offset history =
    let (a1, history1) = in_byte device pic1_data history in
    let (a2, history2) = in_byte device pic2_data history1 in
    let started = out_byte pic2_command icw1 (out_byte pic1_command icw1 history2) in
    let offsets = out_byte pic2_data slave_offset (out_byte pic1_data master_offset started) in
    let cascade = out_byte pic2_data 2 (out_byte pic1_data 4 offsets) in
    let mode = out_byte pic2_data icw4 (out_byte pic1_data icw4 cascade) in
    out_byte pic2_data a2 (out_byte pic1_data a1 mode)

unfoldable pub arch_irq_send_eoi : ℕ → List Event → List Event
arch_irq_send_eoi irq history =
    out_byte pic1_command pic_eoi
      (if leb 8 irq then out_byte pic2_command pic_eoi history else history)

-- The port of the mask that an IRQ has its bit in, and the number of the bit.
abbrev pub mask_port : ℕ → ℕ
mask_port irq = if ltb irq 8 then pic1_data else pic2_data

abbrev pub mask_bit : ℕ → ℕ
mask_bit irq = if ltb irq 8 then irq else irq - 8

unfoldable pub arch_irq_enable : Device → ℕ → List Event → List Event
arch_irq_enable device irq history =
    let (value, history1) = in_byte device (mask_port irq) history in
    out_byte (mask_port irq) (bit_and value (2 ^ 32 - 1 - 2 ^ mask_bit irq)) history1

unfoldable pub arch_irq_disable : Device → ℕ → List Event → List Event
arch_irq_disable device irq history =
    let (value, history1) = in_byte device (mask_port irq) history in
    out_byte (mask_port irq) (bit_or value (1 << mask_bit irq)) history1
