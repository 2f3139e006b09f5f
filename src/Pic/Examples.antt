-- ===== src/Pic/Examples.antt =====
-- Two controllers that start with every line masked.
use os_from_scratch.Common.{refl, [], ◌==◌, if◌then◌else◌}
use os_from_scratch.Ports.{Device}
use os_from_scratch.Pic.{pic1_data, arch_irq_controller_init}
use os_from_scratch.Pic.Masks.{
  Chip, chip, master, slave, IsController, IsProgrammed, arch_irq_controller_init_lem,
}

abbrev all_masked : Chip
all_masked = record { mask = 0xFF; offset = 0; cascade = 0; mode = 0; pending = [] }

abbrev controller : Device
controller history port =
    if port == pic1_data then (master all_masked history).mask else (slave all_masked history).mask

controller-IsController : IsController controller all_masked all_masked
controller-IsController = record { first = λ h idle. refl; second = λ h idle. refl }

arch_irq_controller_init_lem_example :
    IsProgrammed 32 4
      (master all_masked [])
      (master all_masked (arch_irq_controller_init controller 32 40 []))
    × IsProgrammed 40 2
        (slave all_masked [])
        (slave all_masked (arch_irq_controller_init controller 32 40 []))
unfolding chip
arch_irq_controller_init_lem_example =
    arch_irq_controller_init_lem controller all_masked all_masked 32 40 [] controller-IsController
      refl refl
