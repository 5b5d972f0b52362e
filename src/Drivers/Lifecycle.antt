-- ===== src/Drivers/Lifecycle.antt =====
-- Starting and stopping the driver of mvp/src/fpga/fpga_driver.cpp.
use low_latency_hft_matching.Base.{◌≡◌, refl, List, [], ◌∷◌, Bool, arith}
use low_latency_hft_matching.Drivers.{FpgaDriver, new_fpga, start_fpga, stop_fpga}

-- A call, with what the build has and what `open`, `fstat` and `mmap` answer.
pub data Call : Type 0 where
  starts : Bool → Bool → Bool → Bool → Call
  stops : Call

unfoldable pub apply : Call → FpgaDriver → FpgaDriver
apply (starts native opens sized maps) d = (start_fpga native opens sized maps d).1
apply stops d = stop_fpga d

unfoldable pub apply_all : List Call → FpgaDriver → FpgaDriver
apply_all [] d = d
apply_all (c ∷ cs) d = apply_all cs (apply c d)

-- The device is open and mapped while the driver runs, and only then.
abbrev pub Holds : FpgaDriver → Type 0
Holds d = (d.fd_open ≡ d.running) × (d.mapped ≡ d.running)

apply-Holds : (c : Call) (d : FpgaDriver) → Holds d → Holds (apply c d)
unfolding apply start_fpga stop_fpga
apply-Holds (starts native opens sized maps) d h = ground arith
apply-Holds stops d h = ground arith

apply_all-Holds : (cs : List Call) (d : FpgaDriver) → Holds d → Holds (apply_all cs d)
unfolding apply_all
apply_all-Holds [] d h = h
apply_all-Holds (c ∷ cs) d h = apply_all-Holds cs (apply c d) (apply-Holds c d h)

-- Whatever calls of `start` and `stop` are made, and whatever the system answers, the device is open
-- and its memory mapped exactly while the driver runs: no failed start leaks either of them.
pub apply_all-new_fpga : (cs : List Call) → Holds (apply_all cs new_fpga)
unfolding new_fpga
apply_all-new_fpga cs = apply_all-Holds cs new_fpga (refl, refl)
