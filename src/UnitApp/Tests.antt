-- ===== src/UnitApp/Tests.antt =====
-- The program on the driver, with the processor of tsc.c's tests.
use pcm_test.Base.{ℕ, ◌≡◌, refl, some, true, ◌+◌, [], ◌∷◌, ◌++◌}
use pcm_test.Base.Kernel.{Sys, M}
use pcm_test.Ioctl.{Cpu, Status}
use pcm_test.Ioctl.Gate.{opened, closed, entered}
use pcm_test.Ioctl.UnitTests.{Tests, pcm_cdev_ioctl}
use pcm_test.Ioctl.Tests.{generic_abi, generic_abi-IsIoctlAbi}
use pcm_test.GuestApp.{SystemCalls}
use pcm_test.GuestApp.OnDriver.{Routes, returned_status}
use pcm_test.TimeStamp.{test_tsc}
use pcm_test.TimeStamp.Tests.{Chip, chip, chip_laws, chip_aux}
use pcm_test.TimeStamp.Written.{six_lines}
use pcm_test.UnitApp.{main}
use pcm_test.UnitApp.OnDriver.{tests, main-lines}

abbrev nothing : M Chip (Unit {0})
nothing s = (tt, s)

abbrev others : Tests Chip
others = record {
  test_tsc = nothing;
  test_setjmp = nothing;
  test_msr = nothing;
  test_kvm_clock = nothing;
  test_ioapic = nothing;
  test_tsc_adjust = nothing;
}

-- A hypercall takes 300 units of time.
abbrev chip_cpu : Cpu Chip
chip_cpu = record {
  local_irq_disable = λ c. c;
  local_irq_enable = λ c. c;
  vmcall = λ nr c. record { time = c.time + 300; ahead = c.ahead; aux = c.aux };
  access_ok = λ write arg size c. true;
}

abbrev handler : ℕ → M Chip Status
handler cmd =
    pcm_cdev_ioctl generic_abi (tests generic_abi others chip_cpu chip chip_laws chip_aux) chip_cpu
      cmd 0

abbrev host : SystemCalls (Sys Chip)
host = record {
  open_file = λ name s. (some 3, s);
  ioctl = λ fd cmd s. (returned_status (handler cmd s).0, (handler cmd s).1);
  close = λ fd s. entered s;  -- pcm_cdev_release
}

host-Routes : Routes host 3 (λ s. s) handler
host-Routes = record { open_file-device = λ s. refl; ioctl-handler = λ cmd s. refl }

abbrev idle : Sys Chip
idle = record { world = record { time = 5000; ahead = 0; aux = 7 }; log = [] }

main-lines_example :
    (main generic_abi host idle
      ≡ (0, entered (closed chip_cpu (test_tsc chip (opened chip_cpu idle)).1)))
    × ((main generic_abi host idle).1.log
        ≡ six_lines chip chip_laws chip_aux
            (record { format = "%s()\n"; values = [] } ∷ [])
            (record { time = 5300; ahead = 0; aux = 7 })
          ++ record { format = "%s()\n"; values = [] } ∷ [])
main-lines_example =
    main-lines generic_abi others chip_cpu chip chip_laws chip_aux host 3 0 (λ s. s) idle
      generic_abi-IsIoctlAbi host-Routes (λ k. refl)
