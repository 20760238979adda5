-- ===== src/UnitDriver/Tests.antt =====
-- pcm-unit/driver: KVMCLOCK_TEST on two processors.
use pcm_test.Base.{◌≡◌, refl, true, false, some, [], inl}
use pcm_test.Base.Int.{pos}
use pcm_test.Base.Kernel.{Sys}
use pcm_test.CycleTest.{TestInfo}
use pcm_test.Ioctl.Tests.{generic_abi, generic_abi-IsIoctlAbi}
use pcm_test.Ioctl.{magic}
use pcm_test.Ioapic.Suite.Tests
use pcm_test.Ioapic.Suite.Tests.{Bench, bench, places}
use pcm_test.UnitDriver.{Hardware, Driver, pcm_cdev_ioctl}
use pcm_test.UnitDriver.Stops.{pcm_cdev_ioctl-stopped}

-- The bench of the interrupt tests, on which the other tests' instructions read 0.
abbrev hardware : Hardware Bench
hardware = record {
  cpu = record {
    local_irq_disable = λ c. c;
    local_irq_enable = λ c. c;
    vmcall = λ nr c. c;
    access_ok = λ write arg size c. true;
  };
  counter = record {
    rdtscll = λ c. (0, c);
    native_write_msr_safe = λ r low high c. (0, c);
    wrmsrl_safe = λ r v c. (0, c);
    rdmsrl_safe = λ r c. ((0, 0), c);
    native_read_tscp = λ c. ((0, 0), c);
    cpuid = λ leaf c. (record { eax = 0; ebx = 0; ecx = 0; edx = 0 }, c);
    msr_ia32_tsc = 0x10;
    msr_tsc_aux = 0xc000_0103;
  };
  msr = record {
    wrmsrl_safe = λ r v c. (0, c);
    rdmsrl_safe = λ r c. ((0, 0), c);
    read_cs = λ c. (16, c);
    read_ss = λ c. (24, c);
    write_ss = λ v c. (tt, c);
    syscall = λ c. (tt, c);
    syscall_target = 0xffff_ffff_a000_3000;
    msr_efer = 0xc000_0080;
    msr_lstar = 0xc000_0082;
    msr_star = 0xc000_0081;
    efer_sce = 1;
  };
  clocks = record {
    num_online_cpus = λ c. (2, c);
    enter = λ i c. (true, c);
    leave = λ c. (tt, c);
    smp_id = λ c. (0, c);
    wrmsrl_safe = λ r v c. (0, c);
    rdtscll = λ c. (0, c);
    read_wallclock = λ i flags c. ((0, 0), c);
    read_clock = λ i flags c. (0, c);
    race = λ n check flags info c. ((record info { ncpus = 0; check = check }, []), c);
    hv_clock = λ i. 0xffff_8800_0000_0000;
    wall_clock = 0xffff_8800_0000_1000;
    msr_kvm_wall_clock_new = 0x4b56_4d00;
    msr_kvm_system_time_new = 0x4b56_4d01;
    pvclock_tsc_stable_bit = 1;
  };
  board = bench;
  addresses = places;
  burst = 3;
  patience = 5;
  starts = λ k. some k;
}

abbrev no_info : TestInfo
no_info = record { warps = 0; stalls = 0; worst = pos 0; last = 0; ncpus = 0; check = 0 }

abbrev idle : Sys (Driver Bench)
idle = record {
  world = record {
    outer = record { pending = []; serving = 0 };
    sec = 0;
    valid_flags = 0;
    ti = λ k. no_info;
    globals = Tests.loaded.globals;
    stopped = false;
  };
  log = [];
}

pcm_cdev_ioctl-stopped_example :
    (pcm_cdev_ioctl hardware 7 generic_abi (generic_abi.io magic 4) 0 idle).1.world.stopped ≡ true
pcm_cdev_ioctl-stopped_example =
    pcm_cdev_ioctl-stopped hardware (λ c. refl) 7 generic_abi 4 0 idle generic_abi-IsIoctlAbi
      (inl refl)
