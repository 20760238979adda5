-- ===== src/InsTests/Tests.antt =====
-- focus_test/driver: the tests in a laboratory whose rdrand succeeds from some try on.
use pcm_test.Base.{ℕ, zero, suc, ◌+◌, ◌-◌, ◌^◌, ◌≡◌, refl, ◌∙◌, true, false, [], ◌∷◌, leb, arith}
use pcm_test.Base.Kernel.{Sys}
use pcm_test.Ioctl.{Cpu, success, magic}
use pcm_test.Ioctl.Gate.{opened, closed}
use pcm_test.Ioctl.FocusTests.{icmp, perform, pcm_cdev_ioctl}
use pcm_test.Ioctl.Tests.{generic_abi, generic_abi-IsIoctlAbi}
use pcm_test.InsTests.{Machine, Driver, rdrand_long, tests}
use pcm_test.InsTests.Random.{after_draws, AllFail, EndsAsDrawn, advanced, rdrand_long_lem}
use pcm_test.InsTests.Held.{IsMachine, perform-left_open}
use pcm_test.InsTests.OnDriver.{logged, rdrand_command-failed}

-- From which try on rdrand succeeds, the tries so far, and the sockets and mappings.
record Lab : Type 0 where
  ready : ℕ
  tries : ℕ
  resources : ℕ

abbrev lab : Machine Lab
lab = record {
  cpuid_eax = λ leaf c. (13, c);
  invd = λ c. (tt, c);
  rdseed = λ c. ((true, 5), c);
  rdrand = λ c. ((leb c.ready c.tries, c.tries), record c { tries = suc c.tries });
  rdpmcl = λ n c. (0, c);
  rdtsc = λ c. (1000, c);
  native_read_tscp = λ c. ((1000, 0), c);
  ioremap = λ a size c. (0xffff_c900_0000_0000, record c { resources = suc c.resources });
  readl = λ a c. (0, c);
  sock_create = λ family type protocol c. ((0, 4096), record c { resources = suc c.resources });
  sock_sendmsg = λ socket m size c. (size, c);
  get_fs = λ c. (0, c);
  set_fs = λ fs c. (tt, c);
  in_aton = λ address. 0x01c7_a8c0;
  header_bytes = λ h. h.type ∷ h.code ∷ 0 ∷ 0 ∷ 0xd2 ∷ 4 ∷ 1 ∷ 0 ∷ [];
  sizeof_icmphdr = 8;
  sizeof_sockaddr_in = 16;
  af_inet = 2;
  sock_dgram = 2;
  ipproto_icmp = 1;
  icmp_echo = 8;
  kernel_ds = 2 ^ 64 - 1;
}

abbrev lab_laws : IsMachine lab
lab_laws = record {
  open_count = λ c. c.resources;
  ioremap-open = λ a size c. refl;
  sock_create-open = λ family type protocol c. refl;
  cpuid_eax-open = λ leaf c. refl;
  invd-open = λ c. refl;
  rdseed-open = λ c. refl;
  rdrand-open = λ c. refl;
  rdpmcl-open = λ n c. refl;
  rdtsc-open = λ c. refl;
  native_read_tscp-open = λ c. refl;
  readl-open = λ a c. refl;
  sock_sendmsg-open = λ socket m size c. refl;
  get_fs-open = λ c. refl;
  set_fs-open = λ fs c. refl;
}

abbrev still : Cpu (Driver Lab)
still = record {
  local_irq_disable = λ d. d;
  local_irq_enable = λ d. d;
  vmcall = λ nr d. d;
  access_ok = λ write arg size d. false;
}

-- A driver whose rdrand succeeds from that try on.
abbrev driver_from : ℕ → Sys (Driver Lab)
driver_from ready = record {
  world = record {
    outer = record { ready = ready; tries = 0; resources = 0 };
    sock = 0;
    addr_in = record { sin_family = 0; sin_port = 0; s_addr = 0 };
    icmp_hdr = record { type = 0; code = 0; checksum = 0; echo_id = 0; sequence = 0 };
    msg = record {
      msg_name = record { sin_family = 0; sin_port = 0; s_addr = 0 };
      msg_namelen = 0;
      msg_control = 0;
      msg_controllen = 0;
      msg_flags = 0;
      msg_iov = record { iov_base = []; iov_len = 0 };
    };
    iov = record { iov_base = []; iov_len = 0 };
    oldfs = 0;
    ret_val = 0;
  };
  log = [];
}

rdrand_long_lem_example : EndsAsDrawn lab 10 77 (driver_from 3) (rdrand_long lab 77 (driver_from 3))
rdrand_long_lem_example = rdrand_long_lem lab 77 (driver_from 3)

perform-left_open_example :
    (perform generic_abi (tests lab 0) icmp (driver_from 0)).1.world.outer.resources ≡ 1 + 0
perform-left_open_example = perform-left_open lab lab_laws generic_abi 0 icmp (driver_from 0)

drawn :
    (k : ℕ) (c : Lab)
    → ((after_draws lab k c).tries ≡ k + c.tries) × ((after_draws lab k c).ready ≡ c.ready)
unfolding after_draws
drawn zero c = (omega arith, refl)
drawn (suc k) c =
    let later = drawn k (record c { tries = suc c.tries }) in (later.0 ∙ omega arith, later.1)

late-AllFail : AllFail lab 10 (driver_from 50).world.outer
late-AllFail k h =
    let later = drawn k (driver_from 50).world.outer in ground (arith, later.0, later.1)

rdrand_command-failed_example :
    pcm_cdev_ioctl generic_abi (tests lab 0) still (generic_abi.io magic 4) 0 (driver_from 50) ≡ (
      success,
      closed still (
          logged lab generic_abi still "get_rdrand=%lx\n" 9
            (advanced lab 10 (opened still (driver_from 50)))),
    )
unfolding after_draws
rdrand_command-failed_example =
    rdrand_command-failed lab generic_abi still 0 0 (driver_from 50) generic_abi-IsIoctlAbi
      late-AllFail
