-- ===== src/InsTests/Held.antt =====
-- focus_test/driver: what the tests leave open, sockets and mappings.
use pcm_test.Base.{
  ℕ, zero, suc, ◌+◌, ◌^◌, ◌≡◌, refl, ◌∙◌, Bool, true, false, Bool-cases, inl, inr, ◌==◌, leb,
  if◌then◌else◌, arith,
}
use pcm_test.Base.Kernel.{Sys}
use pcm_test.Ioctl.Abi.{IoctlAbi}
use pcm_test.Ioctl.FocusTests.{
  Test, cpuid, invd, rdseed, rdrand, rdpmc, rdtsc, rdtscp, pio, mmio, icmp, perform,
}
use pcm_test.InsTests.{
  Machine, Driver, Msghdr, rdrand_retry_loops, cpuid_test, invd_test, rdseed_long, rdseed_test,
  rdrand_rounds, rdrand_long, rdrand_test, rdpmc_test, rdtsc_test, rdtscp_test, pio_test, mmio_test,
  send_echo, icmp_test, tests,
}

-- What the kernel documents, with `open_count` for the sockets and the mappings that exist: ioremap
-- adds a mapping unless it gives 0, sock_create a socket unless its result is negative, and nothing
-- else that the tests call adds or removes one.
pub record IsMachine {C : Type 0} (x : Machine C) : Type 0 where
  pub open_count : C → ℕ
  pub ioremap-open :
      (a size : ℕ) (c : C)
      → open_count (x.ioremap a size c).1
        ≡ (if (x.ioremap a size c).0 == 0 then open_count c else suc (open_count c))
  pub sock_create-open :
      (family type protocol : ℕ) (c : C)
      → open_count (x.sock_create family type protocol c).1 ≡ (
          if leb (2 ^ 31) (x.sock_create family type protocol c).0.0
          then open_count c
          else suc (open_count c))
  pub cpuid_eax-open : (leaf : ℕ) (c : C) → open_count (x.cpuid_eax leaf c).1 ≡ open_count c
  pub invd-open : (c : C) → open_count (x.invd c).1 ≡ open_count c
  pub rdseed-open : (c : C) → open_count (x.rdseed c).1 ≡ open_count c
  pub rdrand-open : (c : C) → open_count (x.rdrand c).1 ≡ open_count c
  pub rdpmcl-open : (n : ℕ) (c : C) → open_count (x.rdpmcl n c).1 ≡ open_count c
  pub rdtsc-open : (c : C) → open_count (x.rdtsc c).1 ≡ open_count c
  pub native_read_tscp-open : (c : C) → open_count (x.native_read_tscp c).1 ≡ open_count c
  pub readl-open : (a : ℕ) (c : C) → open_count (x.readl a c).1 ≡ open_count c
  pub sock_sendmsg-open :
      (socket : ℕ) (m : Msghdr) (size : ℕ) (c : C)
      → open_count (x.sock_sendmsg socket m size c).1 ≡ open_count c
  pub get_fs-open : (c : C) → open_count (x.get_fs c).1 ≡ open_count c
  pub set_fs-open : (fs : ℕ) (c : C) → open_count (x.set_fs fs c).1 ≡ open_count c

module _ {C : Type 0} (x : Machine C) (d : IsMachine x) where
  open d use {
    open_count, ioremap-open, sock_create-open, cpuid_eax-open, invd-open, rdseed-open, rdrand-open,
    rdpmcl-open, rdtsc-open, native_read_tscp-open, readl-open, sock_sendmsg-open, get_fs-open,
    set_fs-open,
  }

  abbrev level : Sys (Driver C) → ℕ
  level s = open_count s.world.outer

  -- What a test adds to what is open.
  abbrev pub left_open : Test → C → ℕ
  left_open mmio c = if (x.ioremap 0xfebc_0000 4 c).0 == 0 then 0 else 1
  left_open icmp c =
      if leb (2 ^ 31) (x.sock_create x.af_inet x.sock_dgram x.ipproto_icmp c).0.0 then 0 else 1
  left_open _ c = 0

  rounds-open : (retry v : ℕ) (s : Sys (Driver C)) → level (rdrand_rounds x retry v s).1 ≡ level s
  unfolding rdrand_rounds
  rounds-open zero v s = refl
  rounds-open (suc retry) v s = elim (Bool-cases (x.rdrand s.world.outer).0.0) [
    | inl ok ↦ rw ok (rdrand-open s.world.outer)
    | inr fails ↦ rw fails (rounds-open retry _ _ ∙ rdrand-open s.world.outer)
  ]

  echo-open : (s : Sys (Driver C)) → level (send_echo x s).1 ≡ level s
  unfolding send_echo
  echo-open s =
      set_fs-open _ _ ∙ sock_sendmsg-open _ _ _ _ ∙ set_fs-open _ _ ∙ get_fs-open s.world.outer

  -- `icmp_test` changes nothing after its socket.
  icmp-open :
      (s : Sys (Driver C))
      → level (icmp_test x s).1
        ≡ open_count (x.sock_create x.af_inet x.sock_dgram x.ipproto_icmp s.world.outer).1
  unfolding icmp_test
  icmp-open s =
      elim (Bool-cases
        (leb (2 ^ 31) (x.sock_create x.af_inet x.sock_dgram x.ipproto_icmp s.world.outer).0.0)) [
          | inl failed ↦ rw failed refl
          | inr created ↦ rw created (echo-open _)
        ]

  added : (b : Bool) {m : ℕ} (n : ℕ) → m ≡ (if b then n else suc n) → m ≡ (if b then 0 else 1) + n
  added true n e = omega arith
  added false n e = omega arith

  unchanged : {m n : ℕ} → m ≡ n → m ≡ 0 + n
  unchanged e = omega arith

  -- A test leaves open what was open before it, and besides a mapping if it is mmio_test and ioremap
  -- gave one, and a socket if it is icmp_test and sock_create gave one.
  pub perform-left_open :
      (abi : IoctlAbi) (v : ℕ) (t : Test) (s : Sys (Driver C))
      → open_count (perform abi (tests x v) t s).1.world.outer
        ≡ left_open t s.world.outer + open_count s.world.outer
  unfolding cpuid_test invd_test rdseed_long rdseed_test rdrand_long rdrand_test rdpmc_test
      rdtsc_test rdtscp_test pio_test mmio_test icmp_test
  perform-left_open abi v cpuid s = unchanged (cpuid_eax-open 0 s.world.outer)
  perform-left_open abi v invd s = unchanged (invd-open s.world.outer)
  perform-left_open abi v rdseed s = unchanged (rdseed-open s.world.outer)
  perform-left_open abi v rdrand s = unchanged (rounds-open rdrand_retry_loops v s)
  perform-left_open abi v rdpmc s = unchanged (rdpmcl-open 0 s.world.outer)
  perform-left_open abi v rdtsc s = unchanged (rdtsc-open s.world.outer)
  perform-left_open abi v rdtscp s = unchanged (native_read_tscp-open s.world.outer)
  perform-left_open abi v pio s = unchanged refl
  perform-left_open abi v mmio s =
      added _ _ (readl-open _ _ ∙ ioremap-open 0xfebc_0000 4 s.world.outer)
  perform-left_open abi v icmp s =
      added _ _ (icmp-open s ∙ sock_create-open x.af_inet x.sock_dgram x.ipproto_icmp s.world.outer)
