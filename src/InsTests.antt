-- ===== src/InsTests.antt =====
-- focus_test/driver: the tests of single instructions and of the network that the driver's commands
-- run, cpuid.c to icmp.c, and the variables of icmp.c.
pub mod Random
pub mod Held
pub mod OnDriver
mod Tests
use pcm_test.Base.{
  ℕ, zero, suc, ◌+◌, ◌^◌, Bool, true, false, String, List, [], ◌∷◌, ◌++◌, if◌then◌else◌, leb,
}
use pcm_test.Base.Kernel.{M, pure, ◌>>=◌, ◌>>◌, printk, outside}
use pcm_test.Ioctl.FocusTests

pub record SockaddrIn : Type 0 where
  pub sin_family : ℕ
  pub sin_port : ℕ
  pub s_addr : ℕ

-- The members of an ICMP header of an echo.
pub record Icmphdr : Type 0 where
  pub type : ℕ
  pub code : ℕ
  pub checksum : ℕ
  pub echo_id : ℕ
  pub sequence : ℕ

pub record Iovec : Type 0 where
  pub iov_base : List ℕ
  pub iov_len : ℕ

-- A message with what its pointers lead to; `msg_control` is an address.
pub record Msghdr : Type 0 where
  pub msg_name : SockaddrIn
  pub msg_namelen : ℕ
  pub msg_control : ℕ
  pub msg_controllen : ℕ
  pub msg_flags : ℕ
  pub msg_iov : Iovec

-- The instructions and the kernel's functions. rdrand and rdseed give the carry flag and rax. An int
-- is a 32-bit pattern. sock_create gives a socket beside its result, which a failure leaves unused.
-- `header_bytes` is an Icmphdr in memory, `sizeof_icmphdr` long.
pub record Machine (C : Type 0) : Type 0 where
  pub cpuid_eax : ℕ → C → ℕ × C
  pub invd : C → Unit {0} × C
  pub rdseed : C → (Bool × ℕ) × C
  pub rdrand : C → (Bool × ℕ) × C
  pub rdpmcl : ℕ → C → ℕ × C
  pub rdtsc : C → ℕ × C
  pub native_read_tscp : C → (ℕ × ℕ) × C
  pub ioremap : ℕ → ℕ → C → ℕ × C
  pub readl : ℕ → C → ℕ × C
  pub sock_create : ℕ → ℕ → ℕ → C → (ℕ × ℕ) × C
  pub sock_sendmsg : ℕ → Msghdr → ℕ → C → ℕ × C
  pub get_fs : C → ℕ × C
  pub set_fs : ℕ → C → Unit {0} × C
  pub in_aton : String → ℕ
  pub header_bytes : Icmphdr → List ℕ
  pub sizeof_icmphdr : ℕ
  pub sizeof_sockaddr_in : ℕ
  pub af_inet : ℕ
  pub sock_dgram : ℕ
  pub ipproto_icmp : ℕ
  pub icmp_echo : ℕ
  pub kernel_ds : ℕ

-- The world of the driver: what is outside, and the variables of icmp.c.
pub record Driver (C : Type 0) : Type 0 where
  pub outer : C
  pub sock : ℕ
  pub addr_in : SockaddrIn
  pub icmp_hdr : Icmphdr
  pub msg : Msghdr
  pub iov : Iovec
  pub oldfs : ℕ
  pub ret_val : ℕ

-- `RDRAND_RETRY_LOOPS`
abbrev pub rdrand_retry_loops : ℕ
rdrand_retry_loops = 10

module _ {C : Type 0} (x : Machine C) where
  abbrev pub call : {A : Type 0} → (C → A × C) → M (Driver C) A
  call f = outside (λ d. ((f d.outer).0, record d { outer = (f d.outer).1 }))

  abbrev pub modify : (Driver C → Driver C) → M (Driver C) (Unit {0})
  modify f = outside (λ d. (tt, f d))

  abbrev pub fetch : {A : Type 0} → (Driver C → A) → M (Driver C) A
  fetch f = outside (λ d. (f d, d))

  pub cpuid_test : M (Driver C) (Unit {0})
  cpuid_test = do eax ← call (x.cpuid_eax 0); pure tt

  pub invd_test : M (Driver C) (Unit {0})
  invd_test = call x.invd

  pub rdseed_long : M (Driver C) (Bool × ℕ)
  rdseed_long = call x.rdseed

  pub rdseed_test : M (Driver C) (Unit {0})
  rdseed_test = do r ← rdseed_long; printk "get_rdseed=%lx\n" (r.1 ∷ [])

  -- The rounds that are left of the loop; `v` is what the caller's variable holds.
  pub rdrand_rounds : ℕ → ℕ → M (Driver C) (Bool × ℕ)
  rdrand_rounds zero v = pure (false, v)
  rdrand_rounds (suc retry) v = do
    r ← call x.rdrand
    let rest = rdrand_rounds retry r.1
    if r.0 then pure (true, r.1) else rest

  pub rdrand_long : ℕ → M (Driver C) (Bool × ℕ)
  rdrand_long = rdrand_rounds rdrand_retry_loops

  -- `v` is what the variable holds before it is set.
  pub rdrand_test : ℕ → M (Driver C) (Unit {0})
  rdrand_test v = do r ← rdrand_long v; printk "get_rdrand=%lx\n" (r.1 ∷ [])

  pub rdpmc_test : M (Driver C) (Unit {0})
  rdpmc_test = do val ← call (x.rdpmcl 0); pure tt

  pub rdtsc_test : M (Driver C) (Unit {0})
  rdtsc_test = do val ← call x.rdtsc; printk "rdtsc=%llx\n" (val ∷ [])

  pub rdtscp_test : M (Driver C) (Unit {0})
  rdtscp_test = do r ← call x.native_read_tscp; printk "rdtscp=%llx\n" (r.0 ∷ [])

  pub pio_test : M (Driver C) (Unit {0})
  pio_test = printk "disabled pio case, revisit later %d%d%d%d" (0 ∷ 2 ∷ 0 ∷ 0 ∷ [])

  pub mmio_test : M (Driver C) (Unit {0})
  mmio_test = do addr ← call (x.ioremap 0xfebc_0000 4); value ← call (x.readl addr); pure tt

  -- The text that follows the header.
  abbrev pub hello : List ℕ
  hello = b'h' ∷ b'e' ∷ b'l' ∷ b'l' ∷ b'o' ∷ []

  abbrev pub echo_request : Icmphdr
  echo_request = record { type = x.icmp_echo; code = 0; checksum = 0; echo_id = 1234; sequence = 1 }

  -- The message of `icmp_test`, from the variables that it sets.
  abbrev pub filled : Driver C → Driver C
  filled d =
      let addr : SockaddrIn = record d.addr_in {
        sin_family = x.af_inet;
        s_addr = x.in_aton "192.168.199.1";
      } in
      let iov : Iovec = record {
        iov_base = x.header_bytes echo_request ++ hello;
        iov_len = x.sizeof_icmphdr + 5;
      } in
      record d {
        addr_in = addr;
        icmp_hdr = echo_request;
        iov = iov;
        msg = record d.msg {
          msg_name = addr;
          msg_namelen = x.sizeof_sockaddr_in;
          msg_control = 0;
          msg_controllen = 0;
          msg_iov = iov;
        };
      }

  -- The rest of `icmp_test` when it has its socket.
  pub send_echo : M (Driver C) (Unit {0})
  send_echo = do
    modify filled
    old ← call x.get_fs
    modify (λ d. record d { oldfs = old })
    call (x.set_fs x.kernel_ds)
    d ← fetch (λ d. d)
    sent ← call (x.sock_sendmsg d.sock d.msg (x.sizeof_icmphdr + 5))
    call (x.set_fs d.oldfs)

  abbrev pub socket_created : ℕ × ℕ → Driver C → Driver C
  socket_created r d =
      if leb (2 ^ 31) r.0
      then record d { ret_val = r.0 }
      else record d { ret_val = r.0; sock = r.1 }

  pub icmp_test : M (Driver C) (Unit {0})
  icmp_test = do
    r ← call (x.sock_create x.af_inet x.sock_dgram x.ipproto_icmp)
    modify (socket_created r)
    if leb (2 ^ 31) r.0 then printk "Create socket for ICMP failed.%d\n" (r.0 ∷ []) else send_echo

  -- The tests as the driver's handler has them; `v` is the variable of `rdrand_test`.
  abbrev pub tests : ℕ → FocusTests.Tests (Driver C)
  tests v = record {
    cpuid_test = cpuid_test;
    invd_test = invd_test;
    rdseed_test = rdseed_test;
    rdrand_test = rdrand_test v;
    rdpmc_test = rdpmc_test;
    rdtsc_test = rdtsc_test;
    rdtscp_test = rdtscp_test;
    pio_test = pio_test;
    mmio_test = mmio_test;
    icmp_test = icmp_test;
  }
