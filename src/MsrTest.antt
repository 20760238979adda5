-- ===== src/MsrTest.antt =====
-- pcm-unit/driver/msr.c: the test of model-specific registers, with the branch of __x86_64__.
pub mod Laws
pub mod Keeps
mod Tests
use pcm_test.Base.{
  ℕ, zero, suc, ◌+◌, ◌/◌, ◌%◌, ◌^◌, String, List, [], ◌∷◌, Option, none, some, ◌==◌, not, bit_or,
  if◌then◌else◌,
}
use Prim.Native.String.{◌++◌}
use pcm_test.Base.Kernel.{M, Sys, pure, ◌>>=◌, ◌>>◌, printk, outside}

pub record MsrRwInfo : Type 0 where
  pub index : ℕ
  pub name : String
  pub value : ℕ
  pub expected : ℕ

abbrev info : ℕ → String → ℕ → ℕ → MsrRwInfo
info i n v e = record { index = i; name = n; value = v; expected = e }

abbrev addr_64 : ℕ
addr_64 = 0x0000123456789abc

abbrev pub msr_info : List MsrRwInfo
msr_info =
    info 0x00000174 "IA32_SYSENTER_CS" 0x1234 0x1234
    ∷ info 0x00000175 "MSR_IA32_SYSENTER_ESP" addr_64 addr_64
    ∷ info 0x00000176 "IA32_SYSENTER_EIP" addr_64 addr_64
    ∷ info 0x000001a0 "MSR_IA32_MISC_ENABLE" 0x400c51889 0x400c51889
    ∷ info 0x00000277 "MSR_IA32_CR_PAT" 0x07070707 0x07070707
    ∷ info 0xc0000100 "MSR_FS_BASE" addr_64 addr_64
    ∷ info 0xc0000101 "MSR_GS_BASE" addr_64 addr_64
    ∷ info 0xc0000102 "MSR_KERNEL_GS_BASE" addr_64 addr_64
    ∷ info 0xc0000080 "MSR_EFER" 0xD00 0xD00
    ∷ info 0xc0000082 "MSR_LSTAR" addr_64 addr_64
    ∷ info 0xc0000083 "MSR_CSTAR" addr_64 addr_64
    ∷ info 0xc0000084 "MSR_SYSCALL_MASK" 0xffffffff 0xffffffff
    ∷ []

-- What the file uses of the kernel and the processor. `rdmsrl_safe` gives its error, 0 for none, and
-- the register's value; `syscall_target` is the address of a label of the assembly.
pub record MsrPort (W : Type 0) : Type 0 where
  pub wrmsrl_safe : ℕ → ℕ → W → ℕ × W
  pub rdmsrl_safe : ℕ → W → (ℕ × ℕ) × W
  pub read_cs : W → ℕ × W
  pub read_ss : W → ℕ × W
  pub write_ss : ℕ → W → Unit {0} × W
  pub syscall : W → Unit {0} × W
  pub syscall_target : ℕ
  pub msr_efer : ℕ
  pub msr_lstar : ℕ
  pub msr_star : ℕ
  pub efer_sce : ℕ

-- The loop of `find_msr_info` over the entries from the index `i` on; none is the result -1.
unfoldable pub find_from : ℕ → List MsrRwInfo → ℕ → Option ℕ
find_from i [] msr_index = none
find_from i (e ∷ es) msr_index =
    let later = find_from (i + 1) es msr_index in if e.index == msr_index then some i else later

unfoldable pub find_msr_info : ℕ → Option ℕ
unfolding find_from
find_msr_info msr_index = find_from 0 msr_info msr_index

-- `msr_info[index].name`; an index out of the table reads other memory, and does not occur.
abbrev pub name_at : List MsrRwInfo → ℕ → String
name_at [] i = ""
name_at (e ∷ es) zero = e.name
name_at (e ∷ es) (suc i) = name_at es i

module _ {W : Type 0} (p : MsrPort W) where
  -- `test_msr_rw` once the name is known. The formats have the name in the place of %s.
  pub rw_named : String → ℕ → ℕ → ℕ → M W (Unit {0})
  rw_named sptr msr_index input expected = do
    _ ← outside (p.wrmsrl_safe msr_index input)
    r ← outside (p.rdmsrl_safe msr_index)
    if not (expected == r.0)
        then printk ("testing " ++ sptr ++ ": output = 0x%x:0x%x expected = 0x%x:0x%x\n") (
            r.0 / 2 ^ 32 % 2 ^ 32
            ∷ r.0 % 2 ^ 32
            ∷ expected / 2 ^ 32 % 2 ^ 32
            ∷ expected % 2 ^ 32
            ∷ [])
        else pure tt
    printk ("testing " ++ sptr ++ " succeed\n") []

  abbrev known : Option ℕ → ℕ → ℕ → ℕ → M W (Unit {0})
  unfolding rw_named
  known none msr_index input expected =
      printk "couldn't find name for msr # 0x%x, skipping\n" (msr_index ∷ [])
  known (some index) msr_index input expected =
      rw_named (name_at msr_info index) msr_index input expected

  pub test_msr_rw : ℕ → ℕ → ℕ → M W (Unit {0})
  unfolding known find_msr_info
  test_msr_rw msr_index input expected = known (find_msr_info msr_index) msr_index input expected

  pub test_syscall_lazy_load : M W (Unit {0})
  test_syscall_lazy_load = do
    cs ← outside p.read_cs
    ss ← outside p.read_ss
    r ← outside (p.rdmsrl_safe p.msr_efer)
    _ ← outside (p.wrmsrl_safe p.msr_efer (bit_or r.0 p.efer_sce))
    _ ← outside (p.wrmsrl_safe p.msr_lstar p.syscall_target)
    _ ← outside (p.wrmsrl_safe p.msr_star cs)
    outside p.syscall
    outside (p.write_ss ss)
    printk "MSR_*STAR eager loading \n" []

  pub test_all : List MsrRwInfo → M W (Unit {0})
  unfolding test_msr_rw
  test_all [] = pure tt
  test_all (e ∷ es) = do test_msr_rw e.index e.value e.expected; test_all es

  pub test_msr : M W (Unit {0})
  unfolding test_all test_syscall_lazy_load
  test_msr = do test_all msr_info; test_syscall_lazy_load
