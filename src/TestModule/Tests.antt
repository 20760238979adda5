-- ===== src/TestModule/Tests.antt =====
-- A machine on which the laws of the test module's processor and heap hold.
use pcm_test.Base.{
  ℕ, suc, ◌≡◌, refl, List, [], ◌∷◌, some, ◌==◌, if◌then◌else◌, length, ◌-◌, ◌^◌, ==_refl, arith,
}
use pcm_test.Base.Kernel.{Sys}
use pcm_test.TestModule.Msr.{Msrs, IsMsrs}
use pcm_test.TestModule.Pt.{test_pt_rdmsr}
use pcm_test.TestModule.Pt.Laws.{Reports, test_pt_rdmsr_lem}
use pcm_test.TestModule.Run.{Module}
use pcm_test.TestModule.Insns.{Insns, KernelHeap}
use pcm_test.TestModule.Init.{init_test_mode, exit_test_mode}
use pcm_test.TestModule.Init.Memory.{IsKernelHeap, exit-init}

-- The one register that faults, with -EIO.
abbrev eio : ℕ
eio = 2 ^ 32 - 5

abbrev fault_at : ℕ → ℕ → ℕ
fault_at w r = if r == w then eio else 0

abbrev machine_msrs : Msrs ℕ
machine_msrs = record {
  rdmsr_safe = λ r w. (record { err = fault_at w r; low = 0; high = 0 }, w);
  wrmsr_safe = λ r lo hi w. (fault_at w r, w);
}

machine_msrs-IsMsrs : IsMsrs machine_msrs
machine_msrs-IsMsrs = record {
  read_fault = fault_at;
  write_fault = fault_at;
  rdmsr_safe-err = λ w r. refl;
  rdmsr_safe-fault = λ w r s. refl;
  wrmsr_safe-err = λ w r lo hi. refl;
  wrmsr_safe-fault = λ w r lo hi s. refl;
}

-- 0x583 faults.
abbrev pt_guest : Sys ℕ
pt_guest = record { world = 0x583; log = [] }

test_pt_rdmsr_lem_example :
    Reports "rdmsr for PT msrs success\n" "rdmsr 0x%x err %d\n"
      (fault_at 0x583)
      (some 0x583)
      (test_pt_rdmsr machine_msrs pt_guest)
unfolding machine_msrs-IsMsrs
test_pt_rdmsr_lem_example =
    test_pt_rdmsr_lem machine_msrs machine_msrs-IsMsrs (fault_at 0x583) pt_guest (λ r. refl)

-- No register of the table faults.
abbrev pt_host : Sys ℕ
pt_host = record { world = 0; log = [] }

-- Nothing faults but MSRs, and every counter holds 7.
abbrev machine : Insns ℕ
machine = record {
  msrs = machine_msrs;
  invd = λ w. (some tt, w);
  getsec = λ a w. (some tt, w);
  mwait = λ a c w. (some tt, w);
  monitor = λ a c d w. (some tt, w);
  vmxon = λ a w. (some tt, w);
  vmxoff = λ w. (some tt, w);
  rdpmc = λ i w. (some (7, 0), w);
  xsaves = λ a b c w. (some tt, w);
  xsetbv = λ a b c w. (some tt, w);
  cpuid_count = λ a c w. (some (record { eax = 3; ebx = 0; ecx = 0; edx = 0 }), w);
  read_cr0 = λ w. (some 0x80050033, w);
  write_cr0 = λ v w. (some tt, w);
  read_cr4 = λ w. (some 0x6f0, w);
  write_cr4 = λ v w. (some tt, w);
  rdmsrl = λ r w. (some 0, w);
  wrmsrl = λ r v w. (some tt, w);
  thread_flags = λ w. (some 0x1000, w);
  x86_cr0_cd = 2 ^ 30;
  x86_cr4_osxsave = 2 ^ 18;
  x86_cr4_vmxe = 2 ^ 13;
  msr_ia32_feature_control = 0x3a;
  feature_control_locked = 1;
  feature_control_vmxon_enabled_outside_smx = 4;
}

-- The heap as the list of its blocks; a new block gets the next address.
abbrev remove : ℕ → List ℕ → List ℕ
remove a [] = []
remove a (b ∷ bs) = if b == a then bs else b ∷ remove a bs

abbrev heap : KernelHeap (List ℕ)
heap = record {
  kmalloc = λ size h. (suc (length h), suc (length h) ∷ h);
  kfree = remove;
  pa = λ a. a;
}

remove-head : (a : ℕ) (h rest : List ℕ) → h ≡ a ∷ rest → remove a h ≡ rest
remove-head a h rest e = rw (e, ==_refl a) refl

heap-IsKernelHeap : IsKernelHeap heap
heap-IsKernelHeap = record {
  live = λ h. h;
  kmalloc-live = λ size h. grind arith;
  kfree-live = remove-head;
}

abbrev loaded : Module ℕ (List ℕ)
loaded = record { sys = pt_host; heap = 1 ∷ []; vmxon_region = 0; vmxon_phy_region = 0 }

-- Test 10 leaves the block 2 behind.
exit-init_example :
    (exit_test_mode machine heap (init_test_mode machine heap 10 loaded).1).1.heap ≡ 2 ∷ 1 ∷ []
unfolding heap-IsKernelHeap
exit-init_example = exit-init machine heap heap-IsKernelHeap 10 loaded refl
