-- ===== src/TestModule/Init/Memory.antt =====
-- Which blocks of the heap the module of test_module/test_mod.c leaves allocated.
use pcm_test.Base.{
  ℕ, ◌≡◌, refl, ◌≢◌, ne→==, ℕ_discrete, ◌∙◌, ap, false, List, [], ◌∷◌, ◌==◌, if◌then◌else◌,
  Bool-cases, inl, inr, arith,
}
use pcm_test.Base.Kernel.{printk}
use pcm_test.TestModule.Run.Keeps.{
  Keeps, resume-heap, resume-region, pure-Keeps, before-Keeps, insn-Keeps, kernel-Keeps, keeping,
}
use pcm_test.TestModule.Run.{Module, Run, ◌>>=◌, ◌>>◌, kernel}
use pcm_test.TestModule.Insns.{Insns, KernelHeap, allocate, test_xsaves}
use pcm_test.TestModule.Insns.Keeps.{
  test_invd-Keeps, test_getsec-Keeps, test_mwait-Keeps, test_monitor-Keeps, test_access_cr0-Keeps,
  test_access_cr4-Keeps, test_vmxoff-Keeps, test_rdpmc-Keeps, test_xsetbv-Keeps, test_vmxon-Keeps,
}
use pcm_test.TestModule.Init.{vmxon_case, pt_case, mpx_case, switch, init_test_mode, exit_test_mode}

-- What the kernel documents of its heap, with `live` for the blocks that are allocated: `kmalloc`
-- adds the block that it gives, or gives 0 and adds none, and `kfree` takes its block away.
pub record IsKernelHeap {H : Type 0} (k : KernelHeap H) : Type 0 where
  pub live : H → List ℕ
  pub kmalloc-live :
      (size : ℕ) (h : H)
      → live (k.kmalloc size h).1
        ≡ (if (k.kmalloc size h).0 == 0 then live h else (k.kmalloc size h).0 ∷ live h)
  pub kfree-live : (a : ℕ) (h : H) (rest : List ℕ) → live h ≡ a ∷ rest → live (k.kfree a h) ≡ rest

module _ {C H : Type 0} (x : Insns C) (k : KernelHeap H) (d : IsKernelHeap k) where
  open d use {live}

  pt_case-Keeps : Keeps (pt_case x k)
  unfolding pt_case
  pt_case-Keeps = search (keeping) depth 20

  mpx_case-Keeps : Keeps (mpx_case x k)
  unfolding mpx_case
  mpx_case-Keeps = search (keeping) depth 20

  skipped-Keeps : (m r : Run C H (Unit {0})) → Keeps r → Keeps (if false then m else r)
  skipped-Keeps m r h = h

  -- The tests that `switch` chooses leave the heap alone, but for cases 1 and 10.
  switch-Keeps : (tc_no : ℕ) → tc_no ≢ 1 → tc_no ≢ 10 → Keeps (switch x k tc_no)
  unfolding switch
  switch-Keeps tc_no h1 h10 =
      rw (ne→== tc_no 1 h1, ne→== tc_no 10 h10)
        (search
          (
            keeping, skipped-Keeps, pt_case-Keeps, mpx_case-Keeps, test_invd-Keeps,
            test_getsec-Keeps, test_mwait-Keeps, test_monitor-Keeps, test_access_cr0-Keeps,
            test_access_cr4-Keeps, test_vmxoff-Keeps, test_rdpmc-Keeps, test_xsetbv-Keeps,
          )
          depth 60)

  -- What `exit_test_mode` leaves of the heap.
  exit-heap :
      (s : Module C H)
      → (exit_test_mode x k s).1.heap
        ≡ (if s.vmxon_region == 0 then s.heap else k.kfree s.vmxon_region s.heap)
  unfolding exit_test_mode ◌>>◌ kernel
  exit-heap s = ground arith

  abbrev started : ℕ → Module C H → Module C H
  started tc_no s = record s { sys = (printk "tc_no is %d\n" (tc_no ∷ []) s.sys).1 }

  -- `init_test_mode` leaves the heap and the variable as the chosen test does.
  init-heap :
      (tc_no : ℕ) (s : Module C H)
      → (init_test_mode x k tc_no s).1.heap ≡ (switch x k tc_no (started tc_no s)).1.heap
  unfolding init_test_mode ◌>>◌ kernel
  init-heap tc_no s = resume-heap (switch x k tc_no (started tc_no s)).0 _ _ (λ _. pure-Keeps 0)

  init-region :
      (tc_no : ℕ) (s : Module C H)
      → (init_test_mode x k tc_no s).1.vmxon_region
        ≡ (switch x k tc_no (started tc_no s)).1.vmxon_region
  unfolding init_test_mode ◌>>◌ kernel
  init-region tc_no s = resume-region (switch x k tc_no (started tc_no s)).0 _ _ (λ _. pure-Keeps 0)

  -- Case 1 keeps its block in the variable; case 10 keeps its block nowhere.
  vmxon_case-heap : (s : Module C H) → (vmxon_case x k s).1.heap ≡ (k.kmalloc 0x1000 s.heap).1
  unfolding vmxon_case ◌>>◌ ◌>>=◌ allocate
  vmxon_case-heap s = (test_vmxon-Keeps x _).same_heap _

  vmxon_case-region :
      (s : Module C H) → (vmxon_case x k s).1.vmxon_region ≡ (k.kmalloc 0x1000 s.heap).0
  unfolding vmxon_case ◌>>◌ ◌>>=◌ allocate
  vmxon_case-region s = (test_vmxon-Keeps x _).same_region _

  xsaves-heap : (s : Module C H) → (test_xsaves k x s).1.heap ≡ (k.kmalloc 0x00000440 s.heap).1
  unfolding test_xsaves ◌>>◌ ◌>>=◌ allocate
  xsaves-heap s = (before-Keeps _ _ (insn-Keeps _) (kernel-Keeps _)).same_heap _

  xsaves-region : (s : Module C H) → (test_xsaves k x s).1.vmxon_region ≡ s.vmxon_region
  unfolding test_xsaves ◌>>◌ ◌>>=◌ allocate
  xsaves-region s = (before-Keeps _ _ (insn-Keeps _) (kernel-Keeps _)).same_region _

  switch-one : switch x k 1 ≡ vmxon_case x k
  unfolding switch
  switch-one = refl

  switch-ten : switch x k 10 ≡ test_xsaves k x
  unfolding switch
  switch-ten = refl

  -- Unloading frees the block of the variable, if there is one.
  allocated_freed :
      (size : ℕ) (h : H)
      → live (
          if (k.kmalloc size h).0 == 0
          then (k.kmalloc size h).1
          else k.kfree (k.kmalloc size h).0 (k.kmalloc size h).1)
        ≡ live h
  allocated_freed size h = elim (Bool-cases ((k.kmalloc size h).0 == 0)) [
    | inl none_given ↦ rw none_given (
        d.kmalloc-live size h
        ∙ ap (λ b. if b then live h else (k.kmalloc size h).0 ∷ live h) none_given)
    | inr given ↦ rw given (
        d.kfree-live (k.kmalloc size h).0 (k.kmalloc size h).1 (live h) (
          d.kmalloc-live size h
          ∙ ap (λ b. if b then live h else (k.kmalloc size h).0 ∷ live h) given))
  ]

  unload_one :
      (s : Module C H) → live (exit_test_mode x k (init_test_mode x k 1 s).1).1.heap ≡ live s.heap
  unload_one s =
      rw
        (
          exit-heap (init_test_mode x k 1 s).1,
          init-heap 1 s,
          init-region 1 s,
          switch-one,
          vmxon_case-heap (started 1 s),
          vmxon_case-region (started 1 s),
        )
        (allocated_freed 0x1000 s.heap)

  unload_ten :
      (s : Module C H)
      → s.vmxon_region ≡ 0
      → live (exit_test_mode x k (init_test_mode x k 10 s).1).1.heap
        ≡ live (k.kmalloc 0x00000440 s.heap).1
  unload_ten s h =
      rw
        (
          exit-heap (init_test_mode x k 10 s).1,
          init-heap 10 s,
          init-region 10 s,
          switch-ten,
          xsaves-heap (started 10 s),
          xsaves-region (started 10 s),
          h,
        )
        refl

  unload_rest :
      (tc_no : ℕ) (s : Module C H)
      → s.vmxon_region ≡ 0
      → Keeps (switch x k tc_no)
      → live (exit_test_mode x k (init_test_mode x k tc_no s).1).1.heap ≡ live s.heap
  unload_rest tc_no s h kept =
      rw
        (
          exit-heap (init_test_mode x k tc_no s).1,
          init-heap tc_no s,
          init-region tc_no s,
          kept.same_heap (started tc_no s),
          kept.same_region (started tc_no s),
          h,
        )
        refl

  -- Loading the module and then unloading it leaves the blocks of the kernel's heap as they were, for
  -- every number of a test but 10 (the block of case 1 is freed). For 10, whose block nothing frees,
  -- they are those after its kmalloc. The variable vmxon_region is 0 at the start, as it is initialised.
  pub exit-init :
      (tc_no : ℕ) (s : Module C H)
      → s.vmxon_region ≡ 0
      → live (exit_test_mode x k (init_test_mode x k tc_no s).1).1.heap
        ≡ (if tc_no == 10 then live (k.kmalloc 0x00000440 s.heap).1 else live s.heap)
  exit-init tc_no s h = elim (ℕ_discrete tc_no 1) [
    | yes one ↦ rw one (unload_one s)
    | no other ↦ elim (ℕ_discrete tc_no 10) [
      | yes ten ↦ rw ten (unload_ten s h)
      | no rest ↦ rw (ne→== tc_no 10 rest) (unload_rest tc_no s h (switch-Keeps tc_no other rest))
    ]
  ]
