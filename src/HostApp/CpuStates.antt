-- ===== src/HostApp/CpuStates.antt =====
-- focus_test/hostapp/ckcpu.c: the state of a processor, printed from /tmp/final_cpu.bin. The members
-- of nested structures carry the path by which the program names them.
pub mod Laws
use pcm_test.Base.{ℕ, ◌*◌, String, List, [], ◌∷◌, ◌++◌, Option, none, some, map}
use pcm_test.Base.Kernel.{Line}
use pcm_test.HostApp.Layout.{Member, u16, u32, u64, sizeof}
use pcm_test.HostApp.Print.{Stdio, Print, shows, heading, printf}

-- An array, as one member.
abbrev array : ℕ → ℕ → String → Member
array size n s = record { name = s; width = size * n }

abbrev pub pcm_cpu_user_regs : List Member
pcm_cpu_user_regs =
    u64 "uregs.r15"
    ∷ u64 "uregs.r14"
    ∷ u64 "uregs.r13"
    ∷ u64 "uregs.r12"
    ∷ u64 "uregs.rbp"
    ∷ u64 "uregs.rbx"
    ∷ u64 "uregs.r11"
    ∷ u64 "uregs.r10"
    ∷ u64 "uregs.r9"
    ∷ u64 "uregs.r8"
    ∷ u64 "uregs.rax"
    ∷ u64 "uregs.rcx"
    ∷ u64 "uregs.rdx"
    ∷ u64 "uregs.rsi"
    ∷ u64 "uregs.rdi"
    ∷ u64 "uregs.rip"
    ∷ u16 "uregs.cs"
    ∷ array 2 3 "uregs._pad0"
    ∷ u32 "uregs.cs_limit"
    ∷ u32 "uregs._pad1"
    ∷ u32 "uregs.cs_flags"
    ∷ u32 "uregs._pad2"
    ∷ u64 "uregs.cs_base"
    ∷ u64 "uregs.rflags"
    ∷ u64 "uregs.rsp"
    ∷ u16 "uregs.ss"
    ∷ array 2 3 "uregs._pad3"
    ∷ u32 "uregs.ss_limit"
    ∷ u32 "uregs._pad4"
    ∷ u32 "uregs.ss_flags"
    ∷ u32 "uregs._pad5"
    ∷ u64 "uregs.ss_base"
    ∷ u16 "uregs.es"
    ∷ array 2 3 "uregs._pad6"
    ∷ u32 "uregs.es_limit"
    ∷ u32 "uregs._pad7"
    ∷ u32 "uregs.es_flags"
    ∷ u32 "uregs._pad8"
    ∷ u64 "uregs.es_base"
    ∷ u16 "uregs.ds"
    ∷ array 2 3 "uregs._pad9"
    ∷ u32 "uregs.ds_limit"
    ∷ u32 "uregs._pad10"
    ∷ u32 "uregs.ds_flags"
    ∷ u32 "uregs._pad11"
    ∷ u64 "uregs.ds_base"
    ∷ u16 "uregs.fs"
    ∷ array 2 3 "uregs._pad12"
    ∷ u32 "uregs.fs_limit"
    ∷ u32 "uregs._pad13"
    ∷ u32 "uregs.fs_flags"
    ∷ u32 "uregs._pad14"
    ∷ u64 "uregs.fs_base"
    ∷ u16 "uregs.gs"
    ∷ array 2 3 "uregs._pad15"
    ∷ u32 "uregs.gs_limit"
    ∷ u32 "uregs._pad16"
    ∷ u32 "uregs.gs_flags"
    ∷ u32 "uregs._pad17"
    ∷ u64 "uregs.gs_base"
    ∷ []

abbrev pub pcm_cpu_non_reg_states : List Member
pcm_cpu_non_reg_states =
    u32 "nregs.activity"
    ∷ u32 "nregs.interruptibility"
    ∷ u64 "nregs.pending_debug_exceptions"
    ∷ u64 "nregs.vmx_preemption_time"
    ∷ u64 "nregs.vmcs_link"
    ∷ array 8 4 "nregs.pdpte"
    ∷ []

abbrev pub pcm_cpu_seg_regs : List Member
pcm_cpu_seg_regs =
    u64 "sregs.gdtr_base"
    ∷ u32 "sregs.gdtr_limit"
    ∷ u32 "sregs._pad0"
    ∷ u64 "sregs.idtr_base"
    ∷ u32 "sregs.idtr_limit"
    ∷ u32 "sregs._pad1"
    ∷ u64 "sregs.ldtr_base"
    ∷ u32 "sregs.ldtr_limit"
    ∷ u16 "sregs.ldtr_ss"
    ∷ u16 "sregs.pad2"
    ∷ u64 "sregs.tr_base"
    ∷ u32 "sregs.tr_limit"
    ∷ u16 "sregs.tr_ss"
    ∷ u16 "sregs.pad3"
    ∷ []

abbrev pub pcm_cpu_cr_regs : List Member
pcm_cpu_cr_regs =
    u64 "crs.cr0"
    ∷ u64 "crs.cr2"
    ∷ u64 "crs.cr3"
    ∷ u64 "crs.cr4"
    ∷ u64 "crs.cr8"
    ∷ u64 "crs.xcr0"
    ∷ []

abbrev pub pcm_cpu_dr_regs : List Member
pcm_cpu_dr_regs =
    u64 "drs.dr0"
    ∷ u64 "drs.dr1"
    ∷ u64 "drs.dr2"
    ∷ u64 "drs.dr3"
    ∷ u64 "drs.dr6"
    ∷ u64 "drs.dr7"
    ∷ []

abbrev pub pcm_cpu_msrs : List Member
pcm_cpu_msrs = u64 "msrs.msr_kernel_gs_base" ∷ u64 "msrs.msr_effer" ∷ []

abbrev pub pcm_cpu_states : List Member
pcm_cpu_states =
    pcm_cpu_user_regs
    ++ pcm_cpu_non_reg_states
    ++ pcm_cpu_seg_regs
    ++ pcm_cpu_cr_regs
    ++ pcm_cpu_dr_regs
    ++ pcm_cpu_msrs
    ++ u64 "apic" ∷ u64 "p_msrs" ∷ u64 "pmu" ∷ u64 "fpu" ∷ u64 "platform_info" ∷ u64 "eptp" ∷ []

-- The calls of `printf`, in their order.
abbrev pub prints : List Print
prints =
    heading "====pcm_cpu_user_regs====\n"
    ∷ shows "r15: %lu\n" "uregs.r15"
    ∷ shows "r14: %lu\n" "uregs.r14"
    ∷ shows "r13: %lu\n" "uregs.r13"
    ∷ shows "r12: %lu\n" "uregs.r12"
    ∷ shows "rbp: %lu\n" "uregs.rbp"
    ∷ shows "rbx: 0x%llx\n" "uregs.rbx"
    ∷ shows "r11: %lu\n" "uregs.r11"
    ∷ shows "r10: %lu\n" "uregs.r10"
    ∷ shows "r9: %lu\n" "uregs.r9"
    ∷ shows "r8: %lu\n" "uregs.r8"
    ∷ shows "rax: 0x%llx\n" "uregs.rax"
    ∷ shows "rcx: 0x%llx\n" "uregs.rcx"
    ∷ shows "rdx: 0x%llx\n" "uregs.rdx"
    ∷ shows "rsi: %lu\n" "uregs.rsi"
    ∷ shows "rdi: %lu\n" "uregs.rdi"
    ∷ shows "rip: %lu\n" "uregs.rip"
    ∷ shows "cs: %d\n" "uregs.cs"
    ∷ shows "cs_limit: %u\n" "uregs.cs_limit"
    ∷ shows "cs_flags: %u\n" "uregs.cs_flags"
    ∷ shows "cs_base: %lu\n" "uregs.cs_base"
    ∷ shows "ds: %d\n" "uregs.ds"
    ∷ shows "ds_limit: %u\n" "uregs.ds_limit"
    ∷ shows "ds_flags: %u\n" "uregs.ds_flags"
    ∷ shows "ds_base: %lu\n" "uregs.ds_base"
    ∷ shows "ss: %d\n" "uregs.ss"
    ∷ shows "ss_limit: %u\n" "uregs.ss_limit"
    ∷ shows "ss_flags: %u\n" "uregs.ss_flags"
    ∷ shows "ss_base: %lu\n" "uregs.ss_base"
    ∷ shows "es: %d\n" "uregs.es"
    ∷ shows "es_limit: %u\n" "uregs.es_limit"
    ∷ shows "es_flags: %u\n" "uregs.es_flags"
    ∷ shows "es_base: %lu\n" "uregs.es_base"
    ∷ shows "fs: %d\n" "uregs.fs"
    ∷ shows "fs_limit: %u\n" "uregs.fs_limit"
    ∷ shows "fs_flags: %u\n" "uregs.fs_flags"
    ∷ shows "fs_base: %lu\n" "uregs.fs_base"
    ∷ shows "gs: %d\n" "uregs.gs"
    ∷ shows "gs_limit: %u\n" "uregs.gs_limit"
    ∷ shows "gs_flags: %u\n" "uregs.gs_flags"
    ∷ shows "gs_base: %lu\n" "uregs.gs_base"
    ∷ shows "rflags: %lu\n" "uregs.rflags"
    ∷ shows "rsp: %lu\n" "uregs.rsp"
    ∷ heading "====pcm_cpu_cr_regs====\n"
    ∷ shows "cr0: %lu\n" "crs.cr0"
    ∷ shows "cr2: %lu\n" "crs.cr2"
    ∷ shows "cr3: %lu\n" "crs.cr3"
    ∷ shows "cr4: %lu\n" "crs.cr4"
    ∷ shows "cr8: %lu\n" "crs.cr8"
    ∷ shows "xcr0: %lu\n" "crs.xcr0"
    ∷ heading "====pcm_cpu_dr_regs====\n"
    ∷ shows "dr0: %lu\n" "drs.dr0"
    ∷ shows "dr1: %lu\n" "drs.dr1"
    ∷ shows "dr2: %lu\n" "drs.dr2"
    ∷ shows "dr3: %lu\n" "drs.dr3"
    ∷ shows "dr6: %lu\n" "drs.dr6"
    ∷ shows "dr7: %lu\n" "drs.dr7"
    ∷ heading "====pcm_cpu_msrs====\n"
    ∷ shows "msr_kernel_gs_base: %lu\n" "msrs.msr_kernel_gs_base"
    ∷ shows "msr_effer: %lu\n" "msrs.msr_effer"
    ∷ []

module _ {W : Type 0} (io : Stdio W) where
  -- What `main` does with the file; `p1` is what the variable holds at first. A NULL from fopen makes
  -- `fread` undefined, so that there is no result.
  abbrev dump : List ℕ → Option (List ℕ) → Option (List Line)
  dump p1 none = none
  dump p1 (some file) =
      some (map (printf io pcm_cpu_states (io.fread (sizeof pcm_cpu_states) file p1)) prints)

  pub main : List ℕ → W → Option (List Line)
  main p1 w = dump p1 (io.fopen "/tmp/final_cpu.bin" w)
