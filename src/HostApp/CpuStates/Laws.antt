-- ===== src/HostApp/CpuStates/Laws.antt =====
-- focus_test/hostapp/ckcpu.c prints the values that the monitor stored.
use pcm_test.Base.{ℕ, ◌≡◌, refl, ◌∙◌, ap, List, [], ◌∷◌, ◌++◌, some, map, length}
use pcm_test.HostApp.Print.{Stdio, printf}
use pcm_test.HostApp.Print.Placed.{
  IsStdio, Field, field, title, line, field_of, fread_exact, printf-places,
}
use pcm_test.HostApp.CpuStates.{pcm_cpu_states, prints, dump, main}

-- The lines of the dump, with the first byte and the count of bytes that each register has in the
-- file.
abbrev pub registers : List Field
registers =
    title "====pcm_cpu_user_regs====\n"
    ∷ field "r15: %lu\n" 0 8
    ∷ field "r14: %lu\n" 8 8
    ∷ field "r13: %lu\n" 16 8
    ∷ field "r12: %lu\n" 24 8
    ∷ field "rbp: %lu\n" 32 8
    ∷ field "rbx: 0x%llx\n" 40 8
    ∷ field "r11: %lu\n" 48 8
    ∷ field "r10: %lu\n" 56 8
    ∷ field "r9: %lu\n" 64 8
    ∷ field "r8: %lu\n" 72 8
    ∷ field "rax: 0x%llx\n" 80 8
    ∷ field "rcx: 0x%llx\n" 88 8
    ∷ field "rdx: 0x%llx\n" 96 8
    ∷ field "rsi: %lu\n" 104 8
    ∷ field "rdi: %lu\n" 112 8
    ∷ field "rip: %lu\n" 120 8
    ∷ field "cs: %d\n" 128 2
    ∷ field "cs_limit: %u\n" 136 4
    ∷ field "cs_flags: %u\n" 144 4
    ∷ field "cs_base: %lu\n" 152 8
    ∷ field "ds: %d\n" 240 2
    ∷ field "ds_limit: %u\n" 248 4
    ∷ field "ds_flags: %u\n" 256 4
    ∷ field "ds_base: %lu\n" 264 8
    ∷ field "ss: %d\n" 176 2
    ∷ field "ss_limit: %u\n" 184 4
    ∷ field "ss_flags: %u\n" 192 4
    ∷ field "ss_base: %lu\n" 200 8
    ∷ field "es: %d\n" 208 2
    ∷ field "es_limit: %u\n" 216 4
    ∷ field "es_flags: %u\n" 224 4
    ∷ field "es_base: %lu\n" 232 8
    ∷ field "fs: %d\n" 272 2
    ∷ field "fs_limit: %u\n" 280 4
    ∷ field "fs_flags: %u\n" 288 4
    ∷ field "fs_base: %lu\n" 296 8
    ∷ field "gs: %d\n" 304 2
    ∷ field "gs_limit: %u\n" 312 4
    ∷ field "gs_flags: %u\n" 320 4
    ∷ field "gs_base: %lu\n" 328 8
    ∷ field "rflags: %lu\n" 160 8
    ∷ field "rsp: %lu\n" 168 8
    ∷ title "====pcm_cpu_cr_regs====\n"
    ∷ field "cr0: %lu\n" 464 8
    ∷ field "cr2: %lu\n" 472 8
    ∷ field "cr3: %lu\n" 480 8
    ∷ field "cr4: %lu\n" 488 8
    ∷ field "cr8: %lu\n" 496 8
    ∷ field "xcr0: %lu\n" 504 8
    ∷ title "====pcm_cpu_dr_regs====\n"
    ∷ field "dr0: %lu\n" 512 8
    ∷ field "dr1: %lu\n" 520 8
    ∷ field "dr2: %lu\n" 528 8
    ∷ field "dr3: %lu\n" 536 8
    ∷ field "dr6: %lu\n" 544 8
    ∷ field "dr7: %lu\n" 552 8
    ∷ title "====pcm_cpu_msrs====\n"
    ∷ field "msr_kernel_gs_base: %lu\n" 560 8
    ∷ field "msr_effer: %lu\n" 568 8
    ∷ []

prints-registers : map (field_of 0 pcm_cpu_states) prints ≡ registers
prints-registers = refl

-- If /tmp/final_cpu.bin starts with 624 bytes, `main` prints the lines of the table `registers`, each
-- with the little-endian number at its place in those bytes, whatever the variable held before and
-- whatever follows in the file.
pub main-registers :
    {W : Type 0} (io : Stdio W) (bytes rest p1 : List ℕ) (w : W)
    → IsStdio io
    → length bytes ≡ 624
    → io.fopen "/tmp/final_cpu.bin" w ≡ some (bytes ++ rest)
    → main io p1 w ≡ some (map (line io bytes) registers)
unfolding main
main-registers io bytes rest p1 w d whole opened =
    ap (dump io p1) opened
    ∙ ap (λ bs. some (map (printf io pcm_cpu_states bs) prints))
        (fread_exact io 624 bytes rest p1 d whole)
    ∙ ap some (printf-places io 0 pcm_cpu_states bytes prints)
    ∙ ap (λ fields. some (map (line io bytes) fields)) prints-registers
