-- ===== src/SetJmp/Tests.antt =====
-- pcm-unit/driver/setjmp64.S and setjmp.c: a jump back from a deeper call, and the test's loop.
use pcm_test.Base.{◌≡◌, refl, update, some, [], ◌++◌, arith}
use pcm_test.Base.Kernel.{Sys}
use pcm_test.SetJmp.{Cpu, setjmp, longjmp, test_setjmp}
use pcm_test.SetJmp.Return.{longjmp-setjmp}
use pcm_test.SetJmp.Loop.{count, test_setjmp_lem}

-- The buffer is at 4096, the stack at 8192, and the caller at 1000.
abbrev caller : Cpu
caller = record {
  rip = 0;
  rsp = 8192;
  rbp = 8300;
  rax = 5;
  rbx = 11;
  rsi = 0;
  rdi = 4096;
  r12 = 12;
  r13 = 13;
  r14 = 14;
  r15 = 15;
  memory = update (λ a. 0) 8192 1000;
}

-- Later the registers are others and the stack is deeper; longjmp is to make setjmp return 1.
abbrev deeper : Cpu
deeper = record caller {
  rsp = 8000;
  rbp = 1;
  rbx = 2;
  rsi = 1;
  r12 = 3;
  memory = (setjmp caller).memory;
}

longjmp-setjmp_example :
    ((setjmp caller).rax ≡ 0)
    × (longjmp deeper ≡ record (setjmp caller) { rax = 1; memory = update deeper.memory 8192 1000 })
longjmp-setjmp_example =
    longjmp-setjmp caller deeper (record { inside = omega arith; apart = λ j h. omega arith })
      (record { same_buffer = refl; kept = λ j h. refl })

abbrev quiet : Sys (Unit {0})
quiet = record { world = tt; log = [] }

test_setjmp_lem_example :
    test_setjmp 9 77 quiet ≡ (some tt, record quiet { log = [] ++ count 0 10 })
test_setjmp_lem_example = test_setjmp_lem 9 77 quiet (omega arith)
