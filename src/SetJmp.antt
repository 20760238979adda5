-- ===== src/SetJmp.antt =====
-- pcm-unit/driver/setjmp64.S and setjmp.c: saving and restoring the registers, an instruction at a
-- time, and the loop that the test makes of it.
pub mod Return
pub mod Loop
mod Tests
use pcm_test.Base.{
  ℕ, suc, zero, ◌+◌, ◌%◌, ◌^◌, [], ◌∷◌, update, Option, none, some, ltb, ◌==◌, if◌then◌else◌,
}
use pcm_test.Base.Kernel.{M, pure, ◌>>=◌, ◌>>◌, printk}

-- The registers that the two functions use, and the memory, a 64-bit word for each address of one.
pub record Cpu : Type 0 where
  pub rip : ℕ
  pub rsp : ℕ
  pub rbp : ℕ
  pub rax : ℕ
  pub rbx : ℕ
  pub rsi : ℕ
  pub rdi : ℕ
  pub r12 : ℕ
  pub r13 : ℕ
  pub r14 : ℕ
  pub r15 : ℕ
  pub memory : ℕ → ℕ

-- An address with a displacement.
abbrev pub offset : ℕ → ℕ → ℕ
offset a n = (a + n) % 2 ^ 64

abbrev pub store : ℕ → ℕ → Cpu → Cpu
store a v c = record c { memory = update c.memory a v }

-- `ret`
abbrev pub ret : Cpu → Cpu
ret c = record c { rip = c.memory c.rsp; rsp = offset c.rsp 8 }

pub setjmp : Cpu → Cpu
setjmp c =
    let c1 : Cpu = record c { rsi = c.memory c.rsp } in
    let c2 : Cpu = store c1.rdi c1.rsi c1 in
    let c3 : Cpu = store (offset c2.rdi 0x8) c2.rsp c2 in
    let c4 : Cpu = store (offset c3.rdi 0x10) c3.rbp c3 in
    let c5 : Cpu = store (offset c4.rdi 0x18) c4.rbx c4 in
    let c6 : Cpu = store (offset c5.rdi 0x20) c5.r12 c5 in
    let c7 : Cpu = store (offset c6.rdi 0x28) c6.r13 c6 in
    let c8 : Cpu = store (offset c7.rdi 0x30) c7.r14 c7 in
    let c9 : Cpu = store (offset c8.rdi 0x38) c8.r15 c8 in ret (record c9 { rax = 0 })

pub longjmp : Cpu → Cpu
longjmp c =
    let c1 : Cpu = record c { rax = c.rsi % 2 ^ 32 } in
    let c2 : Cpu = record c1 { r15 = c1.memory (offset c1.rdi 0x38) } in
    let c3 : Cpu = record c2 { r14 = c2.memory (offset c2.rdi 0x30) } in
    let c4 : Cpu = record c3 { r13 = c3.memory (offset c3.rdi 0x28) } in
    let c5 : Cpu = record c4 { r12 = c4.memory (offset c4.rdi 0x20) } in
    let c6 : Cpu = record c5 { rbx = c5.memory (offset c5.rdi 0x18) } in
    let c7 : Cpu = record c6 { rbp = c6.memory (offset c6.rdi 0x10) } in
    let c8 : Cpu = record c7 { rsp = c7.memory (offset c7.rdi 0x8) } in
    let c9 : Cpu = record c8 { rsi = c8.memory c8.rdi } in ret (store c9.rsp c9.rsi c9)

-- What follows setjmp in `test_setjmp`, by what it returns and what `i` holds, with the jump as a
-- parameter. `i` is an int, and far below 2^31.
module _ {W : Type 0} where
  abbrev body : ℕ → ℕ → (ℕ → M W (Option (Unit {0}))) → M W (Option (Unit {0}))
  body returned i jump =
      let now = if returned == 0 then 0 else i in
      do
        printk "%d\n" (now ∷ [])
        if ltb ((now + 1) % 2 ^ 32) 10
            then jump ((now + 1) % 2 ^ 32)
            else (do printk "done\n" []; pure (some tt))

  -- After longjmp setjmp returns 1. At most `jumps` are made; there is no result where one more would
  -- be.
  pub after_setjmp : ℕ → ℕ → ℕ → M W (Option (Unit {0}))
  after_setjmp zero returned i = body returned i (λ next. pure none)
  after_setjmp (suc jumps) returned i = body returned i (λ next. after_setjmp jumps 1 next)

  -- `i` starts with what the variable holds.
  pub test_setjmp : ℕ → ℕ → M W (Option (Unit {0}))
  unfolding after_setjmp
  test_setjmp jumps i = after_setjmp jumps 0 i
