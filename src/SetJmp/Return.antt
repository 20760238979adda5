-- ===== src/SetJmp/Return.antt =====
-- pcm-unit/driver/setjmp64.S: longjmp goes on where setjmp has returned.
use pcm_test.Base.{
  ℕ, true, ◌+◌, ◌*◌, ◌%◌, ◌^◌, ◌<◌, ◌≡◌, ◌≢◌, refl, ◌∙◌, sym, ap, update, ◌==◌, arith,
}
use pcm_test.SetJmp.{Cpu, setjmp, longjmp, offset}

-- The eight words of a jmp_buf at an address.
pub record Words (memory : ℕ → ℕ) (env : ℕ) (ra rsp rbp rbx r12 r13 r14 r15 : ℕ) : Type 0 where
  pub w0 : memory env ≡ ra
  pub w1 : memory (offset env 0x8) ≡ rsp
  pub w2 : memory (offset env 0x10) ≡ rbp
  pub w3 : memory (offset env 0x18) ≡ rbx
  pub w4 : memory (offset env 0x20) ≡ r12
  pub w5 : memory (offset env 0x28) ≡ r13
  pub w6 : memory (offset env 0x30) ≡ r14
  pub w7 : memory (offset env 0x38) ≡ r15

setjmp-Words :
    (c : Cpu)
    → c.rdi + 0x38 < 2 ^ 64
    → Words (setjmp c).memory c.rdi (c.memory c.rsp) c.rsp c.rbp c.rbx c.r12 c.r13 c.r14 c.r15
unfolding setjmp
setjmp-Words c h = record {
  w0 = ground arith;
  w1 = ground arith;
  w2 = ground arith;
  w3 = ground arith;
  w4 = ground arith;
  w5 = ground arith;
  w6 = ground arith;
  w7 = ground arith;
}

-- The address of the return on the stack is none of the buffer's words.
pub record IsApart (a env : ℕ) : Type 0 where
  pub inside : env + 0x38 < 2 ^ 64
  pub apart : (j : ℕ) → j < 8 → a ≢ offset env (8 * j)

-- setjmp returns to its caller.
setjmp-rip : (c : Cpu) → IsApart c.rsp c.rdi → (setjmp c).rip ≡ c.memory c.rsp
unfolding setjmp
setjmp-rip c h = ground (
  arith,
  h.apart 0 (omega arith),
  h.apart 1 (omega arith),
  h.apart 2 (omega arith),
  h.apart 3 (omega arith),
  h.apart 4 (omega arith),
  h.apart 5 (omega arith),
  h.apart 6 (omega arith),
  h.apart 7 (omega arith),
)

-- The words of the buffer are still those that setjmp has stored.
pub record Untouched (c later : Cpu) : Type 0 where
  pub same_buffer : later.rdi ≡ c.rdi
  pub kept :
      (j : ℕ)
      → j < 8
      → later.memory (offset c.rdi (8 * j)) ≡ (setjmp c).memory (offset c.rdi (8 * j))

later-Words :
    (c later : Cpu)
    → IsApart c.rsp c.rdi
    → Untouched c later
    → Words later.memory later.rdi (c.memory c.rsp) c.rsp c.rbp c.rbx c.r12 c.r13 c.r14 c.r15
later-Words c later h u =
    let w = setjmp-Words c h.inside in
    rw u.same_buffer (record {
      w0 =
          ap later.memory (omega (arith, h.inside))
          ∙ u.kept 0 (omega arith)
          ∙ ap (setjmp c).memory (omega (arith, h.inside))
          ∙ w.w0;
      w1 = u.kept 1 (omega arith) ∙ w.w1;
      w2 = u.kept 2 (omega arith) ∙ w.w2;
      w3 = u.kept 3 (omega arith) ∙ w.w3;
      w4 = u.kept 4 (omega arith) ∙ w.w4;
      w5 = u.kept 5 (omega arith) ∙ w.w5;
      w6 = u.kept 6 (omega arith) ∙ w.w6;
      w7 = u.kept 7 (omega arith) ∙ w.w7;
    })

==-same : (a : ℕ) → (a == a) ≡ true
==-same a = ground arith

resumed :
    (c : Cpu) (ra rsp rbp rbx r12 r13 r14 r15 : ℕ)
    → Words c.memory c.rdi ra rsp rbp rbx r12 r13 r14 r15
    → longjmp c ≡ record c {
      rip = ra;
      rsp = offset rsp 8;
      rbp = rbp;
      rax = c.rsi % 2 ^ 32;
      rbx = rbx;
      rsi = ra;
      r12 = r12;
      r13 = r13;
      r14 = r14;
      r15 = r15;
      memory = update c.memory rsp ra;
    }
unfolding longjmp
resumed c ra rsp rbp rbx r12 r13 r14 r15 w =
    rw (w.w7, w.w6, w.w5, w.w4, w.w3, w.w2, w.w1, w.w0, ==-same) refl

-- If the buffer does not wrap and the return address is not in it, and its words are untouched when
-- longjmp is called on it, then the processor goes on as after the return of setjmp, but for the value
-- in eax, which is the lower half of longjmp's second argument, and for the memory, which is that at
-- the call with the return address put back; setjmp itself has returned 0.
pub longjmp-setjmp :
    (c later : Cpu)
    → IsApart c.rsp c.rdi
    → Untouched c later
    → ((setjmp c).rax ≡ 0)
      × (longjmp later ≡ record (setjmp c) {
        rax = later.rsi % 2 ^ 32;
        memory = update later.memory c.rsp (c.memory c.rsp);
      })
unfolding setjmp
longjmp-setjmp c later h u = (
  refl,
  resumed later _ _ _ _ _ _ _ _ (later-Words c later h u)
      ∙ rw u.same_buffer (
          ap
            (λ ip. record (setjmp c) {
              rip = ip;
              rax = later.rsi % 2 ^ 32;
              memory = update later.memory c.rsp (c.memory c.rsp);
            })
            (sym (setjmp-rip c h))),
)
