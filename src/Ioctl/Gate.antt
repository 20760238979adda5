-- ===== src/Ioctl/Gate.antt =====
-- The handler's checks, for either driver: which commands it refuses, and what it leaves alone then.
use pcm_test.Base.{
  ℕ, ◌≤◌, ◌≡◌, ◌≢◌, ◌↔◌, ◌⊎◌, inl, inr, refl, Bool, true, false, not, ltb, ◌==◌, Bool-cases, [],
  ◌∷◌, ◌++◌, arith,
}
use pcm_test.Base.Kernel.{Sys, M}
use pcm_test.Ioctl.Abi.{IoctlAbi}
use pcm_test.Ioctl.{Cpu, success, magic, access_denied, handle}

-- The line that every call logs.
abbrev pub entered : {W : Type 0} → Sys W → Sys W
entered s = record s { log = s.log ++ record { format = "%s()\n"; values = [] } ∷ [] }

-- What runs before and after the tests of an accepted command.
abbrev pub opened : {W : Type 0} → Cpu W → Sys W → Sys W
opened cpu s = record (entered s) { world = cpu.vmcall 102 (cpu.local_irq_disable s.world) }

abbrev pub closed : {W : Type 0} → Cpu W → Sys W → Sys W
closed cpu s = record s { world = cpu.local_irq_enable (cpu.vmcall 103 s.world) }

-- Interrupts as the processor's documentation has them: the two instructions turn them off and on.
pub record HasIrqFlag {W : Type 0} (cpu : Cpu W) (irqs_on : W → Bool) : Type 0 where
  pub irqs_on-disable : (w : W) → irqs_on (cpu.local_irq_disable w) ≡ false
  pub irqs_on-enable : (w : W) → irqs_on (cpu.local_irq_enable w) ≡ true

module _ {W : Type 0} (abi : IoctlAbi) (cpu : Cpu W) (max_nr : ℕ)
    (dispatch : ℕ → M W (Unit {0})) where
  -- The commands that pass the three checks in the world `w`.
  pub record IsAccepted (cmd arg : ℕ) (w : W) : Type 0 where
    pub of_type : abi.type_of cmd ≡ magic
    pub in_range : abi.nr_of cmd ≤ max_nr
    pub allowed : access_denied abi cpu cmd arg w ≡ false

  -- A refused command leaves the world as it was: no test runs, no hypercall is made and interrupts
  -- are not touched. The log has one line more.
  pub refused_unchanged :
      (cmd arg : ℕ) (s : Sys W)
      → (handle abi cpu max_nr dispatch cmd arg s).0 ≢ success
      → (handle abi cpu max_nr dispatch cmd arg s).1 ≡ entered s
  unfolding handle
  refused_unchanged cmd arg s h = ground arith

  -- A call only logs its line, or it runs the tests between the two hypercalls.
  pub handle-cases :
      (cmd arg : ℕ) (s : Sys W)
      → ((handle abi cpu max_nr dispatch cmd arg s).1 ≡ entered s)
        ⊎ ((handle abi cpu max_nr dispatch cmd arg s).1
            ≡ closed cpu (dispatch cmd (opened cpu s)).1)
  unfolding handle
  handle-cases cmd arg s = elim (Bool-cases (not (abi.type_of cmd == magic))) [
    | inl other ↦ inl (rw other refl)
    | inr own ↦ elim (Bool-cases (ltb max_nr (abi.nr_of cmd))) [
      | inl large ↦ inl (rw (own, large) refl)
      | inr small ↦ elim (Bool-cases (access_denied abi cpu cmd arg s.world)) [
        | inl denied ↦ inl (rw (own, small, denied) refl)
        | inr allowed ↦ inr (rw (own, small, allowed) refl)
      ]
    ]
  ]

  -- The handler succeeds exactly on the accepted commands.
  pub success_iff :
      (cmd arg : ℕ) (s : Sys W)
      → ((handle abi cpu max_nr dispatch cmd arg s).0 ≡ success) ↔ IsAccepted cmd arg s.world
  unfolding handle
  success_iff cmd arg s = (λ e. ground arith, λ a. ground arith)

  -- After a call that succeeds interrupts are on, whatever the tests did.
  pub success_enables_irqs :
      (irqs_on : W → Bool) (cmd arg : ℕ) (s : Sys W)
      → HasIrqFlag cpu irqs_on
      → (handle abi cpu max_nr dispatch cmd arg s).0 ≡ success
      → irqs_on (handle abi cpu max_nr dispatch cmd arg s).1.world ≡ true
  unfolding handle
  success_enables_irqs irqs_on cmd arg s h e = ground (
    arith,
    h.irqs_on-enable (
        cpu.vmcall 103
          (dispatch cmd (record {
            world = cpu.vmcall 102 (cpu.local_irq_disable s.world);
            log = (entered s).log;
          })).1.world),
  )
