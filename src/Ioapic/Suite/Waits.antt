-- ===== src/Ioapic/Suite/Waits.antt =====
-- ioapic.c: with several processors, `test_ioapic` waits for a variable that nothing sets.
use pcm_test.Base.{
  ℕ, zero, suc, ◌≡◌, ◌-◌, ◌^◌, refl, ◌∙◌, ap, true, Bool, Option, none, some, ltb, if◌then◌else◌,
}
use pcm_test.Ioapic.Rig.{Board, Rig, isr_79, M, pure, ◌>>=◌, ◌>>◌, ask, act, read, modify}
use pcm_test.Ioapic.Handlers.Untouched.{
  interrupts-globals, set_irq_line-globals, apic_read_bit-globals, handle_irq_local-globals,
}
use pcm_test.Ioapic.Interrupts.{Addresses}
use pcm_test.Ioapic.Suite.{
  Rounds, still_waiting, Ending, waiting, sooner, toggle_irq_line_0x0e, due, wait, received,
  test_ioapic_edge_tmr_smp, unless_waiting, smp_tests, test_ioapic,
}

module _ {W : Type 0} where
  -- A program that ends in a loop that still waits.
  record Waits (m : M W Ending) : Type 0 where
    waits : (s : Rig W) → (m s).0 ≡ waiting

  then-Waits :
      {A : Type 0} (m : M W A) (f : A → M W Ending) → ((a : A) → Waits (f a)) → Waits (m >>= f)
  unfolding ◌>>=◌
  then-Waits m f h = record { waits = λ s. (h (m s).0).waits (m s).1 }

  before-Waits : (m : M W (Unit {0})) (k : M W Ending) → Waits k → Waits (m >> k)
  unfolding ◌>>◌
  before-Waits m k h = record { waits = λ s. h.waits (m s).1 }

  either-Waits :
      (x : Bool) (m k : M W Ending) (s : Rig W)
      → Waits m
      → x ≡ true
      → ((if x then m else k) s).0 ≡ waiting
  either-Waits x m k s h e = rw e (h.waits s)

module _ {W : Type 0} (b : Board W) (at : Addresses) (burst : ℕ) where
  due-globals :
      (start : Option ℕ) (s : Rig W)
      → (due b at burst start (toggle_irq_line_0x0e b at burst) s).1.globals ≡ s.globals
  unfolding due toggle_irq_line_0x0e pure ◌>>◌ act
  due-globals none s = refl
  due-globals (some zero) s = set_irq_line-globals b 0x0e 0 _ ∙ set_irq_line-globals b 0x0e 1 _
  due-globals (some (suc k)) s = refl

  wait-still :
      (patience : ℕ) (start : Option ℕ) (i : ℕ) (s : Rig W)
      → s.globals.g_tmr_79 ≡ 2 ^ 32 - 1
      → (wait b at burst patience start (toggle_irq_line_0x0e b at burst) i s).0 ≡ still_waiting
  unfolding wait pure ◌>>=◌ ◌>>◌ read
  wait-still zero start i s h = refl
  wait-still (suc patience) start i s h =
      let same =
        interrupts-globals b burst (due b at burst start (toggle_irq_line_0x0e b at burst) s).1
        ∙ due-globals start s in
      let unset = ap (λ g. g.g_tmr_79) same ∙ h in
      rw unset (wait-still patience (sooner start) _ _ unset)

  module _ (patience : ℕ) where
    received-waiting :
        (o : Rounds) (report : M W (Unit {0})) (s : Rig W)
        → o ≡ still_waiting
        → (received b at burst o report s).0 ≡ waiting
    unfolding received pure
    received-waiting o report s e = rw e refl

    edge_smp-Waits :
        (start : Option ℕ) (e : Bool) → Waits (test_ioapic_edge_tmr_smp b at burst patience start e)
    unfolding test_ioapic_edge_tmr_smp ◌>>=◌ ◌>>◌ act modify
    edge_smp-Waits start e = record {
      waits = λ s. received-waiting _ _ _ (
          wait-still patience start 0 _ (
            ap (λ g. g.g_tmr_79)
              (apic_read_bit-globals b b.apic_tmr 0x79 _
                ∙ interrupts-globals b burst _
                ∙ interrupts-globals b burst _
                ∙ handle_irq_local-globals b 0x79 (at.address_of isr_79) at.isr_entry_point _)));
    }

    unless-Waits :
        (first : M W Ending) (rest : M W Ending)
        → Waits first
        → Waits (do o ← first; unless_waiting b at burst patience o rest)
    unfolding ◌>>=◌ unless_waiting pure
    unless-Waits first rest h = record { waits = λ s. rw (h.waits s) refl }

    smp-Waits : (starts : ℕ → Option ℕ) → Waits (smp_tests b at burst patience starts)
    unfolding smp_tests
    smp-Waits starts = unless-Waits _ _ (edge_smp-Waits (starts 0) _)

    module _ (several : (w : W) → ltb 1 (b.num_online_cpus w).0 ≡ true) where
      counted-Waits :
          (m k : M W Ending)
          → Waits m
          → Waits (do cpus ← ask b.num_online_cpus; if ltb 1 cpus then m else k)
      unfolding ◌>>=◌ ask
      counted-Waits m k h = record { waits = λ s. either-Waits _ m k _ h (several s.world) }

      all-Waits : (starts : ℕ → Option ℕ) → Waits (test_ioapic b at burst patience starts)
      unfolding test_ioapic
      all-Waits starts = search (before-Waits, then-Waits, counted-Waits, smp-Waits) depth 60

      -- On a machine of more than one processor that lets the driver store to its first page, whatever
      -- interrupts the processor takes, and whenever the second one runs what it is sent, `test_ioapic`
      -- never ends: however long it waits, it is still in a loop for `g_tmr_79`.
      pub test_ioapic-waits :
          (starts : ℕ → Option ℕ) (s : Rig W)
          → (test_ioapic b at burst patience starts s).0 ≡ waiting
      test_ioapic-waits starts s = (all-Waits starts).waits s
