-- ===== src/Chardev/FocusDriver.antt =====
-- focus_test/driver/pcm_test_mod.c: the functions of the driver of the instruction tests that have the
-- text of the other driver's, and the module's life with its own handler.
use pcm_test.Base.{ℕ, ◌≡◌, refl, Bool, true, false, if◌then◌else◌}
use pcm_test.Base.Kernel.{Sys, M}
use pcm_test.Ioctl
use pcm_test.Ioctl.{Cpu}
use pcm_test.Ioctl.Abi.{IoctlAbi}
use pcm_test.Ioctl.FocusTests.{
  Tests, Test, cpuid, invd, rdseed, rdrand, rdpmc, rdtsc, rdtscp, pio, mmio, icmp, max_nr, dispatch,
  pcm_cdev_ioctl, perform,
}
use pcm_test.Chardev
use pcm_test.Chardev.{Facilities, Chardev}
use pcm_test.Chardev.Bag.{Resource}
use pcm_test.Chardev.Held.{IsFacilities}
use pcm_test.Chardev.Life.{Life, Steps}
use pcm_test.Chardev.Life.Kept.{Succeeds, Kept, unchanged}
use pcm_test.Chardev.Life.Clean.{IsFresh, unloaded-balanced}

abbrev hypercall : {W : Type 0} → IoctlAbi → Cpu W → ℕ → M W (Unit {0})
hypercall abi cpu = Ioctl.hypercall abi cpu

module _ {C : Type 0} (k : Facilities C) where
  abbrev pcm_cdev_open : ℕ → M (Chardev C) (ℕ × ℕ)
  pcm_cdev_open = Chardev.pcm_cdev_open k

  abbrev pcm_cdev_release : M (Chardev C) ℕ
  pcm_cdev_release = Chardev.pcm_cdev_release k

  abbrev pcm_cdev_init : M (Chardev C) ℕ
  pcm_cdev_init = Chardev.pcm_cdev_init k

  abbrev pcm_cdev_exit : M (Chardev C) (Unit {0})
  pcm_cdev_exit = Chardev.pcm_cdev_exit k

  abbrev pcm_cdev_add : M (Chardev C) ℕ
  pcm_cdev_add = Chardev.pcm_cdev_add k

  abbrev pcm_test_init : M (Chardev C) ℕ
  pcm_test_init = Chardev.pcm_test_init k

  abbrev pcm_test_exit : M (Chardev C) (Unit {0})
  pcm_test_exit = Chardev.pcm_test_exit k

module _ {C : Type 0} (k : Facilities C) (d : IsFacilities k) (abi : IoctlAbi)
    (t : Tests (Chardev C)) (cpu : Cpu (Chardev C)) where
  KeptBy : M (Chardev C) (Unit {0}) → Type 0
  KeptBy m = (s : Sys (Chardev C)) → Kept k d s.world (m s).1.world

  either :
      (b : Bool) (m n : M (Chardev C) (Unit {0}))
      → KeptBy m
      → KeptBy n
      → KeptBy (if b then m else n)
  unfolding KeptBy
  either true m n h g s = h s
  either false m n h g s = g s

  -- The switch runs one of the tests, or none.
  dispatch-Kept : ((x : Test) → KeptBy (perform abi t x)) → (cmd : ℕ) → KeptBy (dispatch abi t cmd)
  unfolding KeptBy dispatch
  dispatch-Kept tests cmd = either _ _ _ (tests cpuid) (
      either _ _ _ (tests rdpmc) (
        either _ _ _ (tests rdrand) (
          either _ _ _ (tests rdseed) (
            either _ _ _ (tests invd) (
              either _ _ _ (tests rdtsc) (
                either _ _ _ (tests rdtscp) (
                  either _ _ _ (tests pio) (
                    either _ _ _ (tests mmio)
                      (either _ _ _ (tests icmp) (λ s. unchanged k d refl))))))))))

  -- If the calls of loading succeed, and neither the processor's operations nor any of the ten tests
  -- changes the module's variables or resources, then in every life of this driver what is held
  -- whenever it is not loaded is what was held at the start.
  pub focus_driver-balanced :
      {s u : Life C}
      → Succeeds k d
      → ((v : Chardev C) → Kept k d v (cpu.local_irq_disable v))
      → ((v : Chardev C) → Kept k d v (cpu.local_irq_enable v))
      → ((nr : ℕ) (v : Chardev C) → Kept k d v (cpu.vmcall nr v))
      → ((x : Test) (s : Sys (Chardev C)) → Kept k d s.world (perform abi t x s).1.world)
      → IsFresh k d s
      → Steps k (pcm_cdev_ioctl abi t cpu) s u
      → u.loaded ≡ false
      → (r : Resource) → d.held u.sys.world.outer r ≡ d.held s.sys.world.outer r
  unfolding KeptBy pcm_cdev_ioctl
  focus_driver-balanced succeeds disable enable vmcall tests fresh r off =
      unloaded-balanced k d abi cpu max_nr (dispatch abi t) succeeds
        (record {
          disable = disable;
          enable = enable;
          vmcall = vmcall;
          tests = dispatch-Kept tests;
        })
        fresh r off
