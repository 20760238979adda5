-- ===== src/Ioctl.antt =====
-- The character device's `ioctl` handler, which pcm-unit/driver/pcm_test_mod.c and
-- focus_test/driver/pcm_test_mod.c share up to the largest command number and the `switch`.
pub mod Abi
pub mod Gate
pub mod UnitTests
pub mod FocusTests
pub mod Tests
use pcm_test.Base.{ℕ, Bool, true, false, not, ◌&&◌, List, [], bit_and, ltb, ◌==◌, if◌then◌else◌}
use pcm_test.Base.Kernel.{Sys, M, pure, ◌>>=◌, ◌>>◌, printk}
use Abi.{IoctlAbi}

-- What the handler calls, over an outside world `W`: `local_irq_disable`, `local_irq_enable`, the
-- hypercall instruction, and `access_ok` for writing (true) or reading (false).
pub record Cpu (W : Type 0) : Type 0 where
  pub local_irq_disable : W → W
  pub local_irq_enable : W → W
  pub vmcall : ℕ → W → W
  pub access_ok : Bool → ℕ → ℕ → W → Bool

-- The values that the handler returns: 0, -EINVAL and -EFAULT.
pub data Status : Type 0 where
  success einval efault : Status

-- `PCM_TEST_IOC_MAGIC`
abbrev pub magic : ℕ
magic = b'k'

module _ {W : Type 0} (abi : IoctlAbi) (cpu : Cpu W) where
  abbrev effect : (W → W) → M W (Unit {0})
  effect f s = (tt, record s { world = f s.world })

  pub hypercall : ℕ → M W (Unit {0})
  hypercall nr = effect (cpu.vmcall nr)

  -- `err` of the handler: the command carries a direction, and the pointer does not allow it.
  pub access_denied : ℕ → ℕ → W → Bool
  access_denied cmd arg w =
      if not (bit_and (abi.dir_of cmd) abi.dir_read == 0)
      then not (cpu.access_ok true arg (abi.size_of cmd) w)
      else if not (bit_and (abi.dir_of cmd) abi.dir_write == 0)
      then not (cpu.access_ok false arg (abi.size_of cmd) w)
      else false

  -- The tests of a command between the two hypercalls, with interrupts off at the start.
  pub bracketed : M W (Unit {0}) → M W Status
  unfolding hypercall
  bracketed tests = do
    effect cpu.local_irq_disable
    hypercall 102
    tests
    hypercall 103
    effect cpu.local_irq_enable
    pure success

  -- `pcm_cdev_ioctl`, for a largest number `max_nr` and the `switch` as `dispatch`.
  unfoldable pub handle : ℕ → (ℕ → M W (Unit {0})) → ℕ → ℕ → M W Status
  unfolding access_denied bracketed
  handle max_nr dispatch cmd arg = do
    printk "%s()\n" []
    λ s.
        if not (abi.type_of cmd == magic)
        then (einval, s)
        else if ltb max_nr (abi.nr_of cmd)
        then (einval, s)
        else if access_denied cmd arg s.world
        then (efault, s)
        else bracketed (dispatch cmd) s
