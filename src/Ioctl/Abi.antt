-- ===== src/Ioctl/Abi.antt =====
-- The kernel's encoding of ioctl commands (asm-generic/ioctl.h), which the source only uses.
use pcm_test.Base.{ℕ_discrete, ◌==◌, ==_refl, ne→==, false, ℕ, ◌<◌, ◌≡◌, ◌≢◌, ap, ◌∙◌, sym}

pub record IoctlAbi : Type 0 where
  pub io : ℕ → ℕ → ℕ  -- `_IO(type, nr)`
  pub type_of : ℕ → ℕ  -- `_IOC_TYPE`
  pub nr_of : ℕ → ℕ  -- `_IOC_NR`
  pub dir_of : ℕ → ℕ  -- `_IOC_DIR`
  pub size_of : ℕ → ℕ  -- `_IOC_SIZE`
  pub dir_read : ℕ  -- `_IOC_READ`
  pub dir_write : ℕ  -- `_IOC_WRITE`

-- A command made by `_IO` shows its type and number, and has no direction.
pub record IsIoctlAbi (a : IoctlAbi) : Type 0 where
  pub type_of-io : (t n : ℕ) → t < 256 → n < 256 → a.type_of (a.io t n) ≡ t
  pub nr_of-io : (t n : ℕ) → t < 256 → n < 256 → a.nr_of (a.io t n) ≡ n
  pub dir_of-io : (t n : ℕ) → t < 256 → n < 256 → a.dir_of (a.io t n) ≡ 0

-- So two numbers of one type are two commands.
io-injective :
    (a : IoctlAbi) (t m n : ℕ)
    → IsIoctlAbi a
    → t < 256
    → m < 256
    → n < 256
    → a.io t m ≡ a.io t n
    → m ≡ n
io-injective a t m n h small hm hn e =
    sym (h.nr_of-io t m small hm) ∙ ap a.nr_of e ∙ h.nr_of-io t n small hn

pub io_eq :
    (a : IoctlAbi) (t m n : ℕ)
    → IsIoctlAbi a
    → t < 256
    → m < 256
    → n < 256
    → (a.io t m == a.io t n) ≡ (m == n)
io_eq a t m n h small hm hn = elim (ℕ_discrete m n) [
  | yes same ↦ rw same (==_refl (a.io t n) ∙ sym (==_refl n))
  | no other ↦ rw (
    ne→== m n other,
    ne→== (a.io t m) (a.io t n) (λ e. other (io-injective a t m n h small hm hn e)),
  )
]

-- A command with a direction is none that `_IO` makes.
pub not_io :
    (a : IoctlAbi) (t cmd n : ℕ)
    → IsIoctlAbi a
    → a.dir_of cmd ≢ 0
    → t < 256
    → n < 256
    → (cmd == a.io t n) ≡ false
not_io a t cmd n h directed small hn =
    ne→== cmd (a.io t n) (λ e. directed (ap a.dir_of e ∙ h.dir_of-io t n small hn))
