-- ===== src/Chardev.antt =====
-- pcm-unit/driver/pcm_test_mod.c: loading and unloading the driver, and opening its device. The same
-- functions of focus_test/driver/pcm_test_mod.c have the same text.
pub mod Bag
pub mod Held
pub mod Life
pub mod FocusDriver
mod Tests
use pcm_test.Base.{ℕ, ◌^◌, Bool, String, [], ◌∷◌, leb, if◌then◌else◌}
use pcm_test.Base.Kernel.{M, pure, ◌>>=◌, ◌>>◌, printk, outside}

-- The functions of the kernel. Addresses are numbers, and an int is a 32-bit pattern;
-- alloc_chrdev_region gives a device number beside its result, which a failure leaves unused.
-- `set_operations` stores the owner and the operations into the device at an address.
pub record Facilities (C : Type 0) : Type 0 where
  pub alloc_chrdev_region : ℕ → ℕ → String → C → (ℕ × ℕ) × C
  pub unregister_chrdev_region : ℕ → ℕ → C → Unit {0} × C
  pub class_create : String → C → ℕ × C
  pub class_destroy : ℕ → C → Unit {0} × C
  pub kmalloc : ℕ → C → ℕ × C
  pub kfree : ℕ → C → Unit {0} × C
  pub cdev_init : ℕ → C → Unit {0} × C
  pub set_operations : ℕ → C → Unit {0} × C
  pub cdev_add : ℕ → ℕ → ℕ → C → ℕ × C
  pub cdev_del : ℕ → C → Unit {0} × C
  pub device_create : ℕ → ℕ → String → C → ℕ × C
  pub device_destroy : ℕ → ℕ → C → Unit {0} × C
  pub mkdev : ℕ → ℕ → ℕ
  pub major : ℕ → ℕ
  pub sizeof_pcm_cdev : ℕ

-- What is outside, and the variables of the file.
pub record Chardev (C : Type 0) : Type 0 where
  pub outer : C
  pub pcm_cdev_major : ℕ
  pub pcm_class : ℕ
  pub pcm_cdev_t : ℕ

-- `PCM_CDEV_NAME`
abbrev pub pcm_cdev_name : String
pcm_cdev_name = "pcm_test"

-- A negative int.
abbrev pub negative : ℕ → Bool
negative ret = leb (2 ^ 31) ret

module _ {C : Type 0} (k : Facilities C) where
  abbrev call : {A : Type 0} → (C → A × C) → M (Chardev C) A
  call f = outside (λ d. ((f d.outer).0, record d { outer = (f d.outer).1 }))

  abbrev modify : (Chardev C → Chardev C) → M (Chardev C) (Unit {0})
  modify f = outside (λ d. (tt, f d))

  abbrev fetch : {A : Type 0} → (Chardev C → A) → M (Chardev C) A
  fetch f = outside (λ d. (f d, d))

  pub pcm_cdev_init : M (Chardev C) ℕ
  pcm_cdev_init = do
    r ← call (k.alloc_chrdev_region 0 1 pcm_cdev_name)
    if negative r.0
        then (do printk "alloc_chrdev_region error\n" []; pure r.0)
        else (do modify (λ d. record d { pcm_cdev_major = k.major r.1 }); pure r.0)

  pub pcm_cdev_add : M (Chardev C) ℕ
  pcm_cdev_add = do
    dev_no ← fetch (λ d. k.mkdev d.pcm_cdev_major 0)
    new_class ← call (k.class_create pcm_cdev_name)
    modify (λ d. record d { pcm_class = new_class })
    block ← call (k.kmalloc k.sizeof_pcm_cdev)
    modify (λ d. record d { pcm_cdev_t = block })
    call (k.cdev_init block)
    call (k.set_operations block)
    ret ← call (k.cdev_add block dev_no 1)
    if negative ret then (do printk "Fail to cdev_add\n" []; pure ret) else (do
      d ← fetch (λ d. d)
      node ← call (k.device_create d.pcm_class (k.mkdev d.pcm_cdev_major 0) pcm_cdev_name)
      pure ret)

  pub pcm_cdev_exit : M (Chardev C) (Unit {0})
  pcm_cdev_exit = do
    d ← fetch (λ d. d)
    call (k.device_destroy d.pcm_class (k.mkdev d.pcm_cdev_major 0))
    call (k.class_destroy d.pcm_class)
    call (k.cdev_del d.pcm_cdev_t)
    call (k.kfree d.pcm_cdev_t)
    call (k.unregister_chrdev_region (k.mkdev d.pcm_cdev_major 0) 1)

  -- The result of `pcm_cdev_init` is dropped.
  pub pcm_test_init : M (Chardev C) ℕ
  pcm_test_init = do dropped ← pcm_cdev_init; pcm_cdev_add

  pub pcm_test_exit : M (Chardev C) (Unit {0})
  pcm_test_exit = pcm_cdev_exit

  -- The private data of the open file: the structure at the address of its first member.
  pub pcm_cdev_open : ℕ → M (Chardev C) (ℕ × ℕ)
  pcm_cdev_open i_cdev = do printk "%s()\n" []; pure (0, i_cdev)

  pub pcm_cdev_release : M (Chardev C) ℕ
  pcm_cdev_release = do printk "%s()\n" []; pure 0
