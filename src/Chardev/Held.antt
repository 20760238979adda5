-- ===== src/Chardev/Held.antt =====
-- pcm-unit/driver/pcm_test_mod.c: what the driver registers and allocates, and what it gives back.
use pcm_test.Base.{ℕ, ◌≡◌, refl, Bool, true, false, ◌==◌, if◌then◌else◌, String, arith}
use pcm_test.Base.Kernel.{Sys}
use pcm_test.Chardev.Bag.{Resource, region, class_at, block, device, node, Bag, more, less, balance}
use pcm_test.Chardev.{
  Facilities, Chardev, pcm_cdev_name, negative, pcm_cdev_init, pcm_cdev_add, pcm_cdev_exit,
  pcm_test_init, pcm_test_exit,
}

-- What the kernel documents of these functions, for `held`: those that succeed add what they give, and
-- the others take away what they are told. A new device number has the minor number 0 that was asked
-- for, so that its major number determines it.
pub record IsFacilities {C : Type 0} (k : Facilities C) : Type 0 where
  pub is_err : ℕ → Bool
  pub held : C → Bag
  pub region-held :
      (name : String) (c : C)
      → held (k.alloc_chrdev_region 0 1 name c).1 ≡ (
          if negative (k.alloc_chrdev_region 0 1 name c).0.0
          then held c
          else more (region (k.alloc_chrdev_region 0 1 name c).0.1) (held c))
  pub mkdev-major :
      (name : String) (c : C)
      → negative (k.alloc_chrdev_region 0 1 name c).0.0 ≡ false
      → k.mkdev (k.major (k.alloc_chrdev_region 0 1 name c).0.1) 0
        ≡ (k.alloc_chrdev_region 0 1 name c).0.1
  pub class-held :
      (name : String) (c : C)
      → held (k.class_create name c).1 ≡ (
          if is_err (k.class_create name c).0
          then held c
          else more (class_at (k.class_create name c).0) (held c))
  pub block-held :
      (size : ℕ) (c : C)
      → held (k.kmalloc size c).1
        ≡ (if (k.kmalloc size c).0 == 0 then held c else more (block (k.kmalloc size c).0) (held c))
  pub device-held :
      (a dev : ℕ) (c : C)
      → held (k.cdev_add a dev 1 c).1
        ≡ (if negative (k.cdev_add a dev 1 c).0 then held c else more (device a) (held c))
  pub node-held :
      (class_addr dev : ℕ) (name : String) (c : C)
      → held (k.device_create class_addr dev name c).1 ≡ (
          if is_err (k.device_create class_addr dev name c).0
          then held c
          else more (node class_addr dev) (held c))
  pub cdev_init-held : (a : ℕ) (c : C) → held (k.cdev_init a c).1 ≡ held c
  pub set_operations-held : (a : ℕ) (c : C) → held (k.set_operations a c).1 ≡ held c
  pub unregister-held :
      (dev : ℕ) (c : C) → held (k.unregister_chrdev_region dev 1 c).1 ≡ less (region dev) (held c)
  pub class_destroy-held :
      (a : ℕ) (c : C) → held (k.class_destroy a c).1 ≡ less (class_at a) (held c)
  pub kfree-held : (a : ℕ) (c : C) → held (k.kfree a c).1 ≡ less (block a) (held c)
  pub cdev_del-held : (a : ℕ) (c : C) → held (k.cdev_del a c).1 ≡ less (device a) (held c)
  pub device_destroy-held :
      (class_addr dev : ℕ) (c : C)
      → held (k.device_destroy class_addr dev c).1 ≡ less (node class_addr dev) (held c)

module _ {C : Type 0} (k : Facilities C) (d : IsFacilities k) where
  open d use {
    is_err, held, region-held, mkdev-major, class-held, block-held, device-held, node-held,
    cdev_init-held, set_operations-held, unregister-held, class_destroy-held, kfree-held,
    cdev_del-held, device_destroy-held,
  }

  -- What `pcm_cdev_exit` takes away, by the variables of the file.
  pub exit-held :
      (s : Sys (Chardev C))
      → held (pcm_test_exit k s).1.world.outer
        ≡ less (region (k.mkdev s.world.pcm_cdev_major 0)) (
            less (block s.world.pcm_cdev_t) (
              less (device s.world.pcm_cdev_t) (
                less (class_at s.world.pcm_class) (
                  less
                    (node s.world.pcm_class (k.mkdev s.world.pcm_cdev_major 0))
                    (held s.world.outer)))))
  unfolding pcm_test_exit pcm_cdev_exit
  exit-held s =
      rw (unregister-held, kfree-held, cdev_del-held, class_destroy-held, device_destroy-held) refl

  -- The calls of `pcm_test_init` from a state, as far as each is made.
  abbrev pub number : C → (ℕ × ℕ) × C
  number c = k.alloc_chrdev_region 0 1 pcm_cdev_name c

  abbrev pub new_class : C → ℕ × C
  new_class c = k.class_create pcm_cdev_name (number c).1

  abbrev pub new_block : C → ℕ × C
  new_block c = k.kmalloc k.sizeof_pcm_cdev (new_class c).1

  abbrev pub prepared : C → C
  prepared c = (k.set_operations (new_block c).0 (k.cdev_init (new_block c).0 (new_block c).1).1).1

  abbrev pub added : C → ℕ × C
  added c = k.cdev_add (new_block c).0 (number c).0.1 1 (prepared c)

  abbrev pub new_node : C → ℕ × C
  new_node c = k.device_create (new_class c).0 (number c).0.1 pcm_cdev_name (added c).1

  -- Loading comes as far as cdev_add.
  pub record Reaches (c : C) : Type 0 where
    pub numbered : negative (number c).0.0 ≡ false
    pub classed : is_err (new_class c).0 ≡ false
    pub allocated : ((new_block c).0 == 0) ≡ false

  -- The driver with its variables set.
  abbrev set_up : C → C → Chardev C
  set_up c after = record {
    outer = after;
    pcm_cdev_major = k.major (number c).0.1;
    pcm_class = (new_class c).0;
    pcm_cdev_t = (new_block c).0;
  }

  added-held :
      (c : C)
      → Reaches c
      → held (prepared c)
        ≡ more
            (block (new_block c).0)
            (more (class_at (new_class c).0) (more (region (number c).0.1) (held c)))
  added-held c h =
      rw
        (
          set_operations-held, cdev_init-held, block-held, h.allocated, class-held, h.classed,
          region-held, h.numbered,
        )
        refl

  init-added :
      (s : Sys (Chardev C))
      → Reaches s.world.outer
      → negative (added s.world.outer).0 ≡ false
      → (pcm_test_init k s).1.world ≡ set_up s.world.outer (new_node s.world.outer).1
  unfolding pcm_test_init pcm_cdev_init pcm_cdev_add
  init-added s h ok =
      rw
        (
          h.numbered,
          mkdev-major pcm_cdev_name s.world.outer h.numbered,
          ok,
          mkdev-major pcm_cdev_name s.world.outer h.numbered,
        )
        refl

  pub init-result :
      (s : Sys (Chardev C))
      → Reaches s.world.outer
      → negative (added s.world.outer).0 ≡ false
      → (pcm_test_init k s).0 ≡ (added s.world.outer).0
  unfolding pcm_test_init pcm_cdev_init pcm_cdev_add
  init-result s h ok = rw (h.numbered, mkdev-major pcm_cdev_name s.world.outer h.numbered, ok) refl

  -- While the driver is loaded it holds the block that its variable points to.
  pub init-block :
      (s : Sys (Chardev C))
      → Reaches s.world.outer
      → negative (added s.world.outer).0 ≡ false
      → is_err (new_node s.world.outer).0 ≡ false
      → let d = (pcm_test_init k s).1.world in (held d.outer (block d.pcm_cdev_t) == 0) ≡ false
  init-block s h ok noded =
      rw
        (
          init-added s h ok,
          node-held (new_class s.world.outer).0 (number s.world.outer).0.1 pcm_cdev_name
              (added s.world.outer).1,
          noded,
          device-held (new_block s.world.outer).0 (number s.world.outer).0.1
              (prepared s.world.outer),
          ok,
          added-held s.world.outer h,
        )
        (ground arith)

  init-failed :
      (s : Sys (Chardev C))
      → Reaches s.world.outer
      → negative (added s.world.outer).0 ≡ true
      → ((pcm_test_init k s).0 ≡ (added s.world.outer).0)
        × ((pcm_test_init k s).1.world ≡ set_up s.world.outer (added s.world.outer).1)
  unfolding pcm_test_init pcm_cdev_init pcm_cdev_add
  init-failed s h bad = (
    rw (h.numbered, mkdev-major pcm_cdev_name s.world.outer h.numbered, bad) refl,
    rw (h.numbered, mkdev-major pcm_cdev_name s.world.outer h.numbered, bad) refl,
  )

  -- If every call succeeds, unloading gives back all that loading took.
  pub pcm_test_exit-pcm_test_init :
      (s : Sys (Chardev C))
      → Reaches s.world.outer
      → negative (added s.world.outer).0 ≡ false
      → is_err (new_node s.world.outer).0 ≡ false
      → (r : Resource)
      → held (pcm_test_exit k (pcm_test_init k s).1).1.world.outer r ≡ held s.world.outer r
  pcm_test_exit-pcm_test_init s h ok noded r =
      rw
        (
          exit-held (pcm_test_init k s).1,
          init-added s h ok,
          mkdev-major pcm_cdev_name s.world.outer h.numbered,
          node-held (new_class s.world.outer).0 (number s.world.outer).0.1 pcm_cdev_name
              (added s.world.outer).1,
          noded,
          device-held (new_block s.world.outer).0 (number s.world.outer).0.1
              (prepared s.world.outer),
          ok,
          added-held s.world.outer h,
        )
        (balance (number s.world.outer).0.1 (new_class s.world.outer).0 (new_block s.world.outer).0
          (held s.world.outer) r)

  -- If cdev_add fails, loading returns its error, and the number, the class and the block stay taken.
  pub failed_init-held :
      (s : Sys (Chardev C))
      → Reaches s.world.outer
      → negative (added s.world.outer).0 ≡ true
      → ((pcm_test_init k s).0 ≡ (added s.world.outer).0)
        × (held (pcm_test_init k s).1.world.outer
            ≡ more (block (new_block s.world.outer).0) (
                more
                  (class_at (new_class s.world.outer).0)
                  (more (region (number s.world.outer).0.1) (held s.world.outer))))
  failed_init-held s h bad = (
    (init-failed s h bad).0,
    rw
        (
          (init-failed s h bad).1,
          device-held (new_block s.world.outer).0 (number s.world.outer).0.1
              (prepared s.world.outer),
          bad,
        )
        (added-held s.world.outer h),
  )
