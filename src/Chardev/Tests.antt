-- ===== src/Chardev/Tests.antt =====
-- pcm-unit/driver/pcm_test_mod.c: loading and unloading on a kernel that counts what is held.
use pcm_test.Base.{
  ℕ, ◌*◌, ◌/◌, ◌+◌, ◌-◌, ◌^◌, ◌≡◌, refl, Bool, true, false, if◌then◌else◌, [], Bool-cases, inl, inr,
}
use pcm_test.Base.Kernel.{Sys}
use pcm_test.Chardev.{Facilities, Chardev, negative, pcm_test_init, pcm_test_exit}
use pcm_test.Chardev.Bag.{Resource, region, class_at, block, device, node, Bag, more, less}
use pcm_test.Chardev.Held.{IsFacilities, failed_init-held, pcm_test_exit-pcm_test_init}

-- What is held, and whether cdev_add refuses.
record Counting : Type 0 where
  bag : Bag
  refuses : Bool

abbrev add : Resource → Counting → Counting
add x c = record c { bag = more x c.bag }

abbrev remove : Resource → Counting → Unit {0} × Counting
remove x c = (tt, record c { bag = less x c.bag })

abbrev counting : Facilities Counting
counting = record {
  alloc_chrdev_region = λ minor count name c. ((0, 240 * 2 ^ 20), add (region (240 * 2 ^ 20)) c);
  unregister_chrdev_region = λ dev count c. remove (region dev) c;
  class_create = λ name c. (4096, add (class_at 4096) c);
  class_destroy = λ a c. remove (class_at a) c;
  kmalloc = λ size c. (8192, add (block 8192) c);
  kfree = λ a c. remove (block a) c;
  cdev_init = λ a c. (tt, c);
  set_operations = λ a c. (tt, c);
  cdev_add = λ a dev count c. if c.refuses then (2 ^ 32 - 16, c) else (0, add (device a) c);
  cdev_del = λ a c. remove (device a) c;
  device_create = λ a dev name c. (12288, add (node a dev) c);
  device_destroy = λ a dev c. remove (node a dev) c;
  mkdev = λ major minor. major * 2 ^ 20 + minor;
  major = λ dev. dev / 2 ^ 20;
  sizeof_pcm_cdev = 104;
}

added-bag :
    (a dev : ℕ) (c : Counting)
    → (counting.cdev_add a dev 1 c).1.bag
      ≡ (if negative (counting.cdev_add a dev 1 c).0 then c.bag else more (device a) c.bag)
added-bag a dev c = elim (Bool-cases c.refuses) [ inl e ↦ rw e refl | inr e ↦ rw e refl ]

abbrev counting_laws : IsFacilities counting
counting_laws = record {
  is_err = λ a. false;
  held = λ c. c.bag;
  region-held = λ name c. refl;
  mkdev-major = λ name c e. refl;
  class-held = λ name c. refl;
  block-held = λ size c. refl;
  device-held = added-bag;
  node-held = λ class_addr dev name c. refl;
  cdev_init-held = λ a c. refl;
  set_operations-held = λ a c. refl;
  unregister-held = λ dev c. refl;
  class_destroy-held = λ a c. refl;
  kfree-held = λ a c. refl;
  cdev_del-held = λ a c. refl;
  device_destroy-held = λ class_addr dev c. refl;
}

abbrev unloaded : Bool → Sys (Chardev Counting)
unloaded refuses = record {
  world = record {
    outer = record { bag = λ r. 0; refuses = refuses };
    pcm_cdev_major = 0;
    pcm_class = 0;
    pcm_cdev_t = 0;
  };
  log = [];
}

pcm_test_exit-pcm_test_init_example :
    (pcm_test_exit counting (pcm_test_init counting (unloaded false)).1).1.world.outer.bag
      (block 8192)
    ≡ 0
pcm_test_exit-pcm_test_init_example =
    pcm_test_exit-pcm_test_init counting counting_laws (unloaded false)
      (record { numbered = refl; classed = refl; allocated = refl }) refl refl (block 8192)

failed_init-held_example :
    ((pcm_test_init counting (unloaded true)).0 ≡ 2 ^ 32 - 16)
    × ((pcm_test_init counting (unloaded true)).1.world.outer.bag
        ≡ more (block 8192) (more (class_at 4096) (more (region (240 * 2 ^ 20)) (λ r. 0))))
failed_init-held_example =
    failed_init-held counting counting_laws (unloaded true)
      (record { numbered = refl; classed = refl; allocated = refl }) refl
