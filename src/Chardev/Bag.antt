-- ===== src/Chardev/Bag.antt =====
-- pcm-unit/driver/pcm_test_mod.c: the resources that a driver holds, each with its number.
use pcm_test.Base.{ℕ, suc, ◌-◌, ◌≡◌, refl, Bool, true, false, ◌&&◌, ◌==◌, if◌then◌else◌, arith}

-- What a driver can hold: a device number, a class, a block, a device at an address, and a node.
pub data Resource : Type 0 where
  region : ℕ → Resource
  class_at : ℕ → Resource
  block : ℕ → Resource
  device : ℕ → Resource
  node : ℕ → ℕ → Resource

abbrev pub same : Resource → Resource → Bool
same (region a) (region b) = a == b
same (class_at a) (class_at b) = a == b
same (block a) (block b) = a == b
same (device a) (device b) = a == b
same (node c a) (node e b) = c == e && a == b
same _ _ = false

-- How often each is held, with one more and with one less.
abbrev pub Bag : Type 0
Bag = Resource → ℕ

abbrev pub more : Resource → Bag → Bag
more x bag r = if same x r then suc (bag r) else bag r

abbrev pub less : Resource → Bag → Bag
less x bag r = if same x r then bag r - 1 else bag r

-- One less of what there is one more of.
back : (b : Bool) (n : ℕ) → (if b then (if b then suc n else n) - 1 else if b then suc n else n) ≡ n
back true n = omega arith
back false n = refl

-- What is taken in the order in which `pcm_test_init` takes it is given back in the other order.
pub balance :
    (dev class_addr a : ℕ) (bag : Bag) (r : Resource)
    → less
        (region dev)
        (less (block a) (
          less (device a) (
            less (class_at class_addr) (
              less (node class_addr dev) (
                more (node class_addr dev) (
                  more
                    (device a)
                    (more (block a) (more (class_at class_addr) (more (region dev) bag)))))))))
        r
      ≡ bag r
balance dev class_addr a bag (region b) = back (dev == b) _
balance dev class_addr a bag (class_at b) = back (class_addr == b) _
balance dev class_addr a bag (block b) = back (a == b) _
balance dev class_addr a bag (device b) = back (a == b) _
balance dev class_addr a bag (node e b) = back (class_addr == e && dev == b) _
