-- ===== src/Chardev/Life/Kept.antt =====
-- pcm-unit/driver/pcm_test_mod.c: calls that leave the module's variables and resources alone.
use pcm_test.Base.{ℕ, ◌≡◌, refl, sym, ◌∙◌, ap, subst, false, inl, inr}
use pcm_test.Base.Kernel.{Sys, M}
use pcm_test.Ioctl.{Cpu, handle}
use pcm_test.Ioctl.Abi.{IoctlAbi}
use pcm_test.Ioctl.Gate.{handle-cases}
use pcm_test.Chardev.{Facilities, Chardev, negative, pcm_test_exit}
use pcm_test.Chardev.Bag.{Resource}
use pcm_test.Chardev.Held.{IsFacilities, Reaches, added, new_node, exit-held}

module _ {C : Type 0} (k : Facilities C) (d : IsFacilities k) where
  open d use {held, is_err}

  -- None of the calls of loading fails.
  pub record Succeeds : Type 0 where
    pub reaches : (c : C) → Reaches k d c
    pub adds : (c : C) → negative (added k d c).0 ≡ false
    pub nodes : (c : C) → is_err (new_node k d c).0 ≡ false

  -- The variables of the file are the same, and what is held too.
  pub record Kept (v w : Chardev C) : Type 0 where
    pub same_major : w.pcm_cdev_major ≡ v.pcm_cdev_major
    pub same_class : w.pcm_class ≡ v.pcm_class
    pub same_cdev : w.pcm_cdev_t ≡ v.pcm_cdev_t
    pub same_held : held w.outer ≡ held v.outer

  pub unchanged : {v w : Chardev C} → w ≡ v → Kept v w
  unchanged {v} e =
      subst (Kept v) (sym e)
        (record { same_major = refl; same_class = refl; same_cdev = refl; same_held = refl })

  both : {u v w : Chardev C} → Kept u v → Kept v w → Kept u w
  both p q = record {
    same_major = q.same_major ∙ p.same_major;
    same_class = q.same_class ∙ p.same_class;
    same_cdev = q.same_cdev ∙ p.same_cdev;
    same_held = q.same_held ∙ p.same_held;
  }

  -- The processor's operations and the tests leave the module's variables and resources alone.
  pub record Keeps (cpu : Cpu (Chardev C)) (dispatch : ℕ → M (Chardev C) (Unit {0})) : Type 0 where
    pub disable : (v : Chardev C) → Kept v (cpu.local_irq_disable v)
    pub enable : (v : Chardev C) → Kept v (cpu.local_irq_enable v)
    pub vmcall : (nr : ℕ) (v : Chardev C) → Kept v (cpu.vmcall nr v)
    pub tests : (cmd : ℕ) (s : Sys (Chardev C)) → Kept s.world (dispatch cmd s).1.world

  pub handle-Kept :
      (abi : IoctlAbi) (cpu : Cpu (Chardev C)) (max_nr : ℕ)
      (dispatch : ℕ → M (Chardev C) (Unit {0}))
      → Keeps cpu dispatch
      → (cmd arg : ℕ) (s : Sys (Chardev C))
      → Kept s.world (handle abi cpu max_nr dispatch cmd arg s).1.world
  handle-Kept abi cpu max_nr dispatch keeps cmd arg s =
      elim (handle-cases abi cpu max_nr dispatch cmd arg s) [
        | inl e ↦ unchanged (ap (λ (t : Sys (Chardev C)). t.world) e)
        | inr e ↦
            subst (λ (t : Sys (Chardev C)). Kept s.world t.world) (sym e)
              (both (both (keeps.disable _) (keeps.vmcall 102 _))
                (both (keeps.tests cmd _) (both (keeps.vmcall 103 _) (keeps.enable _))))
      ]

  -- What is held after unloading.
  abbrev pub left : Sys (Chardev C) → Resource → ℕ
  left s r = held (pcm_test_exit k s).1.world.outer r

  pub Kept-left :
      (s t : Sys (Chardev C)) (r : Resource) → Kept s.world t.world → left t r ≡ left s r
  Kept-left s t r p =
      rw (exit-held k d t, exit-held k d s, p.same_major, p.same_class, p.same_cdev, p.same_held)
        refl
