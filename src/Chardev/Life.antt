-- ===== src/Chardev/Life.antt =====
-- pcm-unit/driver/pcm_test_mod.c: the life of the module in the kernel. The kernel loads it, opens its
-- device, passes commands, closes files and unloads it, in any order that it allows: `owner` is the
-- module, so that it stays while a file is open.
pub mod Kept
pub mod Clean
use pcm_test.Base.{ℕ, Bool, true, false, Option, none, some, ◌≡◌, update}
use pcm_test.Base.Kernel.{Sys, M}
use pcm_test.Ioctl.{Status}
use pcm_test.Chardev.{
  Facilities, Chardev, negative, pcm_test_init, pcm_test_exit, pcm_cdev_open, pcm_cdev_release,
}

-- The driver, whether it is loaded, and the private data of each open file.
pub record Life (C : Type 0) : Type 0 where
  pub sys : Sys (Chardev C)
  pub loaded : Bool
  pub files : ℕ → Option ℕ

-- `pcm_cdev_file_ops` has the open, the handler and the release. The kernel passes the open the
-- inode's device, `i_cdev`.
module _ {C : Type 0} (k : Facilities C) (handler : ℕ → ℕ → M (Chardev C) Status) where
  pub data Step (s : Life C) : Life C → Type 0 where
    load :
        s.loaded ≡ false
        → negative (pcm_test_init k s.sys).0 ≡ false
        → Step s (record s { sys = (pcm_test_init k s.sys).1; loaded = true })
    refuse :
        s.loaded ≡ false
        → negative (pcm_test_init k s.sys).0 ≡ true
        → Step s (record s { sys = (pcm_test_init k s.sys).1 })
    open_file :
        (file i_cdev : ℕ)
        → s.loaded ≡ true
        → s.files file ≡ none
        → Step s (record s {
          sys = (pcm_cdev_open k i_cdev s.sys).1;
          files = update s.files file (some (pcm_cdev_open k i_cdev s.sys).0.1);
        })
    command :
        (file private_data cmd arg : ℕ)
        → s.files file ≡ some private_data
        → Step s (record s { sys = (handler cmd arg s.sys).1 })
    release :
        (file private_data : ℕ)
        → s.files file ≡ some private_data
        → Step s (record s { sys = (pcm_cdev_release k s.sys).1; files = update s.files file none })
    unload :
        s.loaded ≡ true
        → ((file : ℕ) → s.files file ≡ none)
        → Step s (record s { sys = (pcm_test_exit k s.sys).1; loaded = false })

  pub data Steps (s : Life C) : Life C → Type 0 where
    here : Steps s s
    later : {t u : Life C} → Steps s t → Step t u → Steps s u
