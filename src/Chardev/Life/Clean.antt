-- ===== src/Chardev/Life/Clean.antt =====
-- pcm-unit/driver/pcm_test_mod.c: what is held over the module's whole life.
use pcm_test.Base.{ℕ, ◌≡◌, refl, ◌∙◌, ap, Bool, true, false, Option, none, update, arith}
use pcm_test.Base.Kernel.{Sys, M}
use pcm_test.Ioctl.{Cpu, Status, handle}
use pcm_test.Ioctl.Abi.{IoctlAbi}
use pcm_test.Chardev.{Facilities, Chardev, negative, pcm_cdev_open, pcm_cdev_release}
use pcm_test.Chardev.Bag.{Resource, Bag}
use pcm_test.Chardev.Held.{IsFacilities, init-result, pcm_test_exit-pcm_test_init}
use pcm_test.Chardev.Life.{
  Life, Step, load, refuse, open_file, command, release, unload, Steps, here, later,
}
use pcm_test.Chardev.Life.Kept.{Succeeds, Kept, Keeps, unchanged, handle-Kept, Kept-left, left}

released_none :
    (files : ℕ → Option ℕ) (file j : ℕ) → files j ≡ none → update files file none j ≡ none
released_none files file j e = ground arith

not_both : {A : Type 0} {b : Bool} → b ≡ true → b ≡ false → A
not_both e f = ground arith

module _ {C : Type 0} (k : Facilities C) (d : IsFacilities k) where
  open d use {held, is_err}

  -- What holds of a life that began with `start` held: unloading would give back the rest, and no file
  -- is open while the module is not loaded.
  record Inv (start : Bag) (s : Life C) : Type 0 where
    gives_back : s.loaded ≡ true → (r : Resource) → left k d s.sys r ≡ start r
    gave_back : s.loaded ≡ false → (r : Resource) → held s.sys.world.outer r ≡ start r
    closes : (file : ℕ) → s.loaded ≡ false → s.files file ≡ none

  module _ (succeeds : Succeeds k d) (handler : ℕ → ℕ → M (Chardev C) Status)
      (keeps : (cmd arg : ℕ) (s : Sys (Chardev C)) → Kept k d s.world (handler cmd arg s).1.world)
      (start : Bag) where
    -- A step that leaves the module's variables and resources alone, and the files too.
    undisturbed :
        {s : Life C} (t : Sys (Chardev C))
        → Inv start s
        → Kept k d s.sys.world t.world
        → Inv start (record s { sys = t })
    undisturbed {s} t inv p = record {
      gives_back = λ e r. Kept-left k d s.sys t r p ∙ inv.gives_back e r;
      gave_back = λ e r. ap (λ (b : Bag). b r) p.same_held ∙ inv.gave_back e r;
      closes = inv.closes;
    }

    with_files :
        {s : Life C} (files : ℕ → Option ℕ)
        → Inv start s
        → ((file : ℕ) → s.loaded ≡ false → files file ≡ none)
        → Inv start (record s { files = files })
    with_files files inv closes = record {
      gives_back = inv.gives_back;
      gave_back = inv.gave_back;
      closes = closes;
    }

    Step-Inv : {s t : Life C} → Inv start s → Step k handler s t → Inv start t
    unfolding pcm_cdev_open pcm_cdev_release
    Step-Inv {s} inv (load off ok) =
        let c = s.sys.world.outer in
        record {
          gives_back = λ e r.
              pcm_test_exit-pcm_test_init k d s.sys (succeeds.reaches c) (succeeds.adds c)
                (succeeds.nodes c) r
              ∙ inv.gave_back off r;
          gave_back = λ e. not_both refl e;
          closes = λ file e. inv.closes file off;
        }
    Step-Inv {s} inv (refuse off failed) =
        let c = s.sys.world.outer in
        not_both failed (
          ap negative (init-result k d s.sys (succeeds.reaches c) (succeeds.adds c))
          ∙ succeeds.adds c)
    Step-Inv {s} inv (open_file file i_cdev on free) =
        undisturbed _ (with_files _ inv (λ j off. not_both on off)) (unchanged k d refl)
    Step-Inv {s} inv (command file private_data cmd arg e) = undisturbed _ inv (keeps cmd arg s.sys)
    Step-Inv {s} inv (release file private_data e) =
        undisturbed _ (with_files _ inv (λ j off. released_none s.files file j (inv.closes j off)))
          (unchanged k d refl)
    Step-Inv {s} inv (unload on closed_all) = record {
      gives_back = λ e. not_both e refl;
      gave_back = λ e r. inv.gives_back on r;
      closes = λ file e. closed_all file;
    }

    Steps-Inv : {s t : Life C} → Inv start s → Steps k handler s t → Inv start t
    Steps-Inv inv here = inv
    Steps-Inv inv (later r st) = Step-Inv (Steps-Inv inv r) st

  -- Nothing is loaded, and no file is open.
  pub record IsFresh (s : Life C) : Type 0 where
    pub unloaded : s.loaded ≡ false
    pub no_files : (file : ℕ) → s.files file ≡ none

  module _ (abi : IoctlAbi) (cpu : Cpu (Chardev C)) (max_nr : ℕ)
      (dispatch : ℕ → M (Chardev C) (Unit {0})) where
    from_fresh :
        {s t : Life C}
        → Succeeds k d
        → Keeps k d cpu dispatch
        → IsFresh s
        → Steps k (handle abi cpu max_nr dispatch) s t
        → Inv (held s.sys.world.outer) t
    from_fresh {s} succeeds keeps fresh r =
        Steps-Inv succeeds (handle abi cpu max_nr dispatch)
          (handle-Kept k d abi cpu max_nr dispatch keeps) (held s.sys.world.outer)
          (record {
            gives_back = λ e. not_both e fresh.unloaded;
            gave_back = λ e resource. refl;
            closes = λ file e. fresh.no_files file;
          })
          r

    -- On a kernel whose functions add what they give and take away what they are told, if the calls of
    -- loading succeed, and the tests leave the module's variables and
    -- resources alone, then however the module is loaded, used and unloaded from a fresh start,
    -- whenever it is not loaded each device number, class, block, device and node is held as often as
    -- at the start.
    pub unloaded-balanced :
        {s t : Life C}
        → Succeeds k d
        → Keeps k d cpu dispatch
        → IsFresh s
        → Steps k (handle abi cpu max_nr dispatch) s t
        → t.loaded ≡ false
        → (r : Resource) → held t.sys.world.outer r ≡ held s.sys.world.outer r
    unloaded-balanced succeeds keeps fresh r off = (from_fresh succeeds keeps fresh r).gave_back off
