-- ===== src/GuestApp/Tests.antt =====
-- The program on a kernel that passes its commands to the driver's handler on the machine of the
-- driver's tests.
use pcm_test.Base.{◌≡◌, refl, some, []}
use pcm_test.Base.{◌∷◌}
use pcm_test.Base.Kernel.{Sys}
use pcm_test.CommandLine.{type_option}
use pcm_test.CommandLine.Tests.{texts, texts-IsCString}
use pcm_test.Ioctl.Gate.{opened, closed}
use pcm_test.Ioctl.FocusTests.{cpuid, invd, perform, pcm_cdev_ioctl}
use pcm_test.Ioctl.Tests.{
  Machine, generic_abi, generic_abi-IsIoctlAbi, machine_cpu, booted, focus_tests,
}
use pcm_test.GuestApp.{SystemCalls, main}
use pcm_test.GuestApp.OnDriver.{Routes, returned_status, main-name}

abbrev guest : SystemCalls (Sys Machine)
guest = record {
  open_file = λ name s. (some 3, s);
  ioctl = λ fd cmd s. (
    returned_status (pcm_cdev_ioctl generic_abi focus_tests machine_cpu cmd 0 s).0,
    (pcm_cdev_ioctl generic_abi focus_tests machine_cpu cmd 0 s).1,
  );
  close = λ fd s. s;
}

guest-Routes :
    Routes guest 3 (λ s. s) (λ cmd. pcm_cdev_ioctl generic_abi focus_tests machine_cpu cmd 0)
guest-Routes = record { open_file-device = λ s. refl; ioctl-handler = λ cmd s. refl }

-- With "-t invd" cpuid's test runs.
main-name_example :
    main generic_abi guest texts 7 (type_option "invd" ∷ []) booted
    ≡ (0, closed machine_cpu (perform generic_abi focus_tests cpuid (opened machine_cpu booted)).1)
main-name_example =
    main-name generic_abi focus_tests machine_cpu guest texts texts-IsCString 7 3 0 invd (λ s. s)
      booted generic_abi-IsIoctlAbi guest-Routes
