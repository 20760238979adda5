-- ===== src/PvClock/WallClock.antt =====
-- kvmclock_test.c: `pvclock_read_wallclock`. The host publishes the wall clock under a version that
-- is odd during an update; the reader's loop is modelled a load at a time, interleaved with the host.
pub mod Snapshot
use pcm_test.Base.{
  ℕ, ◌+◌, ◌*◌, ◌%◌, ◌^◌, ◌≤◌, ◌<◌, ◌≡◌, ◌≢◌, refl, Bool, true, false, arith, bit_and, ◌==◌, not,
  subst, sym, ◌⊎◌, inl, inr, bit_and-one, if◌then◌else◌,
}

-- `struct pvclock_wall_clock` in shared memory. `count` is how often the host has changed the
-- version, which is a u32.
pub record WallClock : Type 0 where
  pub count : ℕ
  pub sec : ℕ
  pub nsec : ℕ

abbrev pub version_of : WallClock → ℕ
version_of w = w.count % 2 ^ 32

-- Where the reader stands in its loop.
pub data Reader : Type 0 where
  start : Reader
  got_version : (version : ℕ) → Reader
  got_sec : (version sec : ℕ) → Reader
  got_nsec : (version sec nsec : ℕ) → Reader
  passed_parity : (version sec nsec : ℕ) → Reader
  accepted : (sec nsec : ℕ) → Reader

-- One load of the reader; the test of the loop makes two.
unfoldable pub load : WallClock → Reader → Reader
load w start = got_version (version_of w)
load w (got_version v) = got_sec v w.sec
load w (got_sec v s) = got_nsec v s w.nsec
load w (got_nsec v s n) = if not (bit_and (version_of w) 1 == 0) then start else passed_parity v s n
load w (passed_parity v s n) = if not (v == version_of w) then start else accepted s n
load w (accepted s n) = accepted s n

pub record Shared : Type 0 where
  pub memory : WallClock
  pub reader : Reader

-- The host follows the protocol of the pvclock interface: it writes only while the version is odd.
pub data Step (s : Shared) : Shared → Type 0 where
  begin_update :
      s.memory.count % 2 ≡ 0
      → Step s (record s { memory = record s.memory { count = s.memory.count + 1 } })
  write_sec :
      (sec : ℕ)
      → s.memory.count % 2 ≡ 1
      → Step s (record s { memory = record s.memory { sec = sec } })
  write_nsec :
      (nsec : ℕ)
      → s.memory.count % 2 ≡ 1
      → Step s (record s { memory = record s.memory { nsec = nsec } })
  end_update :
      s.memory.count % 2 ≡ 1
      → Step s (record s { memory = record s.memory { count = s.memory.count + 1 } })
  read : {r : Reader} → s.reader ≡ r → Step s (record s { reader = load s.memory r })

pub data Steps (s : Shared) : Shared → Type 0 where
  here : Steps s s
  later : {t u : Shared} → Steps s t → Step t u → Steps s u

-- What the kernel gives: `NSEC_PER_SEC`, and `do_div`, as the quotient that it stores and the
-- remainder that it returns.
pub record TimeLib : Type 0 where
  pub nsec_per_sec : ℕ
  pub do_div : ℕ → ℕ → ℕ × ℕ

pub record IsTimeLib (t : TimeLib) : Type 0 where
  pub positive : 0 < t.nsec_per_sec
  pub divides :
      (n base : ℕ)
      → 0 < base
      → (n ≡ (t.do_div n base).0 * base + (t.do_div n base).1) × ((t.do_div n base).1 < base)

-- The rest of `pvclock_read_wallclock`, from the clock's `delta` and the time that the loop
-- accepted: the seconds and nanoseconds that go to `set_normalized_timespec`. `delta` is a u64.
pub wallclock_time : TimeLib → ℕ → ℕ → ℕ → ℕ × ℕ
wallclock_time t delta sec nsec =
    let total = (delta + (sec * t.nsec_per_sec + nsec)) % 2 ^ 64 in
    ((t.do_div total t.nsec_per_sec).0, (t.do_div total t.nsec_per_sec).1)

-- The seconds and nanoseconds make up the sum of the boot time and the clock, modulo 2^64
-- nanoseconds, and the nanoseconds are less than a second.
pub wallclock_time_lem :
    (t : TimeLib) (delta sec nsec : ℕ)
    → IsTimeLib t
    → let time = wallclock_time t delta sec nsec in
      (time.0 * t.nsec_per_sec + time.1 ≡ (delta + (sec * t.nsec_per_sec + nsec)) % 2 ^ 64)
      × (time.1 < t.nsec_per_sec)
unfolding wallclock_time
wallclock_time_lem t delta sec nsec h =
    let q =
      h.divides ((delta + (sec * t.nsec_per_sec + nsec)) % 2 ^ 64) t.nsec_per_sec h.positive in
    (sym q.0, q.1)
