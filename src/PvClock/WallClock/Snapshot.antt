-- ===== src/PvClock/WallClock/Snapshot.antt =====
-- kvmclock_test.c: what `pvclock_read_wallclock` accepts is one time that the host has published.
use pcm_test.Base.{ℕ, ◌%◌, ◌^◌, ◌≤◌, ◌<◌, ◌≡◌, refl, arith, subst, ◌⊎◌, inl, inr, bit_and-one}
use pcm_test.PvClock.WallClock.{
  WallClock, version_of, Reader, start, got_version, got_sec, got_nsec, passed_parity, accepted,
  load, Shared, Step, begin_update, write_sec, write_nsec, end_update, read, Steps, here, later,
}

-- What the reader has loaded still stands, if the version has not moved on and is even.
abbrev IsFresh : WallClock → Reader → Type 0
IsFresh w start = Unit
IsFresh w (got_version v) = v ≤ w.count
IsFresh w (got_sec v s) = (v ≤ w.count) × (v ≡ w.count → v % 2 ≡ 0 → s ≡ w.sec)
IsFresh w (got_nsec v s n) = (v ≤ w.count) × (v ≡ w.count → v % 2 ≡ 0 → (s ≡ w.sec) × (n ≡ w.nsec))
IsFresh w (passed_parity v s n) =
    (v ≤ w.count) × (v ≡ w.count → (v % 2 ≡ 0) × (s ≡ w.sec) × (n ≡ w.nsec))
IsFresh w (accepted s n) = Unit

abbrev Inv : Shared → Type 0
Inv s = s.memory.count < 2 ^ 32 → IsFresh s.memory s.reader

load-IsFresh : (w : WallClock) (r : Reader) → w.count < 2 ^ 32 → IsFresh w r → IsFresh w (load w r)
unfolding load
load-IsFresh w start small h = omega arith
load-IsFresh w (got_version v) small h = (h, λ e p. refl)
load-IsFresh w (got_sec v s) small h = (h.0, λ e p. (h.1 e p, refl))
load-IsFresh w (got_nsec v s n) small h = ground (arith, bit_and-one w.count)
load-IsFresh w (passed_parity v s n) small h = ground arith
load-IsFresh w (accepted s n) small h = tt

-- The host moves the version on, or changes the clock while the version is odd.
abbrev Changes : WallClock → WallClock → Type 0
Changes w w' = (w.count < w'.count) ⊎ ((w'.count ≡ w.count) × (w.count % 2 ≡ 1))

host-IsFresh : (w w' : WallClock) (r : Reader) → Changes w w' → IsFresh w r → IsFresh w' r
host-IsFresh w w' start c h = tt
host-IsFresh w w' (got_version v) c h = omega arith
host-IsFresh w w' (got_sec v s) c h = (omega arith, λ e p. absurd (omega arith))
host-IsFresh w w' (got_nsec v s n) c h = (omega arith, λ e p. absurd (omega arith))
host-IsFresh w w' (passed_parity v s n) c h = (omega arith, λ e. absurd (grind arith))
host-IsFresh w w' (accepted s n) c h = tt

Step-Inv : {s t : Shared} → Step s t → Inv s → Inv t
Step-Inv {s} (begin_update e) inv small =
    host-IsFresh s.memory _ s.reader (inl (omega arith)) (inv (omega arith))
Step-Inv {s} (write_sec x e) inv small =
    host-IsFresh s.memory _ s.reader (inr (refl, e)) (inv small)
Step-Inv {s} (write_nsec x e) inv small =
    host-IsFresh s.memory _ s.reader (inr (refl, e)) (inv small)
Step-Inv {s} (end_update e) inv small =
    host-IsFresh s.memory _ s.reader (inl (omega arith)) (inv (omega arith))
Step-Inv {s} (read {r} e) inv small =
    load-IsFresh s.memory r small (subst (IsFresh s.memory) e (inv small))

Steps-Inv : {s t : Shared} → Inv s → Steps s t → Inv t
Steps-Inv inv here = inv
Steps-Inv inv (later r st) = Step-Inv st (Steps-Inv inv r)

-- However the host's updates and the reader's loads are interleaved, if the version has not wrapped
-- then what the test of the loop accepts is the time that stands in memory at that moment, and no
-- update is under way.
pub accepted_is_published :
    {from s : Shared} (version sec nsec : ℕ)
    → from.reader ≡ start
    → Steps from s
    → s.reader ≡ passed_parity version sec nsec
    → s.memory.count < 2 ^ 32
    → load s.memory s.reader ≡ accepted sec nsec
    → (s.memory.count % 2 ≡ 0) × (sec ≡ s.memory.sec) × (nsec ≡ s.memory.nsec)
unfolding load
accepted_is_published {from} {s} v sec nsec e r at small passed =
    let h = subst (IsFresh s.memory) at (Steps-Inv (λ _. rw e tt) r small) in
    let p = subst (λ q. load s.memory q ≡ accepted sec nsec) at passed in ground arith

-- The reader takes the time in five loads when the host leaves an even version alone.
pub undisturbed_read :
    (w : WallClock)
    → w.count % 2 ≡ 0
    → load w (load w (load w (load w (load w start)))) ≡ accepted w.sec w.nsec
unfolding load
undisturbed_read w even = ground (arith, bit_and-one (version_of w))
