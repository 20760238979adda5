-- ===== src/MsrTest/Laws.antt =====
-- pcm-unit/driver/msr.c: which entry the search finds, and what the test reports.
use pcm_test.Base.{
  ℕ, zero, suc, ◌+◌, ◌-◌, ◌/◌, ◌%◌, ◌^◌, ◌≤◌, ◌≡◌, ◌≢◌, ◌∙◌, ap, String, List, [], ◌∷◌, ◌++◌,
  Option, none, some, ◌==◌, ==_iff, Bool-cases, inl, inr, arith, All, ne→==, false, append_assoc,
}
use Prim.Native.String.{◌++◌ as then_text}
use pcm_test.Base.Kernel.{Sys, Line}
use pcm_test.MsrTest.{
  MsrRwInfo, MsrPort, msr_info, find_from, find_msr_info, name_at, rw_named, test_msr_rw, known,
}

-- The register of the entry at a place of the table.
abbrev pub index_at : List MsrRwInfo → ℕ → Option ℕ
index_at [] i = none
index_at (e ∷ es) zero = some e.index
index_at (e ∷ es) (suc i) = index_at es i

-- What a result of the search from `from` on says: the entry there is the register's, or none is.
abbrev Located : List MsrRwInfo → ℕ → ℕ → Option ℕ → Type 0
Located es from r none = All (λ e. e.index ≢ r) es
Located es from r (some i) = (from ≤ i) × (index_at es (i - from) ≡ some r)

later-Located :
    (e : MsrRwInfo) (es : List MsrRwInfo) (from r : ℕ) (o : Option ℕ)
    → (e.index == r) ≡ false
    → Located es (from + 1) r o
    → Located (e ∷ es) from r o
later-Located e es from r none other h = (λ same. ground arith, h)
later-Located e es from r (some i) other h =
    let next : i - from ≡ suc (i - (from + 1)) = omega arith in
    (omega arith, ap (index_at (e ∷ es)) next ∙ h.1)

find_from-Located : (es : List MsrRwInfo) (from r : ℕ) → Located es from r (find_from from es r)
unfolding find_from
find_from-Located [] from r = tt
find_from-Located (e ∷ es) from r = elim (Bool-cases (e.index == r)) [
  | inl here ↦
      let first : from - from ≡ 0 = omega arith in
      rw here (omega arith, ap (index_at (e ∷ es)) first ∙ ap some ((==_iff e.index r).0 here))
  | inr other ↦ rw other (
      later-Located e es from r (find_from (from + 1) es r) other
        (find_from-Located es (from + 1) r))
]

-- What `find_msr_info` says of a register: the table has it at the place, or has it nowhere.
abbrev pub Answers : ℕ → Option ℕ → Type 0
Answers r none = All (λ e. e.index ≢ r) msr_info
Answers r (some i) = index_at msr_info i ≡ some r

answer : (r : ℕ) (o : Option ℕ) → Located msr_info 0 r o → Answers r o
answer r none h = h
answer r (some i) h = let here : i ≡ i - 0 = omega arith in ap (index_at msr_info) here ∙ h.1

-- `find_msr_info` gives a place of the table that has the register, or -1 if no entry has it.
pub find_msr_info_lem : (r : ℕ) → Answers r (find_msr_info r)
unfolding find_msr_info
find_msr_info_lem r = answer r (find_from 0 msr_info r) (find_from-Located msr_info 0 r)

-- The two lines of a test whose read gave the error 0, for a name and what was expected.
abbrev pub false_alarm : String → ℕ → List Line
false_alarm name expected =
    record {
      format = then_text "testing " (then_text name ": output = 0x%x:0x%x expected = 0x%x:0x%x\n");
      values = 0 ∷ 0 ∷ expected / 2 ^ 32 % 2 ^ 32 ∷ expected % 2 ^ 32 ∷ [];
    }
    ∷ record { format = then_text "testing " (then_text name " succeed\n"); values = [] }
    ∷ []

module _ {W : Type 0} (p : MsrPort W) where
  -- For a register of the table and an expected value other than 0, if reading the register raises no
  -- error, `test_msr_rw` reports the output 0 as a mismatch and then success, whatever value the
  -- register holds.
  pub test_msr_rw_lem :
      (r input expected i : ℕ) (s : Sys W)
      → find_msr_info r ≡ some i
      → expected ≢ 0
      → ((w : W) → (p.rdmsrl_safe r w).0.0 ≡ 0)
      → (test_msr_rw p r input expected s).1.log
        ≡ s.log ++ false_alarm (name_at msr_info i) expected
  unfolding test_msr_rw known rw_named
  test_msr_rw_lem r input expected i s found nonzero fine =
      rw (found, fine (p.wrmsrl_safe r input s.world).1, ne→== expected 0 nonzero)
        (append_assoc s.log _ _)
