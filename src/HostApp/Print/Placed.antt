-- ===== src/HostApp/Print/Placed.antt =====
-- What the programs of focus_test/hostapp/ print, by the places of the bytes in the file.
use pcm_test.Base.{
  ℕ, zero, suc, ◌+◌, ◌≤◌, ◌≡◌, refl, sym, ◌∙◌, ap, String, List, [], ◌∷◌, ◌++◌, Bool, true, false,
  length-append, arith, map, length, take, drop, Bool-cases, inl, inr, same_text, if◌then◌else◌,
}
use pcm_test.Base.Kernel.{Line}
use pcm_test.HostApp.Layout.{Member, value, read_le}
use pcm_test.HostApp.Print.{Stdio, Print, printed, printf}

-- `fread` gives a whole item if the file has one.
pub record IsStdio {W : Type 0} (io : Stdio W) : Type 0 where
  pub fread-whole :
      (n : ℕ) (file buffer : List ℕ) → n ≤ length file → io.fread n file buffer ≡ take n file

take-append : (xs ys : List ℕ) → take (length xs) (xs ++ ys) ≡ xs
take-append [] ys = refl
take-append (x ∷ xs) ys = ap (λ l. x ∷ l) (take-append xs ys)

pub fread_exact :
    {W : Type 0} (io : Stdio W) (n : ℕ) (bytes rest buffer : List ℕ)
    → IsStdio io
    → length bytes ≡ n
    → io.fread n (bytes ++ rest) buffer ≡ bytes
fread_exact io n bytes rest buffer d e =
    d.fread-whole n (bytes ++ rest) buffer (omega (arith, length-append bytes rest, e))
    ∙ ap (λ k. take k (bytes ++ rest)) (sym e)
    ∙ take-append bytes rest

-- A printed line: its format, whether it asks for more bits than the numbers have, and where the
-- numbers stand, as their first byte and their count of bytes.
pub record Field : Type 0 where
  pub format : String
  pub widens : Bool
  pub places : List (ℕ × ℕ)

abbrev pub field : String → ℕ → ℕ → Field
field f offset width = record { format = f; widens = false; places = (offset, width) ∷ [] }

abbrev pub wide_field : String → ℕ → ℕ → Field
wide_field f offset width = record { format = f; widens = true; places = (offset, width) ∷ [] }

abbrev pub title : String → Field
title f = record { format = f; widens = false; places = [] }

-- The little-endian number at a place.
abbrev pub number_at : List ℕ → ℕ × ℕ → ℕ
number_at bs p = read_le (take p.1 (drop p.0 bs))

abbrev pub line : {W : Type 0} → Stdio W → List ℕ → Field → Line
line io bs f = record {
  format = f.format;
  values = map (λ p. printed io f.format f.widens (number_at bs p)) f.places;
}

-- Where a structure that begins at `base` has a member, and what a call of `printf` prints of it.
abbrev pub place : ℕ → List Member → String → ℕ × ℕ
place base [] n = (base, 0)
place base (m ∷ ms) n =
    let rest = place (base + m.width) ms n in if same_text m.name n then (base, m.width) else rest

abbrev pub field_of : ℕ → List Member → Print → Field
field_of base ms p = record {
  format = p.format;
  widens = p.widens;
  places = map (place base ms) p.members;
}

drop-nil : (n : ℕ) → drop {A = ℕ} n [] ≡ []
drop-nil zero = refl
drop-nil (suc n) = refl

drop-drop : (m n : ℕ) (bs : List ℕ) → drop n (drop m bs) ≡ drop (m + n) bs
drop-drop zero n bs = ap (λ k. drop k bs) (omega arith)
drop-drop (suc m) n [] = drop-nil n ∙ sym (drop-nil (suc m + n))
drop-drop (suc m) n (b ∷ bs) =
    let later : suc (m + n) ≡ suc m + n = omega arith in
    drop-drop m n bs ∙ ap (λ k. drop k (b ∷ bs)) later

value-place :
    (base : ℕ) (ms : List Member) (n : String) (bs : List ℕ)
    → value ms n (drop base bs) ≡ number_at bs (place base ms n)
unfolding value
value-place base [] n bs = refl
value-place base (m ∷ ms) n bs = elim (Bool-cases (same_text m.name n)) [
  | inl same ↦ rw same refl
  | inr other ↦
      rw other (ap (value ms n) (drop-drop base m.width bs) ∙ value-place (base + m.width) ms n bs)
]

module _ {W : Type 0} (io : Stdio W) (base : ℕ) (ms : List Member) (bs : List ℕ) where
  values-places :
      (format : String) (widens : Bool) (ns : List String)
      → map (λ n. printed io format widens (value ms n (drop base bs))) ns
        ≡ map (λ p. printed io format widens (number_at bs p)) (map (place base ms) ns)
  values-places format widens [] = refl
  values-places format widens (n ∷ ns) =
      rw (value-place base ms n bs, values-places format widens ns) refl

  pub printf-places :
      (ps : List Print)
      → map (printf io ms (drop base bs)) ps ≡ map (line io bs) (map (field_of base ms) ps)
  printf-places [] = refl
  printf-places (p ∷ ps) = rw (values-places p.format p.widens p.members, printf-places ps) refl
