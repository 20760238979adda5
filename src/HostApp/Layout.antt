-- ===== src/HostApp/Layout.antt =====
-- Packed structures (#pragma pack(1)) as focus_test/hostapp/ckcpu.c and ckevent.c read them from a
-- file: the members one after the other, without padding, each a little-endian number.
use pcm_test.Base.{ℕ, ◌+◌, ◌*◌, String, List, [], ◌∷◌, if◌then◌else◌, take, drop, same_text}

-- A member and its size in bytes.
pub record Member : Type 0 where
  pub name : String
  pub width : ℕ

abbrev pub u16 : String → Member
u16 s = record { name = s; width = 2 }

abbrev pub u32 : String → Member
u32 s = record { name = s; width = 4 }

abbrev pub u64 : String → Member
u64 s = record { name = s; width = 8 }

-- `sizeof`
abbrev pub sizeof : List Member → ℕ
sizeof [] = 0
sizeof (m ∷ ms) = m.width + sizeof ms

-- A number in the bytes of memory.
abbrev pub read_le : List ℕ → ℕ
read_le [] = 0
read_le (b ∷ bs) = b + 256 * read_le bs

-- The value of the member `n` of a structure that stands in the bytes; 0 for a name that is none,
-- which a compiler refuses.
unfoldable pub value : List Member → String → List ℕ → ℕ
value [] n bs = 0
value (m ∷ ms) n bs =
    let rest = value ms n (drop m.width bs) in
    if same_text m.name n then read_le (take m.width bs) else rest
