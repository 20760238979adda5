-- ===== src/Ioapic/Entry.antt =====
-- ioapic.c: `ioapic_redir_entry_t`, and its two 32-bit words as the compiler lays the bit-fields out
-- (first field in the lowest bits).
use pcm_test.Base.{ℕ, ◌+◌, ◌*◌, ◌/◌, ◌%◌, ◌^◌, ◌<◌, ◌≡◌, arith}

-- `reserved0` to `reserved3` are the bytes of the array `reserved`.
pub record RedirEntry : Type 0 where
  pub vector : ℕ
  pub delivery_mode : ℕ
  pub dest_mode : ℕ
  pub delivery_status : ℕ
  pub polarity : ℕ
  pub remote_irr : ℕ
  pub trig_mode : ℕ
  pub mask : ℕ
  pub reserve : ℕ
  pub reserved0 : ℕ
  pub reserved1 : ℕ
  pub reserved2 : ℕ
  pub reserved3 : ℕ
  pub dest_id : ℕ

-- Every field fits its width.
pub record IsEntry (e : RedirEntry) : Type 0 where
  pub vector-lt : e.vector < 2 ^ 8
  pub delivery_mode-lt : e.delivery_mode < 2 ^ 3
  pub dest_mode-lt : e.dest_mode < 2
  pub delivery_status-lt : e.delivery_status < 2
  pub polarity-lt : e.polarity < 2
  pub remote_irr-lt : e.remote_irr < 2
  pub trig_mode-lt : e.trig_mode < 2
  pub mask-lt : e.mask < 2
  pub reserve-lt : e.reserve < 2 ^ 7
  pub reserved0-lt : e.reserved0 < 2 ^ 8
  pub reserved1-lt : e.reserved1 < 2 ^ 8
  pub reserved2-lt : e.reserved2 < 2 ^ 8
  pub reserved3-lt : e.reserved3 < 2 ^ 8
  pub dest_id-lt : e.dest_id < 2 ^ 8

-- `((u32 *)&e)[0]` and `((u32 *)&e)[1]`
pub low_word : RedirEntry → ℕ
low_word e =
    e.vector
    + 2 ^ 8 * e.delivery_mode
    + 2 ^ 11 * e.dest_mode
    + 2 ^ 12 * e.delivery_status
    + 2 ^ 13 * e.polarity
    + 2 ^ 14 * e.remote_irr
    + 2 ^ 15 * e.trig_mode
    + 2 ^ 16 * e.mask
    + 2 ^ 17 * e.reserve
    + 2 ^ 24 * e.reserved0

pub high_word : RedirEntry → ℕ
high_word e = e.reserved1 + 2 ^ 8 * e.reserved2 + 2 ^ 16 * e.reserved3 + 2 ^ 24 * e.dest_id

-- The entry whose words these are.
unfoldable pub of_words : ℕ → ℕ → RedirEntry
of_words lo hi = record {
  vector = lo % 2 ^ 8;
  delivery_mode = lo / 2 ^ 8 % 2 ^ 3;
  dest_mode = lo / 2 ^ 11 % 2;
  delivery_status = lo / 2 ^ 12 % 2;
  polarity = lo / 2 ^ 13 % 2;
  remote_irr = lo / 2 ^ 14 % 2;
  trig_mode = lo / 2 ^ 15 % 2;
  mask = lo / 2 ^ 16 % 2;
  reserve = lo / 2 ^ 17 % 2 ^ 7;
  reserved0 = lo / 2 ^ 24 % 2 ^ 8;
  reserved1 = hi % 2 ^ 8;
  reserved2 = hi / 2 ^ 8 % 2 ^ 8;
  reserved3 = hi / 2 ^ 16 % 2 ^ 8;
  dest_id = hi / 2 ^ 24 % 2 ^ 8;
}

-- An entry is read back from its words.
pub of_words-words : (e : RedirEntry) → IsEntry e → of_words (low_word e) (high_word e) ≡ e
unfolding of_words low_word high_word
of_words-words e h = ground arith

-- Two 32-bit words are the words of the entry read from them.
pub words-of_words :
    (lo hi : ℕ)
    → lo < 2 ^ 32
    → hi < 2 ^ 32
    → (low_word (of_words lo hi) ≡ lo) × (high_word (of_words lo hi) ≡ hi)
unfolding of_words low_word high_word
words-of_words lo hi h k = omega arith

pub of_words-IsEntry : (lo hi : ℕ) → IsEntry (of_words lo hi)
unfolding of_words
of_words-IsEntry lo hi = omega arith

pub words_fit : (e : RedirEntry) → IsEntry e → (low_word e < 2 ^ 32) × (high_word e < 2 ^ 32)
unfolding low_word high_word
words_fit e h = omega arith

-- Two entries with the same read-only and reserved fields.
pub record Agrees (e f : RedirEntry) : Type 0 where
  pub delivery_status-eq : e.delivery_status ≡ f.delivery_status
  pub remote_irr-eq : e.remote_irr ≡ f.remote_irr
  pub reserve-eq : e.reserve ≡ f.reserve
  pub reserved0-eq : e.reserved0 ≡ f.reserved0
  pub reserved1-eq : e.reserved1 ≡ f.reserved1
  pub reserved2-eq : e.reserved2 ≡ f.reserved2
  pub reserved3-eq : e.reserved3 ≡ f.reserved3
