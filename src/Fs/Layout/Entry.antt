-- ===== src/Fs/Layout/Entry.antt =====
-- The fields of the entries of a directory block: what a change of one field leaves alone.
use edan35_os_lund_univ.Common.{ℕ, ◌+◌, ◌*◌, ◌≤◌, ◌<◌, ◌≡◌, ◌≢◌, ◌⊎◌, arith, ◌∙◌}
use edan35_os_lund_univ.Fs.Bytes.{
  Block, Same, put_le-outside, get_le-put_le, get_le-put_le_ne, get_le-cong,
}
use edan35_os_lund_univ.Fs.Text.{text_at, text_at-cong}
use edan35_os_lund_univ.Fs.Layout.{
  mode, set_mode, size_bytes, set_size_bytes, first_block, set_first_block,
}

-- Only bytes of entry i differ.
abbrev pub OnlyEntry : Block → Block → ℕ → Type 0
OnlyEntry d d' i = (j : ℕ) → (j < 32 * i) ⊎ (32 * i + 32 ≤ j) → d' j ≡ d j

-- Entry k has the same fields in both.
pub record SameEntry (d d' : Block) (k : ℕ) : Type 0 where
  pub used : d' (32 * k) ≡ d (32 * k)
  pub name : text_at 12 d' (32 * k) ≡ text_at 12 d (32 * k)
  pub mode : mode d' k ≡ mode d k
  pub size_bytes : size_bytes d' k ≡ size_bytes d k
  pub first_block : first_block d' k ≡ first_block d k

same_bytes :
    (d d' : Block) (k : ℕ)
    → ((j : ℕ) → 32 * k ≤ j → j < 32 * k + 32 → d' j ≡ d j)
    → SameEntry d d' k
unfolding mode size_bytes first_block
same_bytes d d' k h = record {
  used = h (32 * k) (omega arith) (omega arith);
  name = text_at-cong 12 d' d (32 * k) (λ j p q. h j p (omega arith));
  mode = get_le-cong d' d (32 * k + 12) 4 (λ j p q. h j (omega arith) (omega arith));
  size_bytes = get_le-cong d' d (32 * k + 16) 8 (λ j p q. h j (omega arith) (omega arith));
  first_block = get_le-cong d' d (32 * k + 24) 2 (λ j p q. h j (omega arith) (omega arith));
}

pub OnlyEntry-SameEntry : (d d' : Block) (i k : ℕ) → OnlyEntry d d' i → k ≢ i → SameEntry d d' k
OnlyEntry-SameEntry d d' i k only ne = same_bytes d d' k (λ j p q. only j (omega arith))

pub Same-SameEntry : (d d' : Block) (k : ℕ) → Same d' d → k < 16 → SameEntry d d' k
Same-SameEntry d d' k s h = same_bytes d d' k (λ j p q. s j (omega arith))

pub SameEntry-trans : {d e f : Block} {k : ℕ} → SameEntry d e k → SameEntry e f k → SameEntry d f k
SameEntry-trans p q = record {
  used = q.used ∙ p.used;
  name = q.name ∙ p.name;
  mode = q.mode ∙ p.mode;
  size_bytes = q.size_bytes ∙ p.size_bytes;
  first_block = q.first_block ∙ p.first_block;
}

pub OnlyEntry-trans : (d e f : Block) (i : ℕ) → OnlyEntry d e i → OnlyEntry e f i → OnlyEntry d f i
OnlyEntry-trans d e f i p q j h = q j h ∙ p j h

module _ (d : Block) (i v : ℕ) where
  pub set_mode-OnlyEntry : OnlyEntry d (set_mode d i v) i
  unfolding set_mode
  set_mode-OnlyEntry j h = put_le-outside d (32 * i + 12) 4 v j (omega arith)

  pub set_size_bytes-OnlyEntry : OnlyEntry d (set_size_bytes d i v) i
  unfolding set_size_bytes
  set_size_bytes-OnlyEntry j h = put_le-outside d (32 * i + 16) 8 v j (omega arith)

  pub set_first_block-OnlyEntry : OnlyEntry d (set_first_block d i v) i
  unfolding set_first_block
  set_first_block-OnlyEntry j h = put_le-outside d (32 * i + 24) 2 v j (omega arith)

  -- the twelve bytes of the name
  pub set_mode-name : (j : ℕ) → j < 32 * i + 12 → set_mode d i v j ≡ d j
  unfolding set_mode
  set_mode-name j h = put_le-outside d (32 * i + 12) 4 v j (omega arith)

  pub set_size_bytes-name : (j : ℕ) → j < 32 * i + 12 → set_size_bytes d i v j ≡ d j
  unfolding set_size_bytes
  set_size_bytes-name j h = put_le-outside d (32 * i + 16) 8 v j (omega arith)

  pub set_first_block-name : (j : ℕ) → j < 32 * i + 12 → set_first_block d i v j ≡ d j
  unfolding set_first_block
  set_first_block-name j h = put_le-outside d (32 * i + 24) 2 v j (omega arith)

  pub mode-set_mode : v < 0x1_0000_0000 → mode (set_mode d i v) i ≡ v
  unfolding mode set_mode
  mode-set_mode h = get_le-put_le d (32 * i + 12) 4 v (omega arith)

  pub mode-set_size_bytes : mode (set_size_bytes d i v) i ≡ mode d i
  unfolding mode set_size_bytes
  mode-set_size_bytes = get_le-put_le_ne d (32 * i + 16) 8 v (32 * i + 12) 4 (omega arith)

  pub mode-set_first_block : mode (set_first_block d i v) i ≡ mode d i
  unfolding mode set_first_block
  mode-set_first_block = get_le-put_le_ne d (32 * i + 24) 2 v (32 * i + 12) 4 (omega arith)

  pub size_bytes-set_size_bytes :
      v < 0x1_0000_0000_0000_0000 → size_bytes (set_size_bytes d i v) i ≡ v
  unfolding size_bytes set_size_bytes
  size_bytes-set_size_bytes h = get_le-put_le d (32 * i + 16) 8 v (omega arith)

  pub size_bytes-set_first_block : size_bytes (set_first_block d i v) i ≡ size_bytes d i
  unfolding size_bytes set_first_block
  size_bytes-set_first_block = get_le-put_le_ne d (32 * i + 24) 2 v (32 * i + 16) 8 (omega arith)

  pub first_block-set_first_block : v < 0x1_0000 → first_block (set_first_block d i v) i ≡ v
  unfolding first_block set_first_block
  first_block-set_first_block h = get_le-put_le d (32 * i + 24) 2 v (omega arith)

  pub first_block-set_size_bytes : first_block (set_size_bytes d i v) i ≡ first_block d i
  unfolding first_block set_size_bytes
  first_block-set_size_bytes = get_le-put_le_ne d (32 * i + 16) 8 v (32 * i + 24) 2 (omega arith)
