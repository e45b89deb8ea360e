-- ===== src/Fs/Bytes.antt =====
-- The buffers of lab4_fs, byte by byte: `union fs_block_t` of fs_support.h is read and written
-- through little-endian fields of two, four and eight bytes.
use edan35_os_lund_univ.Common.{
  ℕ, zero, suc, ◌+◌, ◌-◌, ◌*◌, ◌/◌, ◌%◌, ◌≤◌, ◌<◌, ◌≡◌, refl, ◌⊎◌, arith, ◌==◌, ltb, if◌then◌else◌,
}

-- A buffer: the byte at each offset. Only offsets below the buffer's size mean anything.
abbrev pub Block : Type 0
Block = ℕ → ℕ

-- BLOCK_SIZE
abbrev pub block_size : ℕ
block_size = 512

-- Two buffers hold the same block.
abbrev pub Same : Block → Block → Type 0
Same b c = (j : ℕ) → j < 512 → b j ≡ c j

unfoldable pub put_byte : Block → ℕ → ℕ → Block
put_byte b o v j = if j == o then v else b j

-- memcpy(b + o, src, n)
unfoldable pub copy : Block → ℕ → Block → ℕ → Block
copy b o src n j = if ltb j o then b j else (if ltb j (o + n) then src (j - o) else b j)

-- A field of n bytes at offset o, lowest byte first.
unfoldable pub get_le : Block → ℕ → ℕ → ℕ
get_le b o zero = 0
get_le b o (suc n) = b o + 256 * get_le b (suc o) n

unfoldable pub put_le : Block → ℕ → ℕ → ℕ → Block
put_le b o zero v = b
put_le b o (suc n) v =
    let rest = put_le b (suc o) n (v / 256) in λ j. if j == o then v % 256 else rest j

-- The value fits into n bytes.
abbrev pub Fits : ℕ → ℕ → Type 0
Fits zero v = v ≡ 0
Fits (suc n) v = Fits n (v / 256)

pub put_le-outside : (b : Block) (o n v j : ℕ) → (j < o) ⊎ (o + n ≤ j) → put_le b o n v j ≡ b j
unfolding put_le
put_le-outside b o zero v j h = refl
put_le-outside b o (suc n) v j h = ground (arith, put_le-outside b (suc o) n (v / 256) j)

pub get_le-cong :
    (b c : Block) (o n : ℕ)
    → ((j : ℕ) → o ≤ j → j < o + n → b j ≡ c j)
    → get_le b o n ≡ get_le c o n
unfolding get_le
get_le-cong b c o zero h = refl
get_le-cong b c o (suc n) h = omega (
  arith,
  h o (omega arith) (omega arith),
  get_le-cong b c (suc o) n (λ j p q. h j (omega arith) (omega arith)),
)

pub get_le-put_le : (b : Block) (o n v : ℕ) → Fits n v → get_le (put_le b o n v) o n ≡ v
unfolding get_le put_le
get_le-put_le b o zero v h = omega arith
get_le-put_le b o (suc n) v h = ground (
  arith,
  get_le-put_le b (suc o) n (v / 256) h,
  get_le-cong (put_le b o (suc n) v) (put_le b (suc o) n (v / 256)) (suc o) n
      (λ j p q. ground arith),
)

pub get_le-put_le_ne :
    (b : Block) (o n v o' n' : ℕ)
    → (o' + n' ≤ o) ⊎ (o + n ≤ o')
    → get_le (put_le b o n v) o' n' ≡ get_le b o' n'
get_le-put_le_ne b o n v o' n' h =
    get_le-cong (put_le b o n v) b o' n' (λ j p q. put_le-outside b o n v j (omega arith))

pub get_le-Same : (b c : Block) (o n : ℕ) → o + n ≤ 512 → Same b c → get_le b o n ≡ get_le c o n
get_le-Same b c o n h s = get_le-cong b c o n (λ j p q. s j (omega arith))

pub copy-Same :
    (b c : Block) (o : ℕ) (src : Block) (n : ℕ) → Same b c → Same (copy b o src n) (copy c o src n)
unfolding copy
copy-Same b c o src n s j h = ground (arith, s j h)
