-- ===== src/Fs/Support/Cached.antt =====
-- Loading and saving the two cached blocks, on a disk that has them.
use edan35_os_lund_univ.Common.{
  ℕ, zero, suc, ◌+◌, ◌*◌, ◌≤◌, ◌<◌, ◌≡◌, ◌≢◌, refl, ◌∙◌, sym, List, arith, ◌==◌, if◌then◌else◌,
  ◌||◌, some, none, Bool-cases, inl, inr,
}
use edan35_os_lund_univ.Fs.Bytes.{Block, Same}
use edan35_os_lund_univ.Fs.Device.{BlockDevice}
use edan35_os_lund_univ.Fs.Layout.{dir_entry_is_empty, name_at}
use edan35_os_lund_univ.Fs.Text.{strncmp_eq, strncmp_eq-cong}
use edan35_os_lund_univ.Fs.Support.{
  Cache, load_directory, save_directory, load_blockmap, save_blockmap, find_loop, find_dir_entry,
}

module _ (dev : BlockDevice) (c : Cache dev) where
  open dev use {blocks, count}

  pub load_directory-blocks : blocks (load_directory dev c).disk ≡ blocks c.disk
  unfolding load_directory
  load_directory-blocks = dev.read_block-blocks c.disk 1 c.bdir

  pub load_directory-count : count (load_directory dev c).disk ≡ count c.disk
  unfolding load_directory
  load_directory-count = dev.read_block-count c.disk 1 c.bdir

  pub load_directory-bdir : 1 < count c.disk → Same (load_directory dev c).bdir (blocks c.disk 1)
  unfolding load_directory
  load_directory-bdir h = dev.read_block-Same c.disk 1 c.bdir h

  pub load_directory-bmap : (load_directory dev c).bmap ≡ c.bmap
  unfolding load_directory
  load_directory-bmap = refl

  pub load_blockmap-blocks : blocks (load_blockmap dev c).disk ≡ blocks c.disk
  unfolding load_blockmap
  load_blockmap-blocks = dev.read_block-blocks c.disk 0 c.bmap

  pub load_blockmap-count : count (load_blockmap dev c).disk ≡ count c.disk
  unfolding load_blockmap
  load_blockmap-count = dev.read_block-count c.disk 0 c.bmap

  pub load_blockmap-bmap : 0 < count c.disk → Same (load_blockmap dev c).bmap (blocks c.disk 0)
  unfolding load_blockmap
  load_blockmap-bmap h = dev.read_block-Same c.disk 0 c.bmap h

  pub load_blockmap-bdir : (load_blockmap dev c).bdir ≡ c.bdir
  unfolding load_blockmap
  load_blockmap-bdir = refl

  pub save_directory-count : 1 < count c.disk → count (save_directory dev c).disk ≡ count c.disk
  unfolding save_directory
  save_directory-count h = dev.write_block-count c.disk 1 c.bdir h

  pub save_directory-Same :
      (m : ℕ)
      → 1 < count c.disk
      → Same (blocks (save_directory dev c).disk m) (if m == 1 then c.bdir else blocks c.disk m)
  unfolding save_directory
  save_directory-Same m h = dev.write_block-Same c.disk 1 m c.bdir h

  pub save_directory-cache :
      ((save_directory dev c).bdir ≡ c.bdir) × ((save_directory dev c).bmap ≡ c.bmap)
  unfolding save_directory
  save_directory-cache = (refl, refl)

  pub save_blockmap-count : 0 < count c.disk → count (save_blockmap dev c).disk ≡ count c.disk
  unfolding save_blockmap
  save_blockmap-count h = dev.write_block-count c.disk 0 c.bmap h

  pub save_blockmap-Same :
      (m : ℕ)
      → 0 < count c.disk
      → Same (blocks (save_blockmap dev c).disk m) (if m == 0 then c.bmap else blocks c.disk m)
  unfolding save_blockmap
  save_blockmap-Same m h = dev.write_block-Same c.disk 0 m c.bmap h

  pub save_blockmap-cache :
      ((save_blockmap dev c).bdir ≡ c.bdir) × ((save_blockmap dev c).bmap ≡ c.bmap)
  unfolding save_blockmap
  save_blockmap-cache = (refl, refl)

-- The searches read the 512 bytes of the directory alone.
find_loop-Same :
    (n : ℕ) (path : List ℕ) (b c : Block) (di : ℕ)
    → di + n ≡ 16
    → Same b c
    → find_loop n path b di ≡ find_loop n path c di
unfolding find_loop
find_loop-Same zero path b c di e s = refl
find_loop-Same (suc n) path b c di e s = rw (
  s (name_at di) (omega arith),
  strncmp_eq-cong 12 path b c (name_at di) (λ j p q. s j (omega arith)),
  find_loop-Same n path b c (suc di) (omega arith) s,
)

find_loop-le : (n : ℕ) (path : List ℕ) (d : Block) (di : ℕ) → find_loop n path d di ≤ di + n
unfolding find_loop
find_loop-le zero path d di = omega arith
find_loop-le (suc n) path d di = ground (arith, find_loop-le n path d (suc di))

same_result :
    (b c : Block) (r : ℕ)
    → r ≤ 16
    → Same b c
    → (if (r == 16) || dir_entry_is_empty b r then none else some r)
      ≡ (if (r == 16) || dir_entry_is_empty c r then none else some r)
same_result b c r le s = ground (arith, s (32 * r))

pub find_dir_entry-Same :
    (path : List ℕ) (b c : Block) → Same b c → find_dir_entry path b ≡ find_dir_entry path c
unfolding find_dir_entry
find_dir_entry-Same path b c s =
    rw (← find_loop-Same 16 path b c 0 refl s)
      (same_result b c (find_loop 16 path b 0) (find_loop-le 16 path b 0) s)

-- A directory that is changed in memory and saved.
abbrev pub saved : (dev : BlockDevice) → Cache dev → Block → Cache dev
saved dev c d = save_directory dev (record c { bdir = d })

module _ (dev : BlockDevice) (c : Cache dev) (d : Block) (two : 1 < dev.count c.disk) where
  open dev use {blocks, count}

  pub saved-dir : Same (blocks (saved dev c d).disk 1) d
  saved-dir j l = save_directory-Same dev (record c { bdir = d }) 1 two j l

  pub saved-others : (m : ℕ) → m ≢ 1 → Same (blocks (saved dev c d).disk m) (blocks c.disk m)
  saved-others m ne j l = ground (arith, save_directory-Same dev (record c { bdir = d }) m two j l)

  pub saved-count : count (saved dev c d).disk ≡ count c.disk
  saved-count = save_directory-count dev (record c { bdir = d }) two

-- Entries behind the one that is found do not matter.
find_loop-le_start : (n : ℕ) (path : List ℕ) (d : Block) (di : ℕ) → di ≤ find_loop n path d di
unfolding find_loop
find_loop-le_start zero path d di = omega arith
find_loop-le_start (suc n) path d di = ground (arith, find_loop-le_start n path d (suc di))

find_loop-prefix :
    (n : ℕ) (path : List ℕ) (b c : Block) (d k : ℕ)
    → find_loop n path b d ≡ k
    → d + n ≡ 16
    → k < 16
    → ((j : ℕ) → j < 32 * k + 12 → b j ≡ c j)
    → find_loop n path c d ≡ k
unfolding find_loop
find_loop-prefix zero path b c d k e sum le same = e
find_loop-prefix (suc n) path b c d k e sum le same =
    elim (Bool-cases (dir_entry_is_empty b d || strncmp_eq 12 path b (name_at d))) [
      | inl stop ↦
          let here : d ≡ k = rw stop at e in rw (sym (tests here (omega arith)) ∙ stop) here
      | inr go ↦
          let later : find_loop n path b (suc d) ≡ k = rw go at e in
          let before : d < k = omega (arith, find_loop-le_start n path b (suc d)) in
          rw (sym (tests_before before) ∙ go)
            (find_loop-prefix n path b c (suc d) k later (omega arith) le same)
    ]
  where
    tests_at :
        32 * d + 12 ≤ 32 * k + 12
        → (dir_entry_is_empty b d || strncmp_eq 12 path b (name_at d))
          ≡ (dir_entry_is_empty c d || strncmp_eq 12 path c (name_at d))
    tests_at h = rw (
      same (32 * d) (omega arith),
      strncmp_eq-cong 12 path b c (32 * d) (λ j p q. same j (omega arith)),
    )

    tests :
        d ≡ k
        → d ≤ k
        → (dir_entry_is_empty b d || strncmp_eq 12 path b (name_at d))
          ≡ (dir_entry_is_empty c d || strncmp_eq 12 path c (name_at d))
    tests e h = tests_at (omega arith)

    tests_before :
        d < k
        → (dir_entry_is_empty b d || strncmp_eq 12 path b (name_at d))
          ≡ (dir_entry_is_empty c d || strncmp_eq 12 path c (name_at d))
    tests_before h = tests_at (omega arith)

found_at :
    (b : Block) (r k : ℕ)
    → (if (r == 16) || dir_entry_is_empty b r then none else some r) ≡ some k
    → r ≤ 16
    → (r ≡ k) × (k < 16) × (b (32 * k) ≢ 0)
found_at b r k e le = ground arith

at_found :
    (c : Block) (k : ℕ)
    → k < 16
    → c (32 * k) ≢ 0
    → (if (k == 16) || dir_entry_is_empty c k then none else some k) ≡ some k
at_found c k le used = ground arith

pub find_dir_entry-prefix :
    (path : List ℕ) (b c : Block) (k : ℕ)
    → find_dir_entry path b ≡ some k
    → ((j : ℕ) → j < 32 * k + 12 → b j ≡ c j)
    → find_dir_entry path c ≡ some k
unfolding find_dir_entry
find_dir_entry-prefix path b c k e same =
    let (stop, le, used) = found_at b (find_loop 16 path b 0) k e (find_loop-le 16 path b 0) in
    rw (find_loop-prefix 16 path b c 0 k stop refl le same)
      (at_found c k le (λ z. used (same (32 * k) (omega arith) ∙ z)))
