-- ===== src/Vm/Program/Swap.antt =====
-- The copies between RAM and swap.
use edan35_os_lund_univ.Common.{ℕ, ◌+◌, ◌-◌, ◌*◌, ◌<◌, ◌≡◌, ◌∙◌, refl, leb, true, arith, lt→ltb}
use edan35_os_lund_univ.Vm.{ok, ram_pages}
use edan35_os_lund_univ.Vm.Program.{copy_page, swap_pages, read_page, write_page}

copy_page-at :
    (to from : ℕ → ℕ) (to_page from_page k : ℕ)
    → k < 4
    → copy_page to from to_page from_page (to_page * 4 + k) ≡ from (from_page * 4 + k)
copy_page-at to from to_page from_page k l =
    let lower : leb (to_page * 4) (to_page * 4 + k) ≡ true = ground arith in
    let upper = lt→ltb (to_page * 4 + k) (to_page * 4 + 4) (omega arith) in
    let place : to_page * 4 + k - to_page * 4 + from_page * 4 ≡ from_page * 4 + k = omega arith in
    rw (lower, upper, place) refl

-- A page that is written to swap and read back, into any page of RAM, is there what it was.
read_page-write_page :
    (memory swap : ℕ → ℕ) (phys_page to_page swap_page k : ℕ)
    → phys_page < ram_pages
    → to_page < ram_pages
    → swap_page < swap_pages
    → k < 4
    → (swap' memory' : ℕ → ℕ) × (write_page memory swap phys_page swap_page ≡ ok swap')
      × (read_page memory swap' to_page swap_page ≡ ok memory')
      × (memory' (to_page * 4 + k) ≡ memory (phys_page * 4 + k))
unfolding read_page write_page
read_page-write_page memory swap phys_page to_page swap_page k lp lt ls lk =
    let a = lt→ltb phys_page ram_pages lp in
    let b = lt→ltb to_page ram_pages lt in
    let c = lt→ltb swap_page swap_pages ls in
    let swap' = copy_page swap memory swap_page phys_page in
    (
      swap',
      copy_page memory swap' to_page swap_page,
      rw (write_page, a, c) refl,
      rw (read_page, b, c) refl,
      copy_page-at memory swap' to_page swap_page k lk
          ∙ copy_page-at swap memory swap_page phys_page k lk,
    )
