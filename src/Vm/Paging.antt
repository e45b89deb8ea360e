-- ===== src/Vm/Paging.antt =====
-- Accesses to pages that are not in memory.
use edan35_os_lund_univ.Common.{ℕ, ◌*◌, ◌/◌, ◌<◌, ◌≡◌, refl, Bool, true, false, arith, leb}
use edan35_os_lund_univ.Vm.{
  Machine, stop, assertion, npages, pagefault, translate, read_memory, write_memory, take_phys_page,
  fifo_page_replace, second_chance_replace, Replace, fifo, second_chance,
}

take_phys_page-stops : (r : Replace) → take_phys_page r ≡ stop assertion
unfolding take_phys_page fifo_page_replace second_chance_replace
take_phys_page-stops fifo = refl
take_phys_page-stops second_chance = refl

pub translate-absent :
    (m : Machine) (a : ℕ) (w : Bool)
    → a < 4 * npages
    → (m.page_table (a / 4)).inmemory ≡ false
    → translate a w m ≡ stop assertion
unfolding translate
translate-absent m a w l e =
    let table : leb npages (a / 4) ≡ false = ground arith in
    rw (translate, table, e) (rw (pagefault, take_phys_page-stops m.replace) refl)

-- An access to a page that is not in memory never returns: whichever replacement algorithm is
-- chosen, its assertion fails.
pub page_fault-stops :
    (m : Machine) (a x : ℕ)
    → a < 4 * npages
    → (m.page_table (a / 4)).inmemory ≡ false
    → (read_memory m a ≡ stop assertion) × (write_memory m a x ≡ stop assertion)
unfolding read_memory write_memory
page_fault-stops m a x l e = (
  rw (read_memory, translate-absent m a false l e) refl,
  rw (write_memory, translate-absent m a true l e) refl,
)
