-- ===== src/Vm/Memory.antt =====
-- lab3_vm/c/machine.c: memory behind a page table, and its replacement algorithms.
use edan35_os_lund_univ.Common.{
  ℕ, ◌+◌, ◌*◌, ◌/◌, ◌%◌, ◌^◌, Bool, true, false, ◌==◌, ltb, leb, if◌then◌else◌,
}
use edan35_os_lund_univ.Common.Words.{u32_mod}

-- How a run ends early: an assertion, an access outside of an array, or the exit on an illegal
-- instruction, on a file that does not open or on a line that is not an instruction.
pub data Stop : Type 0 where
  assertion : Stop
  out_of_range : Stop
  illegal_instruction : Stop
  cannot_open : Stop
  syntax_error : Stop

pub data Outcome {ℓ} (A : Type ℓ) : Type ℓ where
  ok : A → Outcome A
  stop : Stop → Outcome A

abbrev pub bind : {A B : Type 0} → Outcome A → (A → Outcome B) → Outcome B
bind (ok a) k = k a
bind (stop e) k = stop e

pub record PageTableEntry : Type 0 where
  pub page : ℕ
  pub inmemory : Bool
  pub ondisk : Bool
  pub modified : Bool
  pub referenced : Bool
  pub readonly : Bool

-- the algorithm that `replace` points at
pub data Replace : Type 0 where
  fifo : Replace
  second_chance : Replace

-- the static variables that the accesses use
pub record Machine : Type 0 where
  pub num_pagefault : ℕ
  pub page_table : ℕ → PageTableEntry
  pub memory : ℕ → ℕ
  pub replace : Replace

abbrev pub int_max : ℕ
int_max = 2_147_483_647

abbrev pub npages : ℕ
npages = 2048

abbrev pub ram_pages : ℕ
ram_pages = 8

abbrev pub ram_size : ℕ
ram_size = 32

-- Both algorithms are unfinished in the source: the page asserted to be below RAM_PAGES is
-- INT_MAX.
unfoldable pub fifo_page_replace : Outcome ℕ
fifo_page_replace = if ltb int_max ram_pages then ok int_max else stop assertion

unfoldable pub second_chance_replace : Outcome ℕ
second_chance_replace = if ltb int_max ram_pages then ok int_max else stop assertion

unfoldable pub take_phys_page : Replace → Outcome ℕ
take_phys_page fifo = fifo_page_replace
take_phys_page second_chance = second_chance_replace

-- The page taken is not used yet.
unfoldable pub pagefault : (virt_page : ℕ) → Machine → Outcome Machine
pagefault virt_page m = elim (take_phys_page m.replace) [
  | stop e ↦ stop e
  | ok page ↦ ok (record m { num_pagefault = (m.num_pagefault + 1) % 2 ^ 64 })
]

abbrev pub put : {A : Type 0} → (ℕ → A) → ℕ → A → ℕ → A
put f i x j = if j == i then x else f j

-- the marks that an access leaves in the page table
unfoldable pub touch : ℕ → Bool → Machine → Machine
touch virt_page write m =
    let e = m.page_table virt_page in
    let e' = record e { referenced = true; modified = if write then true else e.modified } in
    record m { page_table = put m.page_table virt_page e' }

unfoldable pub translate : (virt_addr : ℕ) → (write : Bool) → Machine → Outcome (Machine × ℕ)
unfolding touch pagefault
translate virt_addr write m =
    let virt_page = virt_addr / 4 in
    let offset = virt_addr % 4 in
    let done : Machine → Outcome (Machine × ℕ) = λ m'.
      ok (touch virt_page write m', ((m'.page_table virt_page).page * 4 + offset) % u32_mod) in
    if leb npages virt_page
    then stop out_of_range
    else if (m.page_table virt_page).inmemory
    then done m
    else elim (pagefault virt_page m) [ stop e ↦ stop e | ok m' ↦ done m' ]

unfoldable pub read_memory : Machine → (addr : ℕ) → Outcome (Machine × ℕ)
unfolding translate
read_memory m addr = elim (translate addr false m) [
  | stop e ↦ stop e
  | ok (m', phys_addr) ↦
      if ltb phys_addr ram_size then ok (m', m'.memory phys_addr) else stop out_of_range
]

unfoldable pub write_memory : Machine → (addr data' : ℕ) → Outcome Machine
unfolding translate
write_memory m addr data' = elim (translate addr true m) [
  | stop e ↦ stop e
  | ok (m', phys_addr) ↦
      if ltb phys_addr ram_size
      then ok (record m' { memory = put m'.memory phys_addr data' })
      else stop out_of_range
]
