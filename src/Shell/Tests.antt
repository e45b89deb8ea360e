-- ===== src/Shell/Tests.antt =====
-- Rings of nodes, and the theorems at concrete inputs.
use edan35_os_lund_univ.Common.{◌+◌, ◌≡◌, refl, some, [], ◌∷◌, map, arith, ◌==◌, if◌then◌else◌}
use edan35_os_lund_univ.Shell
use edan35_os_lund_univ.Shell.{Nodes, append, insert_last, remove_first, free_list}
use edan35_os_lund_univ.Shell.Links.{Distinct}
use edan35_os_lund_univ.Shell.Frees.{free_list-IsRing}
use edan35_os_lund_univ.Shell.Rings.{IsRing, append-IsRing, insert_last-IsRing, length-IsRing}

-- The ring of 8 and 16, and the ring of 24.
abbrev nodes : Nodes
nodes = record {
  succ = λ a. if a == 8 then 16 else if a == 16 then 8 else a;
  pred = λ a. if a == 8 then 16 else if a == 16 then 8 else a;
  data_of = λ a. a + 1;
}

two-IsRing : IsRing nodes 8 (16 ∷ [])
two-IsRing = record {
  links = (refl, refl, (refl, refl));
  new = refl;
  others = (refl, tt);
  not_null = refl;
}

one-IsRing : IsRing nodes 24 []
one-IsRing = record { links = (refl, refl); new = refl; others = tt; not_null = refl }

append-IsRing_example : ((append nodes 8 24).1 ≡ 8) × IsRing (append nodes 8 24).0 8 (16 ∷ 24 ∷ [])
append-IsRing_example =
    append-IsRing nodes 8 (16 ∷ []) 24 [] two-IsRing one-IsRing (λ a i. ground (arith, i))

insert_last-IsRing_example :
    ((insert_last nodes 32 8 7).1 ≡ 8)
    × IsRing (insert_last nodes 32 8 7).0 8 (16 ∷ 32 ∷ [])
    × (map (insert_last nodes 32 8 7).0.data_of (8 ∷ 16 ∷ []) ≡ 9 ∷ 17 ∷ [])
    × ((insert_last nodes 32 8 7).0.data_of 32 ≡ 7)
insert_last-IsRing_example =
    insert_last-IsRing nodes 32 8 (16 ∷ []) 7 two-IsRing (λ e. absurd (omega (arith, e))) refl

length-IsRing_example : Shell.length 5 nodes 8 ≡ some 2
length-IsRing_example = length-IsRing nodes 8 (16 ∷ []) 5 two-IsRing (omega arith) (omega arith)

first_removed : ((remove_first nodes 8).1 ≡ 16) × ((remove_first nodes 8).2 ≡ 9)
unfolding remove_first
first_removed = (refl, refl)

free_list-IsRing_example :
    (h' : Nodes) × (free_list 3 nodes 8 ≡ some (h', 16 ∷ 8 ∷ [])) × Distinct (16 ∷ 8 ∷ [])
free_list-IsRing_example = free_list-IsRing nodes 8 (16 ∷ []) 3 two-IsRing (omega arith)
