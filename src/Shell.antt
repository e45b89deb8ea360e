-- ===== src/Shell.antt =====
-- lab1_shell: the list of the shell.
pub mod Links
pub mod Rings
pub mod Frees
pub mod Tests
use edan35_os_lund_univ.Common.{
  ℕ, zero, suc, ◌+◌, ◌%◌, ◌≡◌, Bool, true, false, Option, none, some, List, [], ◌∷◌, ◌++◌, ◌==◌,
  if◌then◌else◌,
}
use edan35_os_lund_univ.Common.Words.{u32_mod}

-- list.h: the nodes by their addresses, one map for each member. NULL is 0.
pub record Nodes : Type 0 where
  pub succ : ℕ → ℕ
  pub pred : ℕ → ℕ
  pub data_of : ℕ → ℕ

abbrev pub assign : (ℕ → ℕ) → ℕ → ℕ → ℕ → ℕ
assign f a b i = if i == a then b else f i

-- `list` is what malloc returns; the source does not test it.
unfoldable pub new_list : Nodes → (list data' : ℕ) → Nodes
new_list h list data' = record {
  succ = assign h.succ list list;
  pred = assign h.pred list list;
  data_of = assign h.data_of list data';
}

-- the four assignments that join two rings, one after the other
unfoldable pub join : Nodes → (list1 list2 : ℕ) → Nodes
join h list1 list2 =
    let h1 : Nodes = record h { succ = assign h.succ (h.pred list1) list2 } in
    let h2 : Nodes = record h1 { succ = assign h1.succ (h1.pred list2) list1 } in
    let tmp = h2.pred list1 in
    let h3 : Nodes = record h2 { pred = assign h2.pred list1 (h2.pred list2) } in
    record h3 { pred = assign h3.pred list2 tmp }

-- The nodes and the new value of the pointer `*list1`.
unfoldable pub append : Nodes → (list1 list2 : ℕ) → Nodes × ℕ
append h list1 list2 =
    if list1 == 0
    then (h, list2)
    else if list2 == 0
    then (h, list1)
    else (join h list1 list2, list1)

-- `fresh` is malloc's result in new_list, here and below.
unfoldable pub insert_last : Nodes → (fresh list1 p : ℕ) → Nodes × ℕ
insert_last h fresh list1 p =
    let h' = new_list h fresh p in
    if list1 == 0
    then (h', fresh)
    else if fresh == 0
    then (h', list1)
    else (join h' list1 fresh, list1)

unfoldable pub insert_before : Nodes → (fresh list data' : ℕ) → Nodes × ℕ
unfolding append
insert_before h fresh list data' =
    let h' = new_list h fresh data' in
    if list == 0 then (h', fresh) else ((append h' fresh list).0, list)

unfoldable pub insert_after : Nodes → (fresh list data' : ℕ) → Nodes × ℕ
unfolding append
insert_after h fresh list data' =
    let h' = new_list h fresh data' in
    if list == 0 then (h', fresh) else ((append h' (h'.succ list) fresh).0, list)

-- The loop of `length` on fuel, from a node and a count.
unfoldable pub length_loop : ℕ → Nodes → (list p n : ℕ) → Option ℕ
length_loop zero h list p n = none
length_loop (suc fuel) h list p n =
    let rest = length_loop fuel h list (h.succ p) ((n + 1) % u32_mod) in
    if h.succ p == list then some ((n + 1) % u32_mod) else rest

-- A ring of nodes needs a round for each of them; the fuel is the caller's.
unfoldable pub length : (fuel : ℕ) → Nodes → (list : ℕ) → Option ℕ
length fuel h list = if list == 0 then some 0 else length_loop fuel h list list 0

-- The links without the node `list`, which is then freed.
unfoldable pub delete_list : Nodes → (list : ℕ) → Nodes
delete_list h list =
    let h1 : Nodes = record h { succ = assign h.succ (h.pred list) (h.succ list) } in
    record h1 { pred = assign h1.pred (h1.succ list) (h1.pred list) }

-- The new value of `*list`, the data, and the node that is freed.
unfoldable pub remove_first : Nodes → (list : ℕ) → Nodes × ℕ × ℕ × Option ℕ
unfolding delete_list
remove_first h list = if list == 0 then (h, list, 0, none) else (
  delete_list h list,
  (if list == h.succ list then 0 else h.succ list),
  h.data_of list,
  some list,
)

-- The loop of free_list on fuel, with the nodes that it frees in their order.
unfoldable pub free_loop : ℕ → Nodes → (list : ℕ) → (freed : List ℕ) → Option (Nodes × List ℕ)
free_loop zero h list freed = none
free_loop (suc fuel) h list freed =
    let p = h.succ list in
    let rest = free_loop fuel (delete_list h p) list (freed ++ p ∷ []) in
    if list == p then some (delete_list h list, freed ++ list ∷ []) else rest

-- `*list` is NULL afterwards.
unfoldable pub free_list : (fuel : ℕ) → Nodes → (list : ℕ) → Option (Nodes × List ℕ)
free_list fuel h list = if list == 0 then some (h, []) else free_loop fuel h list []
