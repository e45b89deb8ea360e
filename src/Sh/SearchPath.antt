-- ===== src/Sh/SearchPath.antt =====
-- lab1_shell/sh.c: init_search_path, which cuts PATH at its colons into a list of strings.
pub mod Strings
pub mod Listed
use edan35_os_lund_univ.Common.{
  ℕ, zero, suc, ◌+◌, ◌≤◌, ◌<◌, ◌≡◌, ◌≢◌, refl, sym, ap, subst, fun_ext, Bool-cases, ◌⊎◌, inl, inr,
  ◌∙◌, Bool, true, false, not, ◌&&◌, Option, some, none, List, [], ◌∷◌, ◌++◌, map, arith, ◌==◌,
  if◌then◌else◌, has, has-append, ◌||◌, length, length-append,
}
use mathlib.Core.List.{append_assoc}
use edan35_os_lund_univ.Shell.{Nodes, new_list, insert_last}
use edan35_os_lund_univ.Shell.Links.{Distinct}
use edan35_os_lund_univ.Shell.Rings.{
  IsRing, Disjoint, insert_last-IsRing, new_list-IsRing, new_list-data_of,
}
use edan35_os_lund_univ.Sh.Text.{Holds, Holds-write, Holds-frame, store, write}

-- The bytes of the memory and the nodes of the list.
pub record Memory : Type 0 where
  pub chars : ℕ → ℕ
  pub nodes : Nodes

-- How the function ends: with path_dir_list set, by exit(1), or with the access through NULL of
-- strlen.
pub data Search : Type 0 where
  set : Memory → (path_dir_list : ℕ) → Search
  out_of_memory : Search
  null_access : Search

-- The loop that looks for a colon or the end of the string, on fuel.
unfoldable pub find_end : ℕ → (ℕ → ℕ) → ℕ → Option ℕ
find_end zero b s = none
find_end (suc fuel) b s =
    let rest = find_end fuel b (suc s) in
    if not (b s == b':') && not (b s == 0) then rest else some s

-- The loop over the directories. Each round takes a node from malloc; `none` if the list of malloc's
-- results, or the fuel of the inner loop, runs out.
unfoldable pub path_loop : (fuel : ℕ) → List ℕ → Memory → (list dir_start : ℕ) → Option (Memory × ℕ)
path_loop fuel [] m list dir_start = none
path_loop fuel (fresh ∷ addrs) m list dir_start = elim (find_end fuel m.chars dir_start) [
  | none ↦ none
  | some s ↦
      let proceed = m.chars s == b':' in
      let b = if proceed then store m.chars s 0 else m.chars in
      let inserted = insert_last m.nodes fresh list dir_start in
      let m' : Memory = record { chars = b; nodes = inserted.0 } in
      let rest = path_loop fuel addrs m' inserted.1 (suc s) in
      if proceed then rest else some (m', inserted.1)
]

-- `path` is what getenv returns, `copy` and `addrs` what malloc does, `empty` the address of the
-- string "".
unfoldable pub init_search_path :
    (path : Option (List ℕ)) → (copy : ℕ) → (addrs : List ℕ) → (empty : ℕ) → Memory → Option Search
init_search_path none copy addrs empty m = some null_access
init_search_path (some path) copy [] empty m = if copy == 0 then some out_of_memory else none
init_search_path (some path) copy (fresh ∷ addrs) empty m =
    let m' : Memory = record m { chars = write m.chars copy (path ++ 0 ∷ []) } in
    let listed : Option Search = elim (path_loop (suc (length path)) (fresh ∷ addrs) m' 0 copy) [
      | none ↦ none
      | some (m'', list) ↦ some (set m'' list)
    ] in
    if copy == 0
    then some out_of_memory
    else if length path == 0
    then some (set (record m' { nodes = new_list m'.nodes fresh empty }) fresh)
    else listed
