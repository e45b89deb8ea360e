-- ===== src/Shell/Frees.antt =====
-- The operations of list.c that take nodes out of a ring and free them.
use edan35_os_lund_univ.Common.{
  ℕ, zero, suc, ◌<◌, ◌≡◌, refl, ap, ◌∙◌, true, false, some, List, [], ◌∷◌, ◌++◌, arith, ◌==◌,
  if◌then◌else◌, length,
}
use mathlib.Core.List.{append_assoc}
use edan35_os_lund_univ.Shell.{Nodes, delete_list, remove_first, free_loop, free_list}
use edan35_os_lund_univ.Shell.Links.{
  last, Distinct, has-last, Links-last, Links-last_succ, Links-turn,
}
use edan35_os_lund_univ.Shell.Rings.{IsRing, Distinct-append}

delete_list-succ :
    (h : Nodes) (x a : ℕ)
    → (delete_list h x).succ a ≡ (if a == h.pred x then h.succ x else h.succ a)
unfolding delete_list
delete_list-succ h x a = refl

-- A node whose successor is another one.
delete_list-pred :
    (h : Nodes) (x a : ℕ)
    → (x == h.pred x) ≡ false
    → (delete_list h x).pred a ≡ (if a == h.succ x then h.pred x else h.pred a)
unfolding delete_list
delete_list-pred h x a e = rw e refl

module _ (h : Nodes) (x y : ℕ) (ys : List ℕ) (r : IsRing h x (y ∷ ys)) where
  -- Without its first node the ring starts at the second.
  delete_first : IsRing (delete_list h x) y ys
  delete_first =
      let l = r.links in
      let new = r.new in
      let end = has-last y ys in
      let pred_x : h.pred x ≡ last y ys = Links-last h y x ys l.2 in
      let alone : (x == h.pred x) ≡ false = rw pred_x (ground (arith, new, end)) in
      let nn = r.not_null in
      record {
        links =
            Links-turn h (delete_list h x) y x y ys l.2 r.others.0 r.others.1
              (λ a i ne. delete_list-succ h x a ∙ rw pred_x (ground (arith, ne)))
              (λ a i.
                let out = r.others.0 in
                delete_list-pred h x a alone ∙ rw l.0 (ground (arith, i, out)))
              (delete_list-succ h x (last y ys) ∙ rw (pred_x, l.0) (ground arith))
              (delete_list-pred h x y alone ∙ rw (l.0, pred_x) (ground arith));
        new = r.others.0;
        others = r.others.1;
        not_null = ground (arith, nn);
      }

-- The ring without its second node.
delete_second :
    (h : Nodes) (x y : ℕ) (ys : List ℕ) → IsRing h x (y ∷ ys) → IsRing (delete_list h y) x ys
delete_second h x y [] r =
    let l = r.links in
    let new = r.new in
    let nn = r.not_null in
    let alone : (y == h.pred y) ≡ false = rw l.1 (ground (arith, new)) in
    record {
      links = (
        delete_list-succ h y x ∙ rw (l.1, l.2.0) (ground arith),
        delete_list-pred h y x alone ∙ rw (l.1, l.2.0) (ground arith),
      );
      new = refl;
      others = tt;
      not_null = ground (arith, nn);
    }
delete_second h x y (z ∷ zs) r =
    let l = r.links in
    let new = r.new in
    let out = r.others.0 in
    let out' = r.others.1.0 in
    let nn = r.not_null in
    let end = has-last z zs in
    let back = Links-last h z x zs l.2.2 in
    let forth = Links-last_succ h z x zs l.2.2 in
    let alone : (y == h.pred y) ≡ false = rw l.1 (ground (arith, new)) in
    record {
      links = (
        delete_list-succ h y x ∙ rw (l.1, l.2.0) (ground arith),
        delete_list-pred h y z alone ∙ rw (l.1, l.2.0) (ground arith),
        Links-turn h (delete_list h y) z x x zs l.2.2 out' r.others.1.1
            (λ a i ne. delete_list-succ h y a ∙ rw l.1 (ground (arith, i, new)))
            (λ a i. delete_list-pred h y a alone ∙ rw l.2.0 (ground (arith, i, out')))
            (delete_list-succ h y (last z zs) ∙ rw l.1 (ground (arith, new, end, forth)))
            (delete_list-pred h y x alone ∙ rw l.2.0 (ground (arith, new, back))),
      );
      new = ground (arith, new);
      others = r.others.1;
      not_null = ground (arith, nn);
    }

-- remove_first of a ring gives the data of its first node and frees that node; the ring of the others
-- is left, or NULL where there are none.
pub remove_first-IsRing :
    (h : Nodes) (x y : ℕ) (ys : List ℕ)
    → IsRing h x (y ∷ ys)
    → ((remove_first h x).1 ≡ y)
      × IsRing (remove_first h x).0 y ys
      × ((remove_first h x).2 ≡ h.data_of x)
      × ((remove_first h x).3 ≡ some x)
unfolding remove_first
remove_first-IsRing h x y ys r =
    let nn = r.not_null in
    let new = r.new in
    let l = r.links in
    let here : (x == 0) ≡ false = ground (arith, nn) in
    let more : (x == h.succ x) ≡ false = rw l.0 (ground (arith, new)) in
    (
      rw (remove_first, here, more) l.0,
      rw (remove_first, here) (delete_first h x y ys r),
      rw (remove_first, here) refl,
      rw (remove_first, here) refl,
    )

free_loop-IsRing :
    (fuel : ℕ) (h : Nodes) (x : ℕ) (xs freed : List ℕ)
    → IsRing h x xs
    → length xs < fuel
    → (h' : Nodes) × (free_loop fuel h x freed ≡ some (h', freed ++ (xs ++ x ∷ [])))
unfolding free_loop
free_loop-IsRing zero h x xs freed r enough = absurd (omega arith)
free_loop-IsRing (suc fuel) h x [] freed r enough =
    let alone : (x == h.succ x) ≡ true = rw r.links.0 (ground arith) in
    (delete_list h x, rw (free_loop, alone) refl)
free_loop-IsRing (suc fuel) h x (y ∷ ys) freed r enough =
    let new = r.new in
    let more : (x == y) ≡ false = ground (arith, new) in
    let (h', run) =
      free_loop-IsRing fuel (delete_list h y) x ys (freed ++ y ∷ []) (delete_second h x y ys r)
        (omega arith) in
    (
      h',
      rw (free_loop, r.links.0, more)
          (run ∙ ap (λ l. some (h', l)) (append_assoc freed (y ∷ []) (ys ++ x ∷ []))),
    )

-- free_list of a ring ends after a round for each node and frees each of its nodes once, the first one
-- last.
pub free_list-IsRing :
    (h : Nodes) (x : ℕ) (xs : List ℕ) (fuel : ℕ)
    → IsRing h x xs
    → length xs < fuel
    → (h' : Nodes) × (free_list fuel h x ≡ some (h', xs ++ x ∷ [])) × Distinct (xs ++ x ∷ [])
unfolding free_list
free_list-IsRing h x xs fuel r enough =
    let nn = r.not_null in
    let here : (x == 0) ≡ false = ground (arith, nn) in
    let (h', run) = free_loop-IsRing fuel h x xs [] r enough in
    (
      h',
      rw (free_list, here) run,
      Distinct-append xs (x ∷ []) r.others (refl, tt)
          (λ a i. let new = r.new in ground (arith, i, new)),
    )
