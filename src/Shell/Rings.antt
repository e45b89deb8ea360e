-- ===== src/Shell/Rings.antt =====
-- The operations of list.c on rings.
use edan35_os_lund_univ.Common.{
  ℕ, zero, suc, ◌+◌, ◌%◌, ◌<◌, ◌≤◌, ◌≡◌, ◌≢◌, refl, sym, ap, ◌∙◌, Bool, true, false, Option, some,
  none, List, [], ◌∷◌, ◌++◌, map, arith, has, has-append, ◌||◌, ◌==◌, if◌then◌else◌,
}
use edan35_os_lund_univ.Common
use edan35_os_lund_univ.Common.Words.{u32_mod}
use edan35_os_lund_univ.Shell
use edan35_os_lund_univ.Shell.{Nodes, assign, new_list, join, append, insert_last, length_loop}
use edan35_os_lund_univ.Shell.Links.{
  Links, last, Distinct, has-last, Links-last, Links-append, Links-turn, Links-frame,
}

-- The ring of `x` and, behind it, the nodes `xs`: no node is there twice and none is NULL.
pub record IsRing (h : Nodes) (x : ℕ) (xs : List ℕ) : Type 0 where
  pub links : Links h x xs x
  pub new : has x xs ≡ false
  pub others : Distinct xs
  pub not_null : has 0 (x ∷ xs) ≡ false

abbrev pub Disjoint : List ℕ → List ℕ → Type 0
Disjoint xs ys = (a : ℕ) → has a xs ≡ true → has a ys ≡ false

pub Distinct-append :
    (xs ys : List ℕ) → Distinct xs → Distinct ys → Disjoint xs ys → Distinct (xs ++ ys)
Distinct-append [] ys d e s = e
Distinct-append (x ∷ xs) ys d e s =
    let out = s x (ground arith) in
    (
      ground (arith, has-append x xs ys, d.0, out),
      Distinct-append xs ys d.1 e (λ a i. s a (ground (arith, i))),
    )

module _ (h : Nodes) (x : ℕ) (xs : List ℕ) (y : ℕ) (ys : List ℕ) (r : IsRing h x xs)
    (k : IsRing h y ys) (s : Disjoint (x ∷ xs) (y ∷ ys)) where
  join-succ :
      (a : ℕ)
      → (join h x y).succ a ≡ (if a == last y ys then x else if a == last x xs then y else h.succ a)
  unfolding join
  join-succ a =
      let e = Links-last h x x xs r.links in let e' = Links-last h y y ys k.links in rw (e, e') refl

  join-pred :
      (a : ℕ)
      → (join h x y).pred a ≡ (if a == y then last x xs else if a == x then last y ys else h.pred a)
  unfolding join
  join-pred a =
      let e = Links-last h x x xs r.links in let e' = Links-last h y y ys k.links in rw (e, e') refl

  join-first : Links (join h x y) x xs y
  join-first =
      let end = has-last x xs in
      let end' = has-last y ys in
      Links-turn h (join h x y) x x y xs r.links r.new r.others
        (λ a i ne. let there = s a i in join-succ a ∙ ground (arith, there, ne, end'))
        (λ a i.
          let there = s a (ground (arith, i)) in
          let new = r.new in join-pred a ∙ ground (arith, there, i, new))
        (let there = s (last x xs) end in join-succ (last x xs) ∙ ground (arith, there, end'))
        (join-pred y ∙ ground arith)

  join-second : Links (join h x y) y ys x
  join-second =
      let end = has-last x xs in
      let end' = has-last y ys in
      let apart = s (last x xs) end in
      let apart_head = s x (ground arith) in
      Links-turn h (join h x y) y y x ys k.links k.new k.others
        (λ a i ne. join-succ a ∙ ground (arith, i, ne, apart))
        (λ a i. let new = k.new in join-pred a ∙ ground (arith, i, new, apart_head))
        (join-succ (last y ys) ∙ ground arith) (join-pred x ∙ ground (arith, apart_head))

  pub join-IsRing : IsRing (join h x y) x (xs ++ y ∷ ys)
  join-IsRing =
      let apart_head = s x (ground arith) in
      let new = r.new in
      let left = r.not_null in
      let right = k.not_null in
      record {
        links = Links-append (join h x y) x y x xs ys join-first join-second;
        new = ground (arith, has-append x xs (y ∷ ys), new, apart_head);
        others =
            Distinct-append xs (y ∷ ys) r.others (k.new, k.others) (λ a i. s a (ground (arith, i)));
        not_null = ground (arith, has-append 0 xs (y ∷ ys), left, right);
      }

-- append of two rings that share no node returns the first node of the first; from it on the
-- nodes of the first ring come in order and then those of the second, linked forth and back.
pub append-IsRing :
    (h : Nodes) (x : ℕ) (xs : List ℕ) (y : ℕ) (ys : List ℕ)
    → IsRing h x xs
    → IsRing h y ys
    → Disjoint (x ∷ xs) (y ∷ ys)
    → ((append h x y).1 ≡ x) × IsRing (append h x y).0 x (xs ++ y ∷ ys)
unfolding append
append-IsRing h x xs y ys r k s =
    let left : (x == 0) ≡ false = let n = r.not_null in ground (arith, n) in
    let right : (y == 0) ≡ false = let n = k.not_null in ground (arith, n) in
    (rw (append, left, right) refl, rw (append, left, right) (join-IsRing h x xs y ys r k s))

pub new_list-IsRing :
    (h : Nodes) (list data' : ℕ) → list ≢ 0 → IsRing (new_list h list data') list []
unfolding new_list
new_list-IsRing h list data' ne = record {
  links = (ground arith, ground arith);
  new = refl;
  others = tt;
  not_null = ground (arith, ne);
}

new_list-kept :
    (h : Nodes) (list data' x : ℕ) (xs : List ℕ)
    → IsRing h x xs
    → has list (x ∷ xs) ≡ false
    → IsRing (new_list h list data') x xs
unfolding new_list
new_list-kept h list data' x xs r out = record {
  links =
      Links-frame h (new_list h list data') x x xs r.links (λ a i. ground (arith, i, out))
        (λ a i. ground (arith, i, out));
  new = r.new;
  others = r.others;
  not_null = r.not_null;
}

map-kept :
    (h : Nodes) (list data' : ℕ) (xs : List ℕ)
    → has list xs ≡ false
    → map (new_list h list data').data_of xs ≡ map h.data_of xs
unfolding new_list
map-kept h list data' [] out = refl
map-kept h list data' (x ∷ xs) out =
    let rest = map-kept h list data' xs (ground (arith, out)) in
    let here : (x == list) ≡ false = ground (arith, out) in rw (here, rest) refl

join-data_of : (h : Nodes) (x y : ℕ) → (join h x y).data_of ≡ h.data_of
unfolding join
join-data_of h x y = refl

pub new_list-data_of : (h : Nodes) (list data' : ℕ) → (new_list h list data').data_of list ≡ data'
unfolding new_list
new_list-data_of h list data' = ground arith

-- insert_last on a ring, with a node from malloc that is new, returns the ring's first node; the
-- new node comes last and holds the data, all others are as before, with their data.
pub insert_last-IsRing :
    (h : Nodes) (fresh x : ℕ) (xs : List ℕ) (p : ℕ)
    → IsRing h x xs
    → fresh ≢ 0
    → has fresh (x ∷ xs) ≡ false
    → ((insert_last h fresh x p).1 ≡ x)
      × IsRing (insert_last h fresh x p).0 x (xs ++ fresh ∷ [])
      × (map (insert_last h fresh x p).0.data_of (x ∷ xs) ≡ map h.data_of (x ∷ xs))
      × ((insert_last h fresh x p).0.data_of fresh ≡ p)
unfolding insert_last
insert_last-IsRing h fresh x xs p r ne out =
    let left : (x == 0) ≡ false = let n = r.not_null in ground (arith, n) in
    let right : (fresh == 0) ≡ false = ground (arith, ne) in
    let h' = new_list h fresh p in
    let joined =
      join-IsRing h' x xs fresh [] (new_list-kept h fresh p x xs r out)
        (new_list-IsRing h fresh p ne) (λ a i. ground (arith, i, out)) in
    let whole : (insert_last h fresh x p).0 ≡ join h' x fresh =
      rw (insert_last, left, right) refl in
    let data_kept : (insert_last h fresh x p).0.data_of ≡ h'.data_of =
      ap (λ g. g.data_of) whole ∙ join-data_of h' x fresh in
    (
      rw (insert_last, left, right) refl,
      rw (insert_last, left, right) joined,
      ap (λ g. map g (x ∷ xs)) data_kept ∙ map-kept h fresh p (x ∷ xs) out,
      rw (insert_last, left, right, join-data_of h' x fresh) (new_list-data_of h fresh p),
    )

length_loop-length :
    (fuel : ℕ) (h : Nodes) (list p n : ℕ) (xs : List ℕ)
    → Links h p xs list
    → has list xs ≡ false
    → Common.length xs < fuel
    → n + suc (Common.length xs) < u32_mod
    → length_loop fuel h list p n ≡ some (n + suc (Common.length xs))
unfolding length_loop
length_loop-length zero h list p n xs l out enough fits = absurd (omega arith)
length_loop-length (suc fuel) h list p n [] l out enough fits =
    let e = l.0 in let step : (n + 1) % u32_mod ≡ n + 1 = omega arith in ground (arith, e, step)
length_loop-length (suc fuel) h list p n (x ∷ xs) l out enough fits =
    let rest =
      length_loop-length fuel h list x (n + 1) xs l.2 (ground (arith, out)) (omega arith)
        (omega arith) in
    let e = l.0 in
    let step : (n + 1) % u32_mod ≡ n + 1 = omega arith in
    let apart : (x == list) ≡ false = ground (arith, out) in
    rw (e, apart, step, rest) (ground arith)

-- length of a ring ends after a round for each node and gives their number, as long as that
-- fits in an unsigned.
pub length-IsRing :
    (h : Nodes) (x : ℕ) (xs : List ℕ) (fuel : ℕ)
    → IsRing h x xs
    → Common.length (x ∷ xs) ≤ fuel
    → Common.length (x ∷ xs) < u32_mod
    → Shell.length fuel h x ≡ some (Common.length (x ∷ xs))
unfolding Shell.length
length-IsRing h x xs fuel r enough fits =
    let left : (x == 0) ≡ false = let n = r.not_null in ground (arith, n) in
    let counted = length_loop-length fuel h x x 0 xs r.links r.new (omega arith) (omega arith) in
    rw left (ground (arith, counted))
