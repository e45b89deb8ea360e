-- ===== src/Sh/SearchPath/Listed.antt =====
-- The list of directories that init_search_path makes.
use edan35_os_lund_univ.Common.{
  ℕ, suc, ◌+◌, ◌≤◌, ◌<◌, ◌≡◌, ◌≢◌, refl, ap, subst, fun_ext, Bool-cases, inl, inr, ◌∙◌, false, some,
  List, [], ◌∷◌, ◌++◌, map, arith, ◌==◌, has, has-append, length, length-append,
}
use mathlib.Core.List.{append_assoc}
use edan35_os_lund_univ.Shell.{Nodes, new_list, insert_last}
use edan35_os_lund_univ.Shell.Links.{Distinct}
use edan35_os_lund_univ.Shell.Rings.{
  IsRing, Disjoint, insert_last-IsRing, new_list-IsRing, new_list-data_of,
}
use edan35_os_lund_univ.Sh.Text.{Holds, Holds-write, store, write}
use edan35_os_lund_univ.Sh.SearchPath.{Memory, find_end, path_loop, init_search_path, set}
use edan35_os_lund_univ.Sh.SearchPath.Strings.{
  join, AllNames, Strings, find_end-name, Strings-frame, Strings-concat, map-concat, cut,
}

Disjoint-out : (xs : List ℕ) (y : ℕ) (ys : List ℕ) → Disjoint xs (y ∷ ys) → has y xs ≡ false
Disjoint-out xs y ys s = elim (Bool-cases (has y xs)) [
  | inl there ↦ let out = s y there in absurd (ground (arith, out))
  | inr out ↦ out
]

Disjoint-shift :
    (xs : List ℕ) (y : ℕ) (ys : List ℕ)
    → Disjoint xs (y ∷ ys)
    → has y ys ≡ false
    → Disjoint (xs ++ y ∷ []) ys
Disjoint-shift xs y ys s out a i = elim (Bool-cases (has a xs)) [
  | inl there ↦ let apart = s a there in ground (arith, apart)
  | inr new ↦ let same : a ≡ y = ground (arith, i, new, has-append a xs (y ∷ [])) in rw same out
]

-- The list while the loop runs: a ring whose data are the strings cut off so far, all of them below
-- dir_start.
record Listed (m : Memory) (x : ℕ) (xs : List ℕ) (lim : ℕ) (ws : List (List ℕ)) : Type 0 where
  ring : IsRing m.nodes x xs
  strings : Strings m.chars lim (map m.nodes.data_of (x ∷ xs)) ws

-- One round: the string at dir_start is cut off and comes last in the list.
insert-Listed :
    (m : Memory) (x : ℕ) (xs : List ℕ) (ws : List (List ℕ)) (d fresh : ℕ) (w : List ℕ) (c : ℕ)
    (r : List ℕ)
    → Listed m x xs d ws
    → Holds m.chars d (w ++ c ∷ r)
    → fresh ≢ 0
    → has fresh (x ∷ xs) ≡ false
    → ((insert_last m.nodes fresh x d).1 ≡ x)
      × Listed
          (record {
            chars = store m.chars (d + length w) 0;
            nodes = (insert_last m.nodes fresh x d).0;
          })
          x
          (xs ++ fresh ∷ [])
          (suc (d + length w))
          (ws ++ w ∷ [])
insert-Listed m x xs ws d fresh w c r t h ne out =
    let (same, ring', kept, put_there) = insert_last-IsRing m.nodes fresh x xs d t.ring ne out in
    let (e, front, back) = cut m.chars d w c r h in
    let g = (insert_last m.nodes fresh x d).0.data_of in
    let b = store m.chars (d + length w) 0 in
    let all : map g (x ∷ (xs ++ fresh ∷ [])) ≡ map m.nodes.data_of (x ∷ xs) ++ d ∷ [] =
      map-concat g (x ∷ xs) fresh
      ∙ ap (λ l. l ++ g fresh ∷ []) kept
      ∙ ap (λ y. map m.nodes.data_of (x ∷ xs) ++ y ∷ []) put_there in
    (
      same,
      record {
        ring = ring';
        strings = rw all (
            Strings-concat b (suc (d + length w)) (map m.nodes.data_of (x ∷ xs)) ws d w
              (Strings-frame m.chars b d (suc (d + length w)) (map m.nodes.data_of (x ∷ xs)) ws
                (λ j l. ground arith) (omega arith) t.strings)
              front (omega arith));
      },
    )

store-same_at : (b : ℕ → ℕ) (s c j : ℕ) → b s ≡ c → store b s c j ≡ b j
store-same_at b s c j e = elim (Bool-cases (j == s)) [
  | inl here ↦ let at : j ≡ s = ground (arith, here) in rw at (ground (arith, e))
  | inr there ↦ rw there refl
]

store-same : (b : ℕ → ℕ) (s c : ℕ) → b s ≡ c → store b s c ≡ b
store-same b s c e = fun_ext (λ j. store-same_at b s c j e)

module _ (fuel : ℕ) where
  -- The round when a string ends with a colon, and when it is the last.
  round-colon :
      (fresh : ℕ) (addrs : List ℕ) (m : Memory) (list d s : ℕ)
      → find_end fuel m.chars d ≡ some s
      → m.chars s ≡ b':'
      → path_loop fuel (fresh ∷ addrs) m list d
        ≡ path_loop fuel addrs
            (record { chars = store m.chars s 0; nodes = (insert_last m.nodes fresh list d).0 })
            (insert_last m.nodes fresh list d).1
            (suc s)
  unfolding path_loop
  round-colon fresh addrs m list d s e e' = rw (path_loop, e, e') refl

  round-last :
      (fresh : ℕ) (addrs : List ℕ) (m : Memory) (list d s : ℕ)
      → find_end fuel m.chars d ≡ some s
      → m.chars s ≡ 0
      → path_loop fuel (fresh ∷ addrs) m list d
        ≡ some (
          record { chars = m.chars; nodes = (insert_last m.nodes fresh list d).0 },
          (insert_last m.nodes fresh list d).1,
        )
  unfolding path_loop
  round-last fresh addrs m list d s e e' = rw (path_loop, e, e') refl

  path_loop-Listed :
      (ws : List (List ℕ)) (addrs : List ℕ) (m : Memory) (x : ℕ) (xs : List ℕ)
      (done : List (List ℕ)) (d : ℕ) (w : List ℕ)
      → Listed m x xs d done
      → Holds m.chars d (join w ws ++ 0 ∷ [])
      → AllNames (w ∷ ws)
      → length (join w ws) < fuel
      → length addrs ≡ suc (length ws)
      → Distinct addrs
      → has 0 addrs ≡ false
      → Disjoint (x ∷ xs) addrs
      → (m' : Memory) × (path_loop fuel addrs m x d ≡ some (m', x))
        × Listed m' x (xs ++ addrs) (suc (d + length (join w ws))) (done ++ w ∷ ws)
  path_loop-Listed ws [] m x xs done d w t h n enough count dist nn dis = absurd (omega arith)
  path_loop-Listed [] (fresh ∷ []) m x xs done d w t h (n, ns) enough count dist nn dis =
      let out : has fresh (x ∷ xs) ≡ false = Disjoint-out (x ∷ xs) fresh [] dis in
      let (at, front, back) = cut m.chars d w 0 [] h in
      let found = find_end-name fuel m.chars d w 0 [] h n refl enough in
      let (same, listed) =
        insert-Listed m x xs done d fresh w 0 [] t h (λ e. ground (arith, nn, e)) out in
      (
        record { chars = m.chars; nodes = (insert_last m.nodes fresh x d).0 },
        round-last fresh [] m x d (d + length w) found at
            ∙ ap
                (λ y.
                  some (record { chars = m.chars; nodes = (insert_last m.nodes fresh x d).0 }, y))
                same,
        subst
            (λ c.
              Listed (record { chars = c; nodes = (insert_last m.nodes fresh x d).0 }) x
                (xs ++ fresh ∷ []) (suc (d + length w)) (done ++ w ∷ []))
            (store-same m.chars (d + length w) 0 at) listed,
      )
  path_loop-Listed [] (fresh ∷ a ∷ addrs) m x xs done d w t h n enough count dist nn dis =
      absurd (omega arith)
  path_loop-Listed (v ∷ ws) (fresh ∷ addrs) m x xs done d w t h (n, ns) enough count dist nn dis =
      let out : has fresh (x ∷ xs) ≡ false = Disjoint-out (x ∷ xs) fresh addrs dis in
      let r = join v ws ++ 0 ∷ [] in
      let h' : Holds m.chars d (w ++ b':' ∷ r) =
        subst (Holds m.chars d) (append_assoc w (b':' ∷ join v ws) (0 ∷ [])) h in
      let (at, front, back) = cut m.chars d w b':' r h' in
      let len = length-append w (b':' ∷ join v ws) in
      let found = find_end-name fuel m.chars d w b':' r h' n refl (omega (arith, len)) in
      let (same, listed) =
        insert-Listed m x xs done d fresh w b':' r t h' (λ e. ground (arith, nn, e)) out in
      let m1 : Memory = record {
        chars = store m.chars (d + length w) 0;
        nodes = (insert_last m.nodes fresh x d).0;
      } in
      let (m', run, all) =
        path_loop-Listed ws addrs m1 x (xs ++ fresh ∷ []) (done ++ w ∷ []) (suc (d + length w)) v
          listed back ns (omega (arith, len)) (omega arith) dist.1 (ground (arith, nn))
          (Disjoint-shift (x ∷ xs) fresh addrs dis dist.0) in
      let lim : suc (suc (d + length w) + length (join v ws))
          ≡ suc (d + length (w ++ b':' ∷ join v ws)) =
        omega (arith, len) in
      (
        m',
        round-colon fresh addrs m x d (d + length w) found at
            ∙ ap (λ y. path_loop fuel addrs m1 y (suc (d + length w))) same
            ∙ run,
        rw (← lim, ← (append_assoc xs (fresh ∷ []) addrs), ← (append_assoc done (w ∷ []) (v ∷ ws)))
            all,
      )

insert_last-null : (h : Nodes) (fresh p : ℕ) → insert_last h fresh 0 p ≡ (new_list h fresh p, fresh)
unfolding insert_last
insert_last-null h fresh p = refl

-- The list after the first round.
first-Listed :
    (m : Memory) (d fresh : ℕ) (w : List ℕ) (c : ℕ) (r : List ℕ)
    → Holds m.chars d (w ++ c ∷ r)
    → fresh ≢ 0
    → Listed
        (record {
          chars = store m.chars (d + length w) 0;
          nodes = (insert_last m.nodes fresh 0 d).0;
        })
        fresh
        []
        (suc (d + length w))
        (w ∷ [])
first-Listed m d fresh w c r h ne =
    let (e, front, back) = cut m.chars d w c r h in
    rw (insert_last-null m.nodes fresh d) (record {
      ring = new_list-IsRing m.nodes fresh d ne;
      strings = rw (new_list-data_of m.nodes fresh d) ((front, omega arith), tt);
    })

path_loop-first :
    (fuel : ℕ) (ws : List (List ℕ)) (a : ℕ) (addrs : List ℕ) (m : Memory) (d : ℕ) (w : List ℕ)
    → Holds m.chars d (join w ws ++ 0 ∷ [])
    → AllNames (w ∷ ws)
    → length (join w ws) < fuel
    → length addrs ≡ length ws
    → Distinct (a ∷ addrs)
    → has 0 (a ∷ addrs) ≡ false
    → (m' : Memory) × (path_loop fuel (a ∷ addrs) m 0 d ≡ some (m', a))
      × Listed m' a addrs (suc (d + length (join w ws))) (w ∷ ws)
path_loop-first fuel [] a [] m d w h (n, ns) enough count dist nn =
    let (at, front, back) = cut m.chars d w 0 [] h in
    let found = find_end-name fuel m.chars d w 0 [] h n refl enough in
    (
      record { chars = m.chars; nodes = (insert_last m.nodes a 0 d).0 },
      round-last fuel a [] m 0 d (d + length w) found at
          ∙ ap
              (λ (y : Nodes × ℕ).
                some (record { chars = m.chars; nodes = (insert_last m.nodes a 0 d).0 }, y.1))
              (insert_last-null m.nodes a d),
      subst
          (λ c.
            Listed (record { chars = c; nodes = (insert_last m.nodes a 0 d).0 }) a []
              (suc (d + length w)) (w ∷ []))
          (store-same m.chars (d + length w) 0 at)
          (first-Listed m d a w 0 [] h (λ e. ground (arith, nn, e))),
    )
path_loop-first fuel [] a (x ∷ addrs) m d w h n enough count dist nn = absurd (omega arith)
path_loop-first fuel (v ∷ ws) a addrs m d w h (n, ns) enough count dist nn =
    let r = join v ws ++ 0 ∷ [] in
    let h' : Holds m.chars d (w ++ b':' ∷ r) =
      subst (Holds m.chars d) (append_assoc w (b':' ∷ join v ws) (0 ∷ [])) h in
    let (at, front, back) = cut m.chars d w b':' r h' in
    let len = length-append w (b':' ∷ join v ws) in
    let found = find_end-name fuel m.chars d w b':' r h' n refl (omega (arith, len)) in
    let listed = first-Listed m d a w b':' r h' (λ e. ground (arith, nn, e)) in
    let m1 : Memory = record {
      chars = store m.chars (d + length w) 0;
      nodes = (insert_last m.nodes a 0 d).0;
    } in
    let (m', run, all) =
      path_loop-Listed fuel ws addrs m1 a [] (w ∷ []) (suc (d + length w)) v listed back ns
        (omega (arith, len)) count dist.1 (ground (arith, nn))
        (λ b i. let out = dist.0 in ground (arith, i, out)) in
    let lim : suc (suc (d + length w) + length (join v ws))
        ≡ suc (d + length (w ++ b':' ∷ join v ws)) =
      omega (arith, len) in
    (
      m',
      round-colon fuel a addrs m 0 d (d + length w) found at
          ∙ ap (λ (y : Nodes × ℕ). path_loop fuel addrs m1 y.1 (suc (d + length w)))
              (insert_last-null m.nodes a d)
          ∙ run,
      rw (← lim) all,
    )

-- For directories without colons or zeros, joined by colons to a PATH that is not empty, and with
-- memory for its copy and for a node each, init_search_path sets path_dir_list to the first node. The
-- ring of the nodes has the directories in their order: each node's data is the address of a
-- string in the copy of PATH.
pub init_search_path-join :
    (m : Memory) (w : List ℕ) (ws : List (List ℕ)) (copy a : ℕ) (addrs : List ℕ) (empty : ℕ)
    → AllNames (w ∷ ws)
    → 1 ≤ length (join w ws)
    → copy ≢ 0
    → length addrs ≡ length ws
    → Distinct (a ∷ addrs)
    → has 0 (a ∷ addrs) ≡ false
    → (m' : Memory) × (init_search_path (some (join w ws)) copy (a ∷ addrs) empty m
        ≡ some (set m' a))
      × IsRing m'.nodes a addrs
      × Strings m'.chars
          (suc (copy + length (join w ws)))
          (map m'.nodes.data_of (a ∷ addrs))
          (w ∷ ws)
unfolding init_search_path
init_search_path-join m w ws copy a addrs empty names some_byte ne count dist nn =
    let path = join w ws in
    let m1 : Memory = record m { chars = write m.chars copy (path ++ 0 ∷ []) } in
    let (m', run, listed) =
      path_loop-first (suc (length path)) ws a addrs m1 copy w
        (Holds-write m.chars copy (path ++ 0 ∷ [])) names (omega arith) count dist nn in
    let here : (copy == 0) ≡ false = ground (arith, ne) in
    let more : (length path == 0) ≡ false = ground (arith, some_byte) in
    (m', rw (init_search_path, run, here, more) refl, listed.ring, listed.strings)
