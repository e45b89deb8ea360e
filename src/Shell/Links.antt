-- ===== src/Shell/Links.antt =====
-- Nodes that are linked forth and back.
use edan35_os_lund_univ.Common.{ℕ, ◌≡◌, ◌≢◌, ◌∙◌, true, false, List, [], ◌∷◌, ◌++◌, arith, has}
use edan35_os_lund_univ.Shell.{Nodes}

-- From `p` the links lead through `xs` to `q` and back.
abbrev pub Links : Nodes → (p : ℕ) → List ℕ → (q : ℕ) → Type 0
Links h p [] q = (h.succ p ≡ q) × (h.pred q ≡ p)
Links h p (x ∷ xs) q = (h.succ p ≡ x) × (h.pred x ≡ p) × Links h x xs q

abbrev pub last : ℕ → List ℕ → ℕ
last p [] = p
last p (x ∷ xs) = last x xs

abbrev pub Distinct : List ℕ → Type 0
Distinct [] = Unit {0}
Distinct (x ∷ xs) = (has x xs ≡ false) × Distinct xs

pub has-last : (p : ℕ) (xs : List ℕ) → has (last p xs) (p ∷ xs) ≡ true
has-last p [] = ground arith
has-last p (x ∷ xs) = ground (arith, has-last x xs)

pub Links-last : (h : Nodes) (p q : ℕ) (xs : List ℕ) → Links h p xs q → h.pred q ≡ last p xs
Links-last h p q [] l = l.1
Links-last h p q (x ∷ xs) l = Links-last h x q xs l.2

pub Links-last_succ : (h : Nodes) (p q : ℕ) (xs : List ℕ) → Links h p xs q → h.succ (last p xs) ≡ q
Links-last_succ h p q [] l = l.0
Links-last_succ h p q (x ∷ xs) l = Links-last_succ h x q xs l.2

pub Links-append :
    (h : Nodes) (p y q : ℕ) (xs ys : List ℕ)
    → Links h p xs y
    → Links h y ys q
    → Links h p (xs ++ y ∷ ys) q
Links-append h p y q [] ys l k = (l.0, l.1, k)
Links-append h p y q (x ∷ xs) ys l k = (l.0, l.1, Links-append h x y q xs ys l.2 k)

-- The same nodes in a store that changes the last link alone.
pub Links-turn :
    (h h' : Nodes) (p q q' : ℕ) (xs : List ℕ)
    → Links h p xs q
    → has p xs ≡ false
    → Distinct xs
    → ((a : ℕ) → has a (p ∷ xs) ≡ true → a ≢ last p xs → h'.succ a ≡ h.succ a)
    → ((a : ℕ) → has a xs ≡ true → h'.pred a ≡ h.pred a)
    → h'.succ (last p xs) ≡ q'
    → h'.pred q' ≡ last p xs
    → Links h' p xs q'
Links-turn h h' p q q' [] l out d s r e e' = (e, e')
Links-turn h h' p q q' (x ∷ xs) l out d s r e e' =
    let there = has-last x xs in
    let here : p ≢ last x xs = λ c. ground (arith, out, there, c) in
    (
      s p (ground arith) here ∙ l.0,
      r x (ground arith) ∙ l.1,
      Links-turn h h' x q q' xs l.2 d.0 d.1 (λ a i ne. s a (ground (arith, i)) ne)
          (λ a i. r a (ground (arith, i))) e e',
    )

-- The same nodes in a store that keeps their links.
pub Links-frame :
    (h h' : Nodes) (p q : ℕ) (xs : List ℕ)
    → Links h p xs q
    → ((a : ℕ) → has a (q ∷ p ∷ xs) ≡ true → h'.succ a ≡ h.succ a)
    → ((a : ℕ) → has a (q ∷ p ∷ xs) ≡ true → h'.pred a ≡ h.pred a)
    → Links h' p xs q
Links-frame h h' p q [] l s r = (s p (ground arith) ∙ l.0, r q (ground arith) ∙ l.1)
Links-frame h h' p q (x ∷ xs) l s r = (
  s p (ground arith) ∙ l.0,
  r x (ground arith) ∙ l.1,
  Links-frame h h' x q xs l.2 (λ a i. s a (ground (arith, i))) (λ a i. r a (ground (arith, i))),
)
