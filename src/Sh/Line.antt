-- ===== src/Sh/Line.antt =====
-- lab1_shell/sh.c: fetch_line, on the bytes that getchar returns up to the end of the input.
use edan35_os_lund_univ.Common.{
  ℕ, zero, suc, ◌+◌, ◌≤◌, ◌<◌, ◌≡◌, refl, ap, subst, ◌∙◌, true, false, ◌&&◌, List, [], ◌∷◌, ◌++◌,
  arith, ◌==◌, ltb, lt→ltb, le_or_lt, Bool-cases, inl, inr, if◌then◌else◌, has, length,
}
use edan35_os_lund_univ.Sh.Text.{Holds, store}
use edan35_os_lund_univ.Sh.Lexer.{maxbuf}

-- What fetch_line returns: EOF, or the count, with the contents of input_buf and the input left.
pub data Fetched : Type 0 where
  eof : Fetched
  got : (count : ℕ) → (input_buf : ℕ → ℕ) → (rest : List ℕ) → Fetched

-- The loop from a count on. A line that is too long starts it anew.
unfoldable pub fetch_loop : List ℕ → (input_buf : ℕ → ℕ) → (count : ℕ) → Fetched
fetch_loop [] input_buf count = eof
fetch_loop (c ∷ cs) input_buf count =
    let fits = ltb count maxbuf in
    let buf = if fits then store input_buf count c else input_buf in
    let n = if fits then suc count else count in
    let rest = fetch_loop cs buf (if c == b'\n' then 0 else n) in
    if (c == b'\n') && ltb n maxbuf then got n (store buf n 0) cs else rest

unfoldable pub fetch_line : List ℕ → (input_buf : ℕ → ℕ) → Fetched
fetch_line stream input_buf = fetch_loop stream input_buf 0

-- Lines behind each other, each with its end.
abbrev pub unlines : List (List ℕ) → List ℕ → List ℕ
unlines [] rest = rest
unlines (l ∷ ls) rest = l ++ b'\n' ∷ unlines ls rest

-- Lines that do not fit in input_buf with their end and a zero.
abbrev pub AllLong : List (List ℕ) → Type 0
AllLong [] = Unit {0}
AllLong (l ∷ ls) = (has b'\n' l ≡ false) × (maxbuf ≤ suc (length l)) × AllLong ls

-- One byte into the line.
fetch_loop-more :
    (c : ℕ) (cs : List ℕ) (k : ℕ) (buf : ℕ → ℕ)
    → (c == b'\n') ≡ false
    → k < maxbuf
    → fetch_loop (c ∷ cs) buf k ≡ fetch_loop cs (store buf k c) (suc k)
unfolding fetch_loop
fetch_loop-more c cs k buf e l = let fits = lt→ltb k maxbuf l in rw (fetch_loop, fits, e) refl

fetch_loop-full :
    (c : ℕ) (cs : List ℕ) (k : ℕ) (buf : ℕ → ℕ)
    → (c == b'\n') ≡ false
    → maxbuf ≤ k
    → fetch_loop (c ∷ cs) buf k ≡ fetch_loop cs buf k
unfolding fetch_loop
fetch_loop-full c cs k buf e l =
    let full : ltb k maxbuf ≡ false = ground arith in rw (fetch_loop, full, e) refl

fetch_loop-end :
    (cs : List ℕ) (k : ℕ) (buf : ℕ → ℕ)
    → suc k < maxbuf
    → fetch_loop (b'\n' ∷ cs) buf k ≡ got (suc k) (store (store buf k b'\n') (suc k) 0) cs
unfolding fetch_loop
fetch_loop-end cs k buf l =
    let fits = lt→ltb k maxbuf (omega arith) in
    let fits' = lt→ltb (suc k) maxbuf l in rw (fetch_loop, fits, fits') refl

fetch_loop-too_long :
    (cs : List ℕ) (k : ℕ) (buf : ℕ → ℕ)
    → maxbuf ≤ suc k
    → (buf' : ℕ → ℕ) × (fetch_loop (b'\n' ∷ cs) buf k ≡ fetch_loop cs buf' 0)
unfolding fetch_loop
fetch_loop-too_long cs k buf l = elim (Bool-cases (ltb k maxbuf)) [
  | inl fits ↦
      let full : ltb (suc k) maxbuf ≡ false = ground arith in
      (store buf k b'\n', rw (fetch_loop, fits, full) refl)
  | inr full ↦ (buf, rw (fetch_loop, full, full) refl)
]

-- A line that fits, from a place in it on.
fetch_loop-fits :
    (s rest : List ℕ) (k : ℕ) (buf : ℕ → ℕ)
    → has b'\n' s ≡ false
    → k + length s + 1 < maxbuf
    → (buf' : ℕ → ℕ) × (fetch_loop (s ++ b'\n' ∷ rest) buf k ≡ got (k + length s + 1) buf' rest)
      × Holds buf' k (s ++ b'\n' ∷ 0 ∷ [])
      × ((j : ℕ) → j < k → buf' j ≡ buf j)
fetch_loop-fits [] rest k buf n fits =
    let count : k + 0 + 1 ≡ suc k = omega arith in
    (
      store (store buf k b'\n') (suc k) 0,
      rw count (fetch_loop-end rest k buf (omega arith)),
      (ground arith, (ground arith, tt)),
      λ j l. ground arith,
    )
fetch_loop-fits (c ∷ s) rest k buf n fits =
    let other : (c == b'\n') ≡ false = ground (arith, n) in
    let (buf', run, h, same) =
      fetch_loop-fits s rest (suc k) (store buf k c) (ground (arith, n)) (omega arith) in
    let count : k + suc (length s) + 1 ≡ suc k + length s + 1 = omega arith in
    (
      buf',
      rw count (fetch_loop-more c (s ++ b'\n' ∷ rest) k buf other (omega arith) ∙ run),
      (same k (omega arith) ∙ ground arith, h),
      λ j l. same j (omega arith) ∙ ground arith,
    )

fetch_loop-long :
    (s rest : List ℕ) (k : ℕ) (buf : ℕ → ℕ)
    → has b'\n' s ≡ false
    → maxbuf ≤ suc (k + length s)
    → (buf' : ℕ → ℕ) × (fetch_loop (s ++ b'\n' ∷ rest) buf k ≡ fetch_loop rest buf' 0)
fetch_loop-long [] rest k buf n long = fetch_loop-too_long rest k buf (omega arith)
fetch_loop-long (c ∷ s) rest k buf n long =
    let other : (c == b'\n') ≡ false = ground (arith, n) in
    elim (le_or_lt maxbuf k) [
      | inl full ↦
          let (buf', run) = fetch_loop-long s rest k buf (ground (arith, n)) (omega arith) in
          (buf', fetch_loop-full c (s ++ b'\n' ∷ rest) k buf other full ∙ run)
      | inr room ↦
          let (buf', run) =
            fetch_loop-long s rest (suc k) (store buf k c) (ground (arith, n)) (omega arith) in
          (buf', fetch_loop-more c (s ++ b'\n' ∷ rest) k buf other room ∙ run)
    ]

fetch_loop-unlines :
    (ls : List (List ℕ)) (rest : List ℕ) (buf : ℕ → ℕ)
    → AllLong ls
    → (buf' : ℕ → ℕ) × (fetch_loop (unlines ls rest) buf 0 ≡ fetch_loop rest buf' 0)
fetch_loop-unlines [] rest buf a = (buf, refl)
fetch_loop-unlines (l ∷ ls) rest buf (n, long, a) =
    let (buf1, run1) = fetch_loop-long l (unlines ls rest) 0 buf n (omega arith) in
    let (buf', run) = fetch_loop-unlines ls rest buf1 a in (buf', run1 ∙ run)

-- fetch_line passes over the lines that are too long. It returns the first one that fits in input_buf
-- with its end and a zero, and the count of its bytes; the input is left behind that line.
pub fetch_line-unlines :
    (ls : List (List ℕ)) (s rest : List ℕ) (buf : ℕ → ℕ)
    → AllLong ls
    → has b'\n' s ≡ false
    → length s + 1 < maxbuf
    → (buf' : ℕ → ℕ) × (fetch_line (unlines ls (s ++ b'\n' ∷ rest)) buf
        ≡ got (length s + 1) buf' rest)
      × Holds buf' 0 (s ++ b'\n' ∷ 0 ∷ [])
unfolding fetch_line
fetch_line-unlines ls s rest buf a n fits =
    let (buf1, run1) = fetch_loop-unlines ls (s ++ b'\n' ∷ rest) buf a in
    let (buf', run, h, same) = fetch_loop-fits s rest 0 buf1 n (omega arith) in
    let count : length s + 1 ≡ 0 + length s + 1 = omega arith in (buf', rw count (run1 ∙ run), h)

-- What is known of any line that fetch_line returns.
abbrev pub Fetches : (stream : List ℕ) → Fetched → Type 0
Fetches stream eof = Unit {0}
Fetches stream (got count buf rest) =
    (s : List ℕ) × Holds buf 0 s
    × (has b'\n' s ≡ true)
    × (length s < maxbuf)
    × (length rest < length stream)

-- `n` bytes of an array
bytes : (ℕ → ℕ) → (i n : ℕ) → List ℕ
bytes b i zero = []
bytes b i (suc n) = b i ∷ bytes b (suc i) n

Holds-bytes : (b : ℕ → ℕ) (i n : ℕ) → Holds b i (bytes b i n)
unfolding bytes
Holds-bytes b i zero = tt
Holds-bytes b i (suc n) = (refl, Holds-bytes b (suc i) n)

length-bytes : (b : ℕ → ℕ) (i n : ℕ) → length (bytes b i n) ≡ n
unfolding bytes
length-bytes b i zero = refl
length-bytes b i (suc n) = ap suc (length-bytes b (suc i) n)

has-bytes : (b : ℕ → ℕ) (i n j : ℕ) → i ≤ j → j < i + n → has (b j) (bytes b i n) ≡ true
unfolding bytes
has-bytes b i zero j l l' = absurd (omega arith)
has-bytes b i (suc n) j l l' = elim (Bool-cases (j == i)) [
  | inl here ↦ let e : j ≡ i = ground (arith, here) in rw e (ground arith)
  | inr there ↦
      let later : suc i ≤ j = ground (arith, there) in
      ground (arith, has-bytes b (suc i) n j later (omega arith))
]

Fetches-cons : (c : ℕ) (cs : List ℕ) (o : Fetched) → Fetches cs o → Fetches (c ∷ cs) o
Fetches-cons c cs eof h = tt
Fetches-cons c cs (got n b rest) (s, h, e, l, l') = (s, h, e, l, omega arith)

-- Whatever fetch_line returns is a line with its end, in input_buf and with room for a zero; it takes
-- a byte of the input at least.
pub fetch_loop-Fetches : (cs : List ℕ) (buf : ℕ → ℕ) (k : ℕ) → Fetches cs (fetch_loop cs buf k)
unfolding fetch_loop
fetch_loop-Fetches [] buf k = tt
fetch_loop-Fetches (c ∷ cs) buf k = elim (Bool-cases (c == b'\n')) [
  | inl end ↦
      let e : c ≡ b'\n' = ground (arith, end) in
      elim (le_or_lt maxbuf (suc k)) [
        | inl long ↦
            let (buf', run) = fetch_loop-too_long cs k buf long in
            rw (e, run)
              (Fetches-cons b'\n' cs (fetch_loop cs buf' 0) (fetch_loop-Fetches cs buf' 0))
        | inr fits ↦
            let b : ℕ → ℕ = store (store buf k b'\n') (suc k) 0 in
            let at : b k ≡ b'\n' = ground arith in
            rw (e, fetch_loop-end cs k buf fits)
              (
                bytes b 0 (suc k),
                Holds-bytes b 0 (suc k),
                subst (λ x. has x (bytes b 0 (suc k)) ≡ true) at
                    (has-bytes b 0 (suc k) k (omega arith) (omega arith)),
                omega (arith, length-bytes b 0 (suc k)),
                omega arith,
              )
      ]
  | inr other ↦ elim (le_or_lt maxbuf k) [
    | inl full ↦
        rw (fetch_loop-full c cs k buf other full)
          (Fetches-cons c cs (fetch_loop cs buf k) (fetch_loop-Fetches cs buf k))
    | inr room ↦ rw (fetch_loop-more c cs k buf other room) (
        Fetches-cons c cs (fetch_loop cs (store buf k c) (suc k))
          (fetch_loop-Fetches cs (store buf k c) (suc k)))
  ]
]
