-- ===== src/Sh/Parser/Args.antt =====
-- argv: the strings that its elements point at.
use edan35_os_lund_univ.Common.{
  ℕ, zero, suc, ◌+◌, ◌≤◌, ◌<◌, ◌≡◌, refl, true, Option, some, List, [], ◌∷◌, ◌++◌, arith, length,
  length-append,
}
use edan35_os_lund_univ.Sh.Text.{Holds, Holds-frame}
use edan35_os_lund_univ.Sh.Parser.{string_at, text_of, texts_of, set_arg}
use edan35_os_lund_univ.Sh.Parser.Commands.{plain}

-- A pointer to a string in the bytes below `lim`.
pub record Points (b : ℕ → ℕ) (lim : ℕ) (o : Option ℕ) (w : List ℕ) : Type 0 where
  pub ptr : ℕ
  pub there : o ≡ some ptr
  pub below : ptr + length w < lim
  pub bytes : Holds b ptr (w ++ 0 ∷ [])
  pub no_zero : plain w ≡ true

-- The elements of argv from the k-th on point at the words.
abbrev pub Args : (b : ℕ → ℕ) → (v : ℕ → Option ℕ) → (lim k : ℕ) → List (List ℕ) → Type 0
Args b v lim k [] = Unit {0}
Args b v lim k (w ∷ ws) = Points b lim (v k) w × Args b v lim (suc k) ws

string_at-Holds :
    (n : ℕ) (b : ℕ → ℕ) (p : ℕ) (w : List ℕ)
    → length w < n
    → Holds b p (w ++ 0 ∷ [])
    → plain w ≡ true
    → string_at n b p ≡ w
unfolding string_at
string_at-Holds zero b p w l h e = absurd (omega arith)
string_at-Holds (suc n) b p [] l (h, u) e = ground (arith, h)
string_at-Holds (suc n) b p (c ∷ w) l (h, u) e =
    ground (arith, h, e, string_at-Holds n b (suc p) w (omega arith) u (ground (arith, e)))

pub text_of-Points :
    (b : ℕ → ℕ) (lim : ℕ) (o : Option ℕ) (w : List ℕ)
    → Points b lim o w
    → lim ≤ 1024
    → text_of b o ≡ w
text_of-Points b lim o w t l =
    let below = t.below in
    rw t.there (string_at-Holds 1024 b t.ptr w (omega arith) t.bytes t.no_zero)

pub texts_of-Args :
    (b : ℕ → ℕ) (v : ℕ → Option ℕ) (lim k : ℕ) (ws : List (List ℕ))
    → Args b v lim k ws
    → lim ≤ 1024
    → texts_of b v (length ws) k ≡ ws
texts_of-Args b v lim k [] a l = refl
texts_of-Args b v lim k (w ∷ ws) (t, a) l =
    rw (text_of-Points b lim (v k) w t l, texts_of-Args b v lim (suc k) ws a l) refl

Points-frame :
    (b b' : ℕ → ℕ) (lim lim' : ℕ) (o : Option ℕ) (w : List ℕ)
    → ((j : ℕ) → j < lim → b' j ≡ b j)
    → lim ≤ lim'
    → Points b lim o w
    → Points b' lim' o w
Points-frame b b' lim lim' o w same l t =
    let below = t.below in
    let len = length-append w (0 ∷ []) in
    record {
      ptr = t.ptr;
      there = t.there;
      below = omega arith;
      bytes = Holds-frame b b' t.ptr (w ++ 0 ∷ []) (λ j i. same j (omega (arith, len))) t.bytes;
      no_zero = t.no_zero;
    }

-- argv and its strings when token_buf is written behind them and an element further on is set.
pub Args-frame :
    (b b' : ℕ → ℕ) (v : ℕ → Option ℕ) (lim lim' k n : ℕ) (o : Option ℕ) (ws : List (List ℕ))
    → ((j : ℕ) → j < lim → b' j ≡ b j)
    → lim ≤ lim'
    → k + length ws ≤ n
    → Args b v lim k ws
    → Args b' (set_arg v n o) lim' k ws
Args-frame b b' v lim lim' k n o [] same l out a = tt
Args-frame b b' v lim lim' k n o (w ∷ ws) same l out (t, a) =
    let other : set_arg v n o k ≡ v k = ground arith in
    (
      rw other (Points-frame b b' lim lim' (v k) w same l t),
      Args-frame b b' v lim lim' (suc k) n o ws same l (omega arith) a,
    )

-- One word more, at the element that was set.
pub Args-concat :
    (b : ℕ → ℕ) (v : ℕ → Option ℕ) (lim k : ℕ) (ws : List (List ℕ)) (w : List ℕ)
    → Args b v lim k ws
    → Points b lim (v (k + length ws)) w
    → Args b v lim k (ws ++ w ∷ [])
Args-concat b v lim k [] w a t = let e : k + 0 ≡ k = omega arith in (rw (← e) t, tt)
Args-concat b v lim k (x ∷ ws) w (u, a) t =
    let e : suc k + length ws ≡ k + suc (length ws) = omega arith in
    (u, Args-concat b v lim (suc k) ws w a (rw e t))
