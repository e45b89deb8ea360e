-- ===== src/Fs/Run.antt =====
-- The effects of the file system's functions: they change the cached blocks and the disk, return
-- early with a negative error number, or access memory out of bounds.
use edan35_os_lund_univ.Common.{◌≡◌, refl}

pub data Errno : Type 0 where
  enoent enospc enfile : Errno

pub data Run (S A : Type 0) : Type 0 where
  ok : A → S → Run S A
  error : Errno → S → Run S A
  fault : Run S A

abbrev pub Cmd : Type 0 → Type 0 → Type 0
Cmd S A = S → Run S A

abbrev pub pure : {S A : Type 0} → A → Cmd S A
pure = ok

abbrev pub throw : {S A : Type 0} → Errno → Cmd S A
throw = error

module _ {S A B : Type 0} where
  abbrev pub and_then : Run S A → (A → Cmd S B) → Run S B
  and_then (ok a s) k = k a s
  and_then (error e s) k = error e s
  and_then fault k = fault

  infixl 5 ◌>>=◌ ◌>>◌
  abbrev pub ◌>>=◌ : Cmd S A → (A → Cmd S B) → Cmd S B
  m >>= k = λ s. and_then (m s) k

  abbrev pub ◌>>◌ : Cmd S A → Cmd S B → Cmd S B
  m >> n = m >>= λ _. n

abbrev pub get : {S : Type 0} → Cmd S S
get s = ok s s

abbrev pub modify : {S : Type 0} → (S → S) → Cmd S (Unit {0})
modify f s = ok tt (f s)

-- What a run returns, or fails with; it never faults.
pub data Returns {S A : Type 0} (P : A → S → Type 0) (Q : Errno → S → Type 0)
    : Run S A → Type 0 where
  returns : {a : A} {s : S} → P a s → Returns P Q (ok a s)
  fails : {e : Errno} {s : S} → Q e s → Returns P Q (error e s)

module _ {S A B : Type 0} {P : A → S → Type 0} {R : B → S → Type 0}
    {Q Q' : Errno → S → Type 0} where
  pub bind :
      {r : Run S A} {k : A → Cmd S B}
      → Returns P Q r
      → ((e : Errno) (s : S) → Q e s → Q' e s)
      → ((a : A) (s : S) → P a s → Returns R Q' (k a s))
      → Returns R Q' (and_then r k)
  bind (returns p) weaken next = next _ _ p
  bind (fails q) weaken next = fails (weaken _ _ q)

module _ {S A : Type 0} {P R : A → S → Type 0} {Q Q' : Errno → S → Type 0} where
  pub mono :
      {r : Run S A}
      → Returns P Q r
      → ((a : A) (s : S) → P a s → R a s)
      → ((e : Errno) (s : S) → Q e s → Q' e s)
      → Returns R Q' r
  mono (returns p) f g = returns (f _ _ p)
  mono (fails q) f g = fails (g _ _ q)

module _ {S A : Type 0} {P : A → S → Type 0} {Q : Errno → S → Type 0} where
  pub succeeds :
      {r : Run S A}
      → Returns P Q r
      → ((e : Errno) (s : S) → Q e s → ⊥)
      → (a : A) × (s : S) × (r ≡ ok a s) × P a s
  succeeds (returns p) never = (_, _, refl, p)
  succeeds (fails q) never = absurd (never _ _ q)

  pub refuses :
      {r : Run S A}
      → Returns P Q r
      → ((a : A) (s : S) → P a s → ⊥)
      → (e : Errno) × (s : S) × (r ≡ error e s) × Q e s
  refuses (returns p) never = absurd (never _ _ p)
  refuses (fails q) never = (_, _, refl, q)
