-- ===== src/Sh/Access.antt =====
-- Results of code that writes through pointers into arrays.

pub data Access {ℓ} (A : Type ℓ) : Type ℓ where
  ok : A → Access A
  -- an index beyond argv
  argv_overrun : Access A
  -- an index beyond input_buf or token_buf
  buffer_overrun : Access A

module _ {A B : Type 0} where
  infixl 5 ◌>>=◌
  abbrev pub ◌>>=◌ : Access A → (A → Access B) → Access B
  ok a >>= k = k a
  argv_overrun >>= k = argv_overrun
  buffer_overrun >>= k = buffer_overrun
