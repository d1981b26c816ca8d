-- ===== src/Base/Int.antt =====
-- The integers, and Go's `int32` arithmetic on them.
use Prim.Native.Nat.{ℕ, zero, suc, ◌+◌, ◌-◌, ◌%◌, ◌<◌}
use mathlib.Core.Path.{◌≡◌, refl, ap}
use mathlib.Core.Logic.{dite}
use mathlib.Core.Bool.{Bool, true, false}
use native.Mathlib.Decide.{ℕ_discrete}
use native.Mathlib.Omega.{arith}
use poll_operator.Base.Equality.{Eq, if◌then◌else◌, ltb}

-- `negsuc n` is -(n + 1).
pub data ℤ : Type 0 where
  pos : ℕ → ℤ
  negsuc : ℕ → ℤ

abbrev pub pos_part : ℤ → ℕ
pos_part (pos n) = n
pos_part (negsuc n) = 0

abbrev pub neg_part : ℤ → ℕ
neg_part (pos n) = 0
neg_part (negsuc n) = suc n

ℤ-discrete : Discrete ℤ
ℤ-discrete (pos a) (pos b) =
    dite (ℕ_discrete a b) (λ p. yes (ap pos p)) (λ n. no (λ p. n (ap pos_part p)))
ℤ-discrete (pos a) (negsuc b) = no (λ p. cc)
ℤ-discrete (negsuc a) (pos b) = no (λ p. cc)
ℤ-discrete (negsuc a) (negsuc b) =
    dite (ℕ_discrete a b) (λ p. yes (ap negsuc p)) (λ n. no (λ p. n (ground arith)))

instance unfoldable pub int_eq : Eq ℤ
unfolding ℤ-discrete
int_eq = record { dec = ℤ-discrete }

abbrev pub is_positive : ℤ → Bool
is_positive (pos n) = ltb 0 n
is_positive (negsuc n) = false

-- a > b
abbrev pub gtb : ℤ → ℤ → Bool
gtb (pos a) (pos b) = ltb b a
gtb (pos a) (negsuc b) = true
gtb (negsuc a) (pos b) = false
gtb (negsuc a) (negsuc b) = ltb a b

abbrev pub int32_mod : ℕ
int32_mod = 4294967296

abbrev pub int32_half : ℕ
int32_half = 2147483648

-- The signed value of a 32-bit pattern.
abbrev signed : ℕ → ℤ
signed m = if ltb m int32_half then pos m else negsuc (int32_mod - 1 - m)

-- The conversion `int32(x)`, which keeps the low 32 bits.
unfoldable pub int32 : ℤ → ℤ
int32 (pos n) = signed (n % int32_mod)
int32 (negsuc n) = signed (int32_mod - 1 - n % int32_mod)

-- x + 1 as an integer
abbrev succ : ℤ → ℤ
succ (pos n) = pos (n + 1)
succ (negsuc zero) = pos 0
succ (negsuc (suc n)) = negsuc n

-- The statement `x++` on an `int32`.
unfoldable pub inc32 : ℤ → ℤ
unfolding int32
inc32 x = int32 (succ x)

pub inc32-int32 : (n : ℕ) → inc32 (int32 (pos n)) ≡ int32 (pos (suc n))
unfolding inc32
inc32-int32 n = ground arith

pub int32_small : (n : ℕ) → n < int32_half → int32 (pos n) ≡ pos n
unfolding int32
int32_small n h = ground arith

inc32_wraps : inc32 (pos 2147483647) ≡ negsuc 2147483647
unfolding inc32
inc32_wraps = refl
