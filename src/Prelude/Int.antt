-- ===== src/Prelude/Int.antt =====
-- Go's `int` and `int64`: signed integers over the native numbers, with the wrap-around of `++`.
use Prim.Native.Nat.{ℕ, zero, suc, ◌+◌, ◌-◌, ◌*◌, ◌%◌, ◌^◌, ◌≤◌, ◌<◌}
use mathlib.Core.Path.{◌≡◌}
use mathlib.Core.Logic.{◌↔◌, ◌≢◌}
use mathlib.Core.Bool.{Bool, true, false}
use native.Mathlib.Omega.{arith}
use asteria_drive.Prelude.Tests.{Eq, ◌==◌, nat_eq, ltb, leb, if◌then◌else◌}

-- `negsuc n` is -(n + 1).
pub data ℤ : Type 0 where
  pos : ℕ → ℤ
  negsuc : ℕ → ℤ

unfoldable pub int_beq : ℤ → ℤ → Bool
int_beq (pos a) (pos b) = a == b
int_beq (negsuc a) (negsuc b) = a == b
int_beq _ _ = false

pub int_beq_iff : (a b : ℤ) → (int_beq a b ≡ true) ↔ (a ≡ b)
unfolding int_beq
int_beq_iff a b = ground arith

instance abbrev pub int_eq : Eq ℤ
int_eq = record { beq = int_beq; beq_iff = int_beq_iff }

-- a < b and a ≤ b
unfoldable pub ltb_ℤ : ℤ → ℤ → Bool
ltb_ℤ (pos a) (pos b) = ltb a b
ltb_ℤ (negsuc a) (negsuc b) = ltb b a
ltb_ℤ (negsuc a) (pos b) = true
ltb_ℤ (pos a) (negsuc b) = false

unfoldable pub leb_ℤ : ℤ → ℤ → Bool
leb_ℤ (pos a) (pos b) = leb a b
leb_ℤ (negsuc a) (negsuc b) = leb b a
leb_ℤ (negsuc a) (pos b) = true
leb_ℤ (pos a) (negsuc b) = false

-- `x++` on an int64: 2^63 - 1 wraps to -2^63.
unfoldable pub inc64 : ℤ → ℤ
inc64 (pos n) = if n == 2 ^ 63 - 1 then negsuc (2 ^ 63 - 1) else pos (n + 1)
inc64 (negsuc zero) = pos 0
inc64 (negsuc (suc n)) = negsuc n

-- An increment never gives the number that it started from.
pub inc64_ne : (r : ℤ) → inc64 r ≢ r
unfolding inc64
inc64_ne (pos n) = ground arith
inc64_ne (negsuc zero) = ground arith
inc64_ne (negsuc (suc n)) = ground arith

-- The bit pattern of an int64, and the number that a pattern stands for.
abbrev pub bits64 : ℤ → ℕ
bits64 (pos n) = n % 2 ^ 64
bits64 (negsuc n) = 2 ^ 64 - 1 - n % 2 ^ 64

abbrev pub signed64 : ℕ → ℤ
signed64 w = if ltb w (2 ^ 63) then pos w else negsuc (2 ^ 64 - 1 - w)

-- `a - b` and `a * b` on int64, with their wrap-around.
unfoldable pub sub64 : ℤ → ℤ → ℤ
sub64 a b = signed64 ((bits64 a + 2 ^ 64 - bits64 b) % 2 ^ 64)

unfoldable pub mul64 : ℤ → ℤ → ℤ
mul64 a b = signed64 ((bits64 a * bits64 b) % 2 ^ 64)

pub sub64-pos : (a b : ℕ) → a < 2 ^ 63 → b ≤ a → sub64 (pos a) (pos b) ≡ pos (a - b)
unfolding sub64
sub64-pos a b h le = ground arith

pub mul64-pos :
    (a b : ℕ) → a * b < 2 ^ 63 → a < 2 ^ 63 → b < 2 ^ 63 → mul64 (pos a) (pos b) ≡ pos (a * b)
unfolding mul64
mul64-pos a b h ha hb = ground arith

pub sub64-negsuc : (a b : ℕ) → a < b → b < 2 ^ 63 → sub64 (pos a) (pos b) ≡ negsuc (b - a - 1)
unfolding sub64
sub64-negsuc a b lt h = ground arith
