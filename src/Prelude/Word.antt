-- ===== src/Prelude/Word.antt =====
-- `int` and `uint32_t`: a value is its bit pattern, a number below 2^32. An `int` is negative if its
-- top bit is set, and -1 is 0xffffffff.
use oslab_nju.Prelude.{ℕ, ◌+◌, ◌-◌, ◌%◌, ◌^◌, Bool, ltb, leb}

abbrev pub modulus : ℕ
modulus = 2 ^ 32

abbrev pub minus_one : ℕ
minus_one = 0xffff_ffff

abbrev pub add32 : ℕ → ℕ → ℕ
add32 a b = (a + b) % 2 ^ 32

abbrev pub sub32 : ℕ → ℕ → ℕ
sub32 a b = (a + 2 ^ 32 - b) % 2 ^ 32

-- `x < 0` for an `int`.
abbrev pub is_neg : ℕ → Bool
is_neg a = leb 0x8000_0000 a

-- `a < b` for two `int`s.
abbrev pub slt : ℕ → ℕ → Bool
slt a b = ltb ((a + 0x8000_0000) % 2 ^ 32) ((b + 0x8000_0000) % 2 ^ 32)
