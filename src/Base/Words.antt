-- ===== src/Base/Words.antt =====
-- uint64 and the functions of Go's math/bits over it.
use Prim.Native.Nat.{ℕ, ◌+◌, ◌-◌, ◌*◌, ◌/◌, ◌%◌, ◌^◌, ◌<◌}
use strevm.Base.Tests.{leb, if◌then◌else◌}
use strevm.Base.Outcomes.{Outcome, ok, panic}

abbrev pub u64_mod : ℕ
u64_mod = 2 ^ 64

-- math.MaxUint64
abbrev pub max_u64 : ℕ
max_u64 = 2 ^ 64 - 1

abbrev pub IsU64 : ℕ → Type 0
IsU64 n = n < u64_mod

-- The wrapping operators `+`, `-`, `*` of uint64.
abbrev pub add_u64 : ℕ → ℕ → ℕ
add_u64 a b = (a + b) % u64_mod

abbrev pub sub_u64 : ℕ → ℕ → ℕ
sub_u64 a b = (a + u64_mod - b) % u64_mod

abbrev pub mul_u64 : ℕ → ℕ → ℕ
mul_u64 a b = (a * b) % u64_mod

-- bits.Mul64: the high and the low word of the product.
abbrev pub bits_mul64 : ℕ → ℕ → ℕ × ℕ
bits_mul64 a b = (a * b / u64_mod, a * b % u64_mod)

-- bits.Add64: the sum and the carry.
abbrev pub bits_add64 : ℕ → ℕ → ℕ → ℕ × ℕ
bits_add64 a b carry = ((a + b + carry) % u64_mod, (a + b + carry) / u64_mod)

-- bits.Div64: quotient and remainder of the two words by `y`; it panics for `y <= hi`, which a
-- divisor of zero always is.
abbrev pub bits_div64 : ℕ → ℕ → ℕ → Outcome (ℕ × ℕ)
bits_div64 hi lo y =
    if leb y hi then panic else ok ((hi * u64_mod + lo) / y, (hi * u64_mod + lo) % y)
