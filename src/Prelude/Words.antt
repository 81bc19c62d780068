-- ===== src/Prelude/Words.antt =====
-- Fixed-width unsigned arithmetic of the source.
use Prim.Native.Nat.{ℕ, ◌+◌, ◌-◌, ◌*◌, ◌/◌, ◌%◌, ◌≤◌, ◌<◌, min}
use native.Mathlib.Nat.{div-lt_iff_lt-mul, le-div_iff_mul-le, lt-div-mul-add}
use native.Mathlib.Omega.{arith}

abbrev pub u8_max : ℕ
u8_max = 255

abbrev pub u32_max : ℕ
u32_max = 4294967295

abbrev pub u64_max : ℕ
u64_max = 18446744073709551615

-- `u32::saturating_add`.
abbrev pub sat_add32 : ℕ → ℕ → ℕ
sat_add32 a b = min (a + b) u32_max

-- `u8::saturating_add`.
abbrev pub sat_add8 : ℕ → ℕ → ℕ
sat_add8 a b = min (a + b) u8_max

-- `as u32`.
abbrev pub as_u32 : ℕ → ℕ
as_u32 n = n % 4294967296

-- `usize::div_ceil`, for a divisor that is not 0.
abbrev pub div_ceil : ℕ → ℕ → ℕ
div_ceil a b = (a + b - 1) / b

pub mul-lt_of_lt-div_ceil : (a b k : ℕ) → 0 < b → k < div_ceil a b → k * b < a
mul-lt_of_lt-div_ceil a b k pos h =
    let h' : (k + 1) * b ≤ a + b - 1 = (le-div_iff_mul-le pos).0 (omega arith) in grind arith

pub div-lt-div_ceil : (a b p : ℕ) → 0 < b → p < a → p / b < div_ceil a b
div-lt-div_ceil a b p pos h =
    (div-lt_iff_lt-mul pos).1
      (let e : a + b - 1 < (a + b - 1) / b * b + b = lt-div-mul-add pos in omega arith)
