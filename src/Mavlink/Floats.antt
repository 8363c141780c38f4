-- ===== src/Mavlink/Floats.antt =====
-- The floating-point operations that the code uses, over IEEE bit patterns, and its constants. The
-- operations are a parameter; an integer operand is its two's complement bit pattern.
use res_qterra_engine.Common.{ℕ, Bool}

pub record Floats : Type 0 where
  pub f64_of_i32 : ℕ → ℕ
  pub f64_mul : ℕ → ℕ → ℕ
  pub f64_div : ℕ → ℕ → ℕ
  pub i32_of_f64 : ℕ → ℕ
  pub f32_of_i16 : ℕ → ℕ
  pub f32_of_u16 : ℕ → ℕ
  pub f32_of_i32 : ℕ → ℕ
  pub f32_of_u32 : ℕ → ℕ
  pub u32_of_f32 : ℕ → ℕ
  pub f32_mul : ℕ → ℕ → ℕ
  pub f32_div : ℕ → ℕ → ℕ
  pub f32_sqrt : ℕ → ℕ
  pub f32_gt : ℕ → ℕ → Bool

-- 1e7 as an f64, and the f32 constants.
abbrev pub ten_million : ℕ
ten_million = 4711630319722168320

abbrev pub f32_zero : ℕ
f32_zero = 0

abbrev pub f32_tenth : ℕ
f32_tenth = 1036831949

abbrev pub f32_one : ℕ
f32_one = 1065353216

abbrev pub f32_two : ℕ
f32_two = 1073741824

abbrev pub f32_five : ℕ
f32_five = 1084227584

abbrev pub f32_six : ℕ
f32_six = 1086324736

abbrev pub f32_33 : ℕ
f32_33 = 1107558400

abbrev pub f32_100 : ℕ
f32_100 = 1120403456

abbrev pub f32_1000 : ℕ
f32_1000 = 1148846080

abbrev pub f32_3600 : ℕ
f32_3600 = 1163984896

abbrev pub f32_21196 : ℕ
f32_21196 = 1185257472

abbrev pub f32_100000 : ℕ
f32_100000 = 1203982336

abbrev pub f32_nan : ℕ
f32_nan = 2143289344
