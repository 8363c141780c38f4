-- ===== src/Mavlink/Telemetry/Speed.antt =====
-- src/mavlink/telemetry.rs: the square of the ground speed, which is computed in i16.
use res_qterra_engine.Common.{
  ℕ, ◌+◌, ◌-◌, ◌*◌, ◌%◌, ◌≡◌, ◌<◌, refl, ltb, if◌then◌else◌, arith, ap, sym, ◌∙◌, Bool-cases, inl,
  inr,
}
use native.Mathlib.Nat.{mul-add, mul_comm}
use res_qterra_engine.Mavlink.Telemetry.{speed_squared}

-- The amount of an i16 that is given by its two's complement.
abbrev pub magnitude : ℕ → ℕ
magnitude v = if ltb v 32768 then v else 65536 - v

-- A number and what it lacks to 65536 have the same square in 16 bits.
square-complement : (v a : ℕ) → v + a ≡ 65536 → v * v % 65536 ≡ a * a % 65536
square-complement v a e =
    let by_v : v * 65536 ≡ v * v + v * a = ap (λ n. v * n) (sym e) ∙ mul-add v v a in
    let by_a : a * 65536 ≡ a * v + a * a = ap (λ n. a * n) (sym e) ∙ mul-add a v a in
    omega (arith, by_v, by_a, mul_comm v a)

square-magnitude : (v : ℕ) → v < 65536 → v * v % 65536 ≡ magnitude v * magnitude v % 65536
square-magnitude v h = elim (Bool-cases (ltb v 32768)) [
  | inl e ↦ rw e refl
  | inr e ↦ rw e (square-complement v (65536 - v) (omega arith))
]

-- As long as the square of the ground speed, in (cm/s)², fits in an i16, which is up to a speed of
-- 181 cm/s, the reader computes it exactly, whatever the signs of the two components.
pub speed_squared-magnitude :
    (vx vy : ℕ)
    → vx < 65536
    → vy < 65536
    → magnitude vx * magnitude vx + magnitude vy * magnitude vy < 32768
    → speed_squared vx vy ≡ magnitude vx * magnitude vx + magnitude vy * magnitude vy
speed_squared-magnitude vx vy hx hy h =
    omega (arith, square-magnitude vx hx, square-magnitude vy hy)
