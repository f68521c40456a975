-- ===== src/Prelude/Float64.antt =====
-- The float64 of the language, as far as the program divides with it: a positive float is the fraction
-- that it stands for, and an operation gives the nearest float to the exact result, the even one of
-- two that are as near. Infinities and the smallest floats do not come up.
use phenk.Prelude.{
  ℕ, zero, suc, ◌+◌, ◌*◌, ◌/◌, ◌%◌, ◌^◌, true, false, ltb, leb, ◌==◌, ◌&&◌, ◌||◌, if◌then◌else◌,
}

pub record Float64 : Type 0 where
  pub num : ℕ
  pub den : ℕ

-- The nearest whole number to n / d.
abbrev pub nearest : ℕ → ℕ → ℕ
nearest n d =
    let r = n % d in if ltb d (2 * r) || (2 * r == d && n / d % 2 == 1) then n / d + 1 else n / d

abbrev pub halved : Float64 → Float64
halved f = record { num = f.num; den = 2 * f.den }

abbrev pub doubled : Float64 → Float64
doubled f = record { num = 2 * f.num; den = f.den }

-- The float nearest to n / d, of 53 bits: each round brings the fraction a power of 2 nearer to them,
-- so 200 rounds are enough for what lies between 2 ^ (-147) and 2 ^ 252.
unfoldable pub rounded_for : ℕ → ℕ → ℕ → Float64
rounded_for zero n d = record { num = n; den = d }
rounded_for (suc fuel) n d = elim (ltb n (2 ^ 52 * d)) [
  | true ↦ halved (rounded_for fuel (2 * n) d)
  | false ↦ elim (leb (2 ^ 53 * d) n) [
    | true ↦ doubled (rounded_for fuel n (2 * d))
    | false ↦ record { num = nearest n d; den = 1 }
  ]
]

unfoldable pub rounded : ℕ → ℕ → Float64
unfolding rounded_for
rounded n d = if n == 0 then record { num = 0; den = 1 } else rounded_for 200 n d

-- A whole number as a float, and back: the conversion to an integer cuts off the fraction.
abbrev pub of_nat : ℕ → Float64
of_nat n = rounded n 1

abbrev pub to_nat : Float64 → ℕ
to_nat f = f.num / f.den

abbrev pub plus : Float64 → Float64 → Float64
plus a b = rounded (a.num * b.den + b.num * a.den) (a.den * b.den)

abbrev pub over : Float64 → Float64 → Float64
over a b = rounded (a.num * b.den) (a.den * b.num)
