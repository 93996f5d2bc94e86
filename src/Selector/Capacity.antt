-- ===== src/Selector/Capacity.antt =====
-- The new size that `next_capacity` of selector.c computes.
use tpe_protos.Common.{
  ℕ, zero, suc, ◌+◌, ◌-◌, ap, ◌∙◌, ◌*◌, ◌/◌, ◌^◌, ◌≤◌, ◌<◌, ◌≡◌, arith, Bool-cases, inl, inr, ◌==◌,
}
use tpe_protos.Selector.{bits_of, next_capacity, items_max_size}

pow_two : (k : ℕ) → 2 ^ (k + 1) ≡ 2 * 2 ^ k
pow_two k = ap (λ q. 2 ^ q) {x = k + 1} {y = suc k} (omega arith) ∙ step k
  where
    step : (k : ℕ) → 2 ^ suc k ≡ 2 * 2 ^ k
    step k = omega arith

bits_of-tight :
    (fuel n : ℕ) → n ≤ fuel → (n < 2 ^ bits_of fuel n) × (2 ^ bits_of fuel n ≤ 2 * n + (1 - n))
unfolding bits_of
bits_of-tight zero n h = (ground arith, ground arith)
bits_of-tight (suc fuel) n h = elim (Bool-cases (n == 0)) [
  | inl e ↦ rw e (ground arith, ground arith)
  | inr e ↦
      let ih = bits_of-tight fuel (n / 2) (ground arith) in
      rw (e, pow_two (bits_of fuel (n / 2)))
        (ground (arith, ih.0, ih.1), ground (arith, ih.0, ih.1))
]

-- For an index up to the limit of `select`, the new size is larger than the index and at most one
-- more than the limit.
next_capacity_lem :
    (n : ℕ) → n ≤ items_max_size → (n < next_capacity n) × (next_capacity n ≤ items_max_size + 1)
unfolding next_capacity
next_capacity_lem n h =
    let b = bits_of-tight n n (omega arith) in (ground (arith, b.0, b.1), ground (arith, b.0, b.1))
