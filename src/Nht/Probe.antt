-- ===== src/Nht/Probe.antt =====
-- The probes of nsxhash see every cell: after the tables, the hash value counts up.
use native.Mathlib.Nat.{mul-add-mod_self_left, mod-eq_of_lt, div-add-mod, mod-lt, mul-add}
use getassoc.Common.{
  ℕ, ◌+◌, ◌*◌, ◌-◌, ◌/◌, ◌%◌, ◌≤◌, ◌<◌, ◌≡◌, refl, ap, ◌∙◌, false, List, ltb, arith, lt-cases, inl,
  inr,
}
use getassoc.Nht.{cshash, nsxhash, probes}

-- Among the numbers from `a` on, one of the next `size` has the remainder `s`.
residue : (size a s : ℕ) → s < size → (j : ℕ) × (j < size) × ((a + j) % size ≡ s)
residue size a s h =
    let whole = div-add-mod a size in
    let low : a % size < size = mod-lt a (omega arith) in
    let small : s % size ≡ s = mod-eq_of_lt h in
    elim (lt-cases s (a % size)) [
      | inr ge ↦
          let e : a + (s - a % size) ≡ size * (a / size) + s = omega (arith, whole) in
          (
            s - a % size,
            omega arith,
            ap (λ x. x % size) e ∙ mul-add-mod_self_left size (a / size) s ∙ small,
          )
      | inl lt ↦
          let e : a + (size - a % size + s) ≡ size * (a / size + 1) + s =
            let d = mul-add size (a / size) 1 in omega (arith, whole, d, low) in
          (
            size - a % size + s,
            omega arith,
            ap (λ x. x % size) e ∙ mul-add-mod_self_left size (a / size + 1) s ∙ small,
          )
    ]

module _ (tbls : ℕ → ℕ → ℕ) (nelems size : ℕ) (p : List ℕ) where
  cshash-beyond : (c : ℕ) → nelems ≤ c → cshash tbls nelems p c ≡ cshash tbls nelems p nelems
  unfolding cshash
  cshash-beyond c h =
      let a : ltb c nelems ≡ false = ground arith in
      let b : ltb nelems nelems ≡ false = ground arith in rw (a, b) refl

  pub nsxhash-lt : (c : ℕ) → 0 < size → nsxhash tbls nelems size p c < size
  unfolding nsxhash
  nsxhash-lt c h = mod-lt _ h

  -- On an index of at least one and at most 2 ^ 32 cells, each cell is the one that nsxhash probes at
  -- some step before the number of tables plus twice the size, whatever the key.
  pub nsxhash-covers :
      0 < size
      → size ≤ 0x100000000
      → (s : ℕ) → s < size
      → (c : ℕ) × (c < probes nelems size) × (nsxhash tbls nelems size p c ≡ s)
  unfolding nsxhash
  nsxhash-covers pos small s h =
      let h0 = cshash tbls nelems p nelems in
      let a = (h0 + nelems) % 0x100000000 in
      elim (lt-cases 0x100000000 (a + size)) [
        | inr fits ↦
            let (j, jl, e) = residue size a s h in
            let w : (h0 + (nelems + j)) % 0x100000000 ≡ a + j = omega arith in
            (nelems + j, omega arith, rw (cshash-beyond (nelems + j) (omega arith), w) e)
        | inl over ↦
            let c = nelems + (0x100000000 - a + s) in
            let w : (h0 + c) % 0x100000000 ≡ s = omega arith in
            (c, omega arith, rw (cshash-beyond c (omega arith), w) (mod-eq_of_lt h))
      ]
