-- ===== src/Brsearch.antt =====
-- brsearch.c: the binary search that finds the range of the elements equal to a key.
pub mod Range
mod Samples
use getassoc.Common.{
  ℕ, zero, suc, ◌+◌, ◌-◌, ◌/◌, ◌%◌, Ordering, Bool, true, false, List, ltb, ◌==◌, if◌then◌else◌,
  length, get_elem?, Run, done, out_of_fuel, ◌>>=◌, deref,
}

-- A sum of `size_t`s, halved
unfoldable pub half : ℕ → ℕ
half n = n % 0x10000000000000000 / 2

module _ {K A : Type 0} (compar : K → A → Ordering) (key : K) (base : List A) where
  -- The test of the first loop, `> 0`
  unfoldable pub is_after : A → Bool
  is_after x = elim (compar key x) [
    | Ordering.gt ↦ true
    | Ordering.eq ↦ false
    | Ordering.lt ↦ false
  ]

  -- The test of the second loop, `>= 0`
  unfoldable pub is_from : A → Bool
  is_from x = elim (compar key x) [ Ordering.gt ↦ true | Ordering.eq ↦ true | Ordering.lt ↦ false ]

  -- The first loop, on fuel
  unfoldable pub lower : ℕ → ℕ → ℕ → Run (ℕ × ℕ)
  lower zero l r = out_of_fuel
  lower (suc n) l r =
      let m = half (l + r - 1) in
      let narrowed : Run (ℕ × ℕ) = deref (get_elem? base m) >>= λ x.
      let next : ℕ × ℕ = if is_after x then (m + 1, r) else (l, m + 1) in lower n next.0 next.1 in
      if ltb l (r - 1) then narrowed else done (l, r)

  -- The second loop, on fuel
  unfoldable pub upper : ℕ → ℕ → ℕ → Run (ℕ × ℕ)
  upper zero l r = out_of_fuel
  upper (suc n) l r =
      let m = half (l + r) in
      let narrowed : Run (ℕ × ℕ) = deref (get_elem? base m) >>= λ x.
      let next : ℕ × ℕ = if is_from x then (m, r) else (l, m) in upper n next.0 next.1 in
      if ltb l (r - 1) then narrowed else done (l, r)

  -- From the third comparison on, made with the cell `x` at `s.0`
  unfoldable pub answer : ℕ × ℕ → A → Run (Bool × ℕ × ℕ)
  unfolding upper
  answer s x = elim (compar key x) [
    | Ordering.lt ↦ done (false, s.0, s.0)
    | Ordering.gt ↦ done (false, s.1, s.1)
    | Ordering.eq ↦ (upper (suc (length base)) s.0 (length base) >>= λ t. done (true, s.0, t.1))
  ]

  -- Whether the key is found (the answer is 0, not -1), `*left` and `*right`
  unfoldable pub brsearch : Run (Bool × ℕ × ℕ)
  unfolding lower answer
  brsearch =
      let nmemb = length base in
      if nmemb == 0
      then done (false, 0, 0)
      else (lower (suc nmemb) 0 nmemb >>= λ s. deref (get_elem? base s.0) >>= λ x. answer s x)
