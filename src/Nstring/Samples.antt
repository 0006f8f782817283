-- ===== src/Nstring/Samples.antt =====
-- Runs and examples for nstring.c: a realloc that fills up with zeros.
use getassoc.Common.{
  round_up, ℕ, zero, suc, ◌≤◌, ◌≡◌, refl, ap, Option, none, some, List, [], ◌∷◌, arith, length,
  take, inl, done, Returns, ◌>>=◌,
}
use getassoc.Nstring.{Nstring, write_at, strlen, append, ns_append, writefn_ns_append}
use getassoc.Nstring.Append.{content, IsRealloc, Appended, ns_append-Appended}

abbrev pub padded : List ℕ → ℕ → List ℕ
padded [] zero = []
padded [] (suc n) = 0 ∷ padded [] n
padded (c ∷ old) zero = []
padded (c ∷ old) (suc n) = c ∷ padded old n

abbrev pub zeros_behind : List ℕ → ℕ → Option (List ℕ)
zeros_behind old n = some (padded old n)

padded-keeps :
    (old : List ℕ) (n : ℕ)
    → length old ≤ n
    → (length (padded old n) ≡ n) × (take (length old) (padded old n) ≡ old)
padded-keeps [] zero h = (refl, refl)
padded-keeps [] (suc n) h = (ap suc (padded-keeps [] n (omega arith)).0, refl)
padded-keeps (c ∷ old) zero h = absurd (omega arith)
padded-keeps (c ∷ old) (suc n) h =
    let (long, same) = padded-keeps old n (omega arith) in (ap suc long, ap (◌∷◌ c) same)

pub zeros_behind-IsRealloc : IsRealloc zeros_behind
zeros_behind-IsRealloc old n new h e =
    let same : padded old n ≡ new = cc in rw⁻¹ same (padded-keeps old n h)

abbrev nothing_yet : Nstring
nothing_yet = record { ptr = []; len = 0 }

-- With a length of -1 the string counts up to its NUL.
up_to_nul :
    (ns_append zeros_behind nothing_yet (97 ∷ 98 ∷ 0 ∷ 99 ∷ []) none >>= λ r. done (content r.1))
    ≡ done (97 ∷ 98 ∷ [])
unfolding ns_append append strlen write_at round_up
up_to_nul = refl

written : (writefn_ns_append zeros_behind nothing_yet (97 ∷ []) 1 >>= λ r. done r.0) ≡ done (some 1)
unfolding writefn_ns_append ns_append append write_at round_up
written = refl

ns_append-Appended_example :
    Returns
      (Appended zeros_behind nothing_yet (97 ∷ []))
      (ns_append zeros_behind nothing_yet (97 ∷ 98 ∷ []) (some 1))
ns_append-Appended_example =
    ns_append-Appended zeros_behind zeros_behind-IsRealloc nothing_yet (inl (refl, refl))
      (97 ∷ 98 ∷ []) 1 (omega arith)
