-- ===== src/Vec/Masked/Allowed.antt =====
-- wam_get_vec answers what the masks allow.
use getassoc.Common.{
  ℕ, ◌+◌, ◌≡◌, refl, Bool, false, Option, none, some, List, [], ◌∷◌, arith, ◌==◌, if◌then◌else◌,
}
use getassoc.Corpus.{XrElem}
use getassoc.Vec.{XrVec}
use getassoc.Vec.Merge.Union.{freq_in, total}
use getassoc.Vec.Uniq.{IsOver, IsVector}
use getassoc.Vec.Masked.Left.{visible}

-- What mask_vec leaves of a vector
record Passed (ok : ℕ → Bool) (elems : List XrElem) (s : ℕ) (r : ℕ × List XrElem) : Type 0 where
  sum : r.0 ≡ s + total r.1
  vector : IsVector r.1
  over : (id : ℕ) → IsOver id elems → IsOver id r.1
  freqs : (x : ℕ) → freq_in x r.1 ≡ (if ok x then freq_in x elems else 0)

absent : (id : ℕ) (xs : List XrElem) → IsOver id xs → freq_in id xs ≡ 0
absent id [] h = refl
absent id (a ∷ xs) (lt, h) =
    let other : (a.id == id) ≡ false = ground arith in rw other (omega (arith, absent id xs h))

-- What wam_get_vec answers for a vector
pub data Answered (granted : Bool) (pmask nmask : Option (List ℕ)) (elems : List XrElem)
    : ℕ × Option XrVec → Type 0 where
  refused : {tv_size : ℕ} → granted ≡ false → Answered granted pmask nmask elems (tv_size, none)
  answered :
      {tv_size : ℕ} {r : XrVec}
      → IsVector r.elems
      → r.freq_sum ≡ total r.elems
      → ((x : ℕ) → freq_in x r.elems ≡ (if visible pmask nmask x then freq_in x elems else 0))
      → Answered granted pmask nmask elems (tv_size, some r)
