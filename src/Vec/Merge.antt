-- ===== src/Vec/Merge.antt =====
-- merge_vec merges in place, from the last cells on.
pub mod Union
use getassoc.Common.{
  ℕ, zero, suc, ◌+◌, ◌-◌, ◌≤◌, ◌<◌, ◌≡◌, refl, sym, ap, ◌∙◌, Bool, true, false, Option, some, none,
  List, [], ◌∷◌, ◌++◌, arith, append_assoc, append-nil, ltb, ◌==◌, if◌then◌else◌, length,
  length-append, get_elem?, set, All, All-mono, inl, inr, Bool-cases, Run, done, fault,
}
use getassoc.Corpus.{XrElem}
use getassoc.Vec.{put_elem, ecompar_gt, copy_loop, merge_vec_loop}

-- An array from its last cell on, in front of `rest`
abbrev pub onto : List XrElem → List XrElem → List XrElem
onto [] rest = rest
onto (a ∷ last) rest = onto last (a ∷ rest)

-- The merge of two arrays, each from its last cell on
abbrev pub merge_last : List XrElem → List XrElem → List XrElem → List XrElem
merge_last [] b rest = onto b rest
merge_last (a ∷ as_) [] rest = onto (a ∷ as_) rest
merge_last (a ∷ as_) (b ∷ bs) rest =
    if ecompar_gt a b
    then merge_last as_ (b ∷ bs) (a ∷ rest)
    else merge_last (a ∷ as_) bs (b ∷ rest)

pub length-onto : (last rest : List XrElem) → length (onto last rest) ≡ length last + length rest
length-onto [] rest = omega arith
length-onto (a ∷ last) rest = omega (arith, length-onto last (a ∷ rest))

get_elem?-onto :
    (last rest : List XrElem) (i k : ℕ)
    → i ≡ length last + k
    → get_elem? (onto last rest) i ≡ get_elem? rest k
get_elem?-onto [] rest i k e = let same : i ≡ k = omega arith in ap (get_elem? rest) same
get_elem?-onto (a ∷ last) rest i k e = get_elem?-onto last (a ∷ rest) i (suc k) (omega arith)

set-onto :
    (last rest : List XrElem) (i k : ℕ) (v : XrElem)
    → i ≡ length last + k
    → set (onto last rest) i v ≡ onto last (set rest k v)
set-onto [] rest i k v e = let same : i ≡ k = omega arith in ap (λ j. set rest j v) same
set-onto (a ∷ last) rest i k v e = set-onto last (a ∷ rest) i (suc k) v (omega arith)

-- A write in front of `rest`
put_elem-onto :
    (last rest : List XrElem) (x v : XrElem) (i : ℕ)
    → i ≡ length last
    → put_elem (onto (x ∷ last) rest) i v ≡ done (onto last (v ∷ rest))
put_elem-onto last rest x v i e =
    let inside : ltb i (length (onto last (x ∷ rest))) ≡ true =
      let l = length-onto last (x ∷ rest) in ground arith in
    rw inside (ap done (set-onto last (x ∷ rest) i 0 v (omega arith)))

get_elem?-within :
    (behind last rest : List XrElem) (a : XrElem) (i : ℕ)
    → i ≡ length last
    → get_elem? (onto (behind ++ (a ∷ last)) rest) i ≡ some a
get_elem?-within [] last rest a i e = get_elem?-onto last (a ∷ rest) i 0 (omega arith)
get_elem?-within (x ∷ behind) last rest a i e = get_elem?-within behind last (x ∷ rest) a i e

copy_loop-copies :
    (bs j v_rest rest : List XrElem) (e q : ℕ)
    → length j ≡ length bs
    → q ≡ length bs
    → e ≡ length bs
    → copy_loop (onto bs v_rest) (onto j rest) e q ≡ done (onto bs rest)
unfolding copy_loop
copy_loop-copies [] [] v_rest rest e zero le lq l = refl
copy_loop-copies [] [] v_rest rest e (suc q) le lq l = absurd (omega arith)
copy_loop-copies [] (x ∷ j) v_rest rest e q le lq l = absurd (omega arith)
copy_loop-copies (b ∷ bs) [] v_rest rest e q le lq l = absurd (omega arith)
copy_loop-copies (b ∷ bs) (x ∷ j) v_rest rest e zero le lq l = absurd (omega arith)
copy_loop-copies (b ∷ bs) (x ∷ j) v_rest rest e (suc q) le lq l =
    rw
      (
        get_elem?-within [] bs v_rest b q (omega arith),
        put_elem-onto j rest x b (e - 1) (omega arith),
      )
      (copy_loop-copies bs j (b ∷ v_rest) (b ∷ rest) (e - 1) q (omega arith) (omega arith)
        (omega arith))

pub merge_vec_loop-merges :
    (n : ℕ) (a b : XrElem) (as_ bs j v_rest rest : List XrElem) (e p q : ℕ)
    → length j ≡ suc (length bs)
    → p ≡ suc (length as_)
    → q ≡ suc (length bs)
    → e ≡ p + q
    → e ≤ n
    → merge_vec_loop n (onto (b ∷ bs) v_rest) (onto (j ++ (a ∷ as_)) rest) e p q
      ≡ done (merge_last (a ∷ as_) (b ∷ bs) rest)
unfolding merge_vec_loop
merge_vec_loop-merges zero a b as_ bs j v_rest rest e p q lj lp lq le enough = absurd (omega arith)
merge_vec_loop-merges (suc n) a b as_ bs [] v_rest rest e p q lj lp lq le enough =
    absurd (omega arith)
merge_vec_loop-merges (suc n) a b as_ bs (x ∷ j) v_rest rest e p q lj lp lq le enough =
    let size = length-append j (a ∷ as_) in
    rw
      (
        get_elem?-within (x ∷ j) as_ rest a (p - 1) (omega arith),
        get_elem?-within [] bs v_rest b (q - 1) (omega arith),
        put_elem-onto (j ++ (a ∷ as_)) rest x a (e - 1) (omega arith),
        put_elem-onto (j ++ (a ∷ as_)) rest x b (e - 1) (omega arith),
      )
      (elim (Bool-cases (ecompar_gt a b)) [
        | inl gt ↦ rw gt (
            after_p as_ lp (λ a2 as2 l.
              ap
                (λ k. merge_vec_loop n (onto (b ∷ bs) v_rest) (onto k (a ∷ rest)) (e - 1) (p - 1) q)
                (sym (append_assoc j (a ∷ []) (a2 ∷ as2)))
              ∙ merge_vec_loop-merges n a2 b as2 bs (j ++ (a ∷ [])) v_rest (a ∷ rest) (e - 1)
                  (p - 1) q (omega (arith, length-append j (a ∷ []))) (omega (arith, ap length l))
                  lq (omega arith) (omega arith)))
        | inr le_ ↦ rw le_ (
            after_q bs j (omega arith) lq (λ b2 bs2 l.
              merge_vec_loop-merges n a b2 as_ bs2 j (b ∷ v_rest) (b ∷ rest) (e - 1) p (q - 1)
                (omega (arith, ap length l)) lp (omega (arith, ap length l)) (omega arith)
                (omega arith)))
      ])
  where
    after_p :
        (as_ : List XrElem)
        → p ≡ suc (length as_)
        → ((a2 : XrElem) (as2 : List XrElem)
            → as_ ≡ a2 ∷ as2
            → merge_vec_loop n
                (onto (b ∷ bs) v_rest)
                (onto (j ++ (a ∷ a2 ∷ as2)) (a ∷ rest))
                (e - 1)
                (p - 1)
                q
              ≡ done (merge_last (a2 ∷ as2) (b ∷ bs) (a ∷ rest)))
        → (if p == 1
            then copy_loop (onto (b ∷ bs) v_rest) (onto (j ++ (a ∷ as_)) (a ∷ rest)) (e - 1) q
            else merge_vec_loop n
                (onto (b ∷ bs) v_rest)
                (onto (j ++ (a ∷ as_)) (a ∷ rest))
                (e - 1)
                (p - 1)
                q)
          ≡ done (merge_last as_ (b ∷ bs) (a ∷ rest))
    after_p [] l again =
        let last : (p == 1) ≡ true = ground arith in
        rw last (
          copy_loop-copies (b ∷ bs) (j ++ (a ∷ [])) v_rest (a ∷ rest) (e - 1) q
            (omega (arith, length-append j (a ∷ []))) lq (omega arith))
    after_p (a2 ∷ as2) l again =
        let more : (p == 1) ≡ false = ground arith in rw more (again a2 as2 refl)

    after_q :
        (bs j : List XrElem)
        → length j ≡ length bs
        → q ≡ suc (length bs)
        → ((b2 : XrElem) (bs2 : List XrElem)
            → bs ≡ b2 ∷ bs2
            → merge_vec_loop n
                (onto (b2 ∷ bs2) (b ∷ v_rest))
                (onto (j ++ (a ∷ as_)) (b ∷ rest))
                (e - 1)
                p
                (q - 1)
              ≡ done (merge_last (a ∷ as_) (b2 ∷ bs2) (b ∷ rest)))
        → (if q == 1
            then (if e - 1 == p then done (onto (j ++ (a ∷ as_)) (b ∷ rest)) else fault)
            else merge_vec_loop n
                (onto bs (b ∷ v_rest))
                (onto (j ++ (a ∷ as_)) (b ∷ rest))
                (e - 1)
                p
                (q - 1))
          ≡ done (merge_last (a ∷ as_) bs (b ∷ rest))
    after_q [] [] lj' l again =
        let last : (q == 1) ≡ true = ground arith in
        let meet : (e - 1 == p) ≡ true = ground arith in rw (last, meet) refl
    after_q [] (y ∷ j) lj' l again = absurd (omega arith)
    after_q (b2 ∷ bs2) j lj' l again =
        let more : (q == 1) ≡ false = ground arith in rw more (again b2 bs2 refl)
