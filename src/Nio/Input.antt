-- ===== src/Nio/Input.antt =====
-- readn and recvn on a descriptor that delivers a sequence of bytes.
use mathlib.Core.List.{append_assoc}
use getassoc.Common.{
  ℕ, zero, suc, ◌+◌, ◌-◌, ◌≤◌, ◌<◌, ◌≡◌, ◌≢◌, refl, sym, ap, ◌∙◌, subst, false, Option, none, some,
  List, [], ◌∷◌, ◌++◌, arith, ◌==◌, if◌then◌else◌, length, take, drop, Run, done, Returns, returned,
  Returns-if, Returns-mono, append-nil,
}
use getassoc.Common.Cuts.{take-append, drop-append, take-nil, drop-nil}
use getassoc.Nio.{input_loop, readn}

-- `read` takes at most as many bytes as it may off those that are still to come, and none only at the end.
pub record IsInput {D : Type 0} (read : D → ℕ → Option (List ℕ) × D) (content : D → List ℕ)
    : Type 0 where
  pub takes :
      (d : D) (n : ℕ) (bytes : List ℕ)
      → (read d n).0 ≡ some bytes
      → (content d ≡ bytes ++ content (read d n).1) × (length bytes ≤ n)
  pub ends : (d : D) (n : ℕ) → n ≢ 0 → (read d n).0 ≡ some [] → content d ≡ []

module _ {D : Type 0} (read : D → ℕ → Option (List ℕ) × D) (content : D → List ℕ) where
  -- The first `n` bytes are read, or -1 is returned after a call that returned it.
  pub data Read (d : D) (n : ℕ) (buf : List ℕ) : Option (List ℕ) × D → Type 0 where
    all :
        {e : D}
        → content e ≡ drop n (content d)
        → Read d n buf (some (buf ++ take n (content d)), e)
    failed : {e : D} (d' : D) (k : ℕ) → read d' k ≡ (none, e) → Read d n buf (none, e)

  all_of :
      {d e : D} {n : ℕ} {buf : List ℕ} (b : List ℕ)
      → b ≡ buf ++ take n (content d)
      → content e ≡ drop n (content d)
      → Read d n buf (some b, e)
  all_of {d} {e} {n} {buf} b same rest = subst (λ x. Read d n buf (some x, e)) (sym same) (all rest)

  module _ (is : IsInput read content) (d : D) (n : ℕ) (buf : List ℕ) where
    -- A call that delivers bytes, and the calls behind it
    Read-behind :
        (bytes : List ℕ) (r : Option (List ℕ) × D)
        → (read d n).0 ≡ some bytes
        → Read (read d n).1 (n - length bytes) (buf ++ bytes) r
        → Read d n buf r
    Read-behind bytes r was (failed d' k e) = failed d' k e
    Read-behind bytes r was (all {e} left) =
        let (split, fits) = is.takes d n bytes was in
        let got : (buf ++ bytes) ++ take (n - length bytes) (content (read d n).1)
            ≡ buf ++ take n (content d) =
          append_assoc buf bytes _
          ∙ ap (◌++◌ buf)
              (sym (take-append n bytes (content (read d n).1) fits) ∙ ap (take n) (sym split)) in
        let rest : content e ≡ drop n (content d) =
          left ∙ sym (drop-append n bytes (content (read d n).1) fits) ∙ ap (drop n) (sym split) in
        rw got (all rest)

    Read-nothing : n ≢ 0 → (read d n).0 ≡ some [] → Read d n buf (some buf, (read d n).1)
    Read-nothing some_left was =
        let over = is.ends d n some_left was in
        let after : content (read d n).1 ≡ [] = sym (is.takes d n [] was).0 ∙ over in
        let got : buf ≡ buf ++ take n (content d) =
          sym (append-nil buf) ∙ ap (◌++◌ buf) (sym (take-nil n) ∙ ap (take n) (sym over)) in
        let rest : content (read d n).1 ≡ drop n (content d) =
          after ∙ sym (drop-nil n) ∙ ap (drop n) (sym over) in
        all_of buf got rest

    turn :
        (more : List ℕ → Run (Option (List ℕ) × D))
        → ((bytes : List ℕ)
            → 0 < length bytes
            → Returns (Read (read d n).1 (n - length bytes) (buf ++ bytes)) (more bytes))
        → n ≢ 0
        → (o : Option (List ℕ)) → (read d n).0 ≡ o
        → Returns (Read d n buf) (elim o [
          | none ↦ done (none, (read d n).1)
          | some bytes ↦ if length bytes == 0 then done (some buf, (read d n).1) else more bytes
        ])
    turn more again some_left none was = returned (failed d n (ap (λ o. (o, (read d n).1)) was))
    turn more again some_left (some []) was = returned (Read-nothing some_left was)
    turn more again some_left (some (c ∷ bytes)) was =
        let long : (suc (length bytes) == 0) ≡ false = ground arith in
        rw long
          (Returns-mono (λ r g. Read-behind (c ∷ bytes) r was g) (again (c ∷ bytes) (omega arith)))

  input_loop-Read :
      IsInput read content
      → (fuel : ℕ) (d : D) (n : ℕ) (buf : List ℕ) → n < fuel
      → Returns (Read d n buf) (input_loop read fuel d n buf)
  unfolding input_loop
  input_loop-Read is zero d n buf enough = absurd (omega arith)
  input_loop-Read is (suc fuel) d n buf enough =
      Returns-if (n == 0)
        (λ e.
          let none_left : n ≡ 0 = ground arith in
          rw none_left (returned (all_of buf (sym (append-nil buf)) refl)))
        (λ e.
          let some_left : 0 < n = ground arith in
          turn is d n buf _
            (λ bytes l.
              input_loop-Read is fuel (read d n).1 (n - length bytes) (buf ++ bytes) (omega arith))
            (ground arith) (read d n).0 refl)

  -- If each call of `read` takes at most the bytes it may off those to come, and none only at their end,
  -- then readn ends: it returns the first `n` of them, all if there are fewer, and leaves the others to
  -- come, or it returns -1 as its last call did.
  pub readn-Read : IsInput read content → (d : D) (n : ℕ) → Returns (Read d n []) (readn read d n)
  unfolding readn
  readn-Read is d n = input_loop-Read is (n + 1) d n [] (omega arith)
