-- ===== src/Fss/Seek/Samples.antt =====
-- Runs of seek_idx, and its theorem at a position two frames behind the marker of its section.
use getassoc.Common.{
  ℕ, zero, suc, ◌-◌, ◌<◌, ◌≤◌, ◌≡◌, refl, some, List, [], ◌∷◌, arith, get_elem?, done,
}
use getassoc.Fss.Seek.{less_one, back, previous_bit, next_frame, frame_loop, skip_frames, seek_idx}
use getassoc.Fss.Seek.Found.{IsText, seek_idx-found}

abbrev letters : ℕ → List ℕ
letters zero = []
letters (suc n) = 97 ∷ letters n

get_elem?-letters : (n x : ℕ) → x < n → get_elem? (letters n) x ≡ some 97
get_elem?-letters zero x h = absurd (omega arith)
get_elem?-letters (suc n) zero h = refl
get_elem?-letters (suc n) (suc x) h = get_elem?-letters n x (omega arith)

-- A header, a marker and 200 letters
abbrev text : List ℕ
text = 1 ∷ 0 ∷ 0 ∷ 0 ∷ 0 ∷ 0 ∷ 0 ∷ 0 ∷ 0 ∷ letters 200

text-IsText : (x : ℕ) → 8 < x → x ≤ 150 → IsText text x
text-IsText x low high =
    let e : x ≡ suc (suc (suc (suc (suc (suc (suc (suc (suc (x - 9))))))))) = omega arith in
    (97, rw e (get_elem?-letters 200 (x - 9) (omega arith)), omega arith)

found_two_frames_back : seek_idx text (1 ∷ []) 150 ≡ done (0, 141)
unfolding seek_idx back skip_frames frame_loop next_frame previous_bit
found_two_frames_back = refl

-- At the marker `*dispp` wraps.
at_the_marker : seek_idx text (1 ∷ []) 8 ≡ done (0, 0xffffffffffffffff)
unfolding seek_idx back skip_frames frame_loop next_frame previous_bit
at_the_marker = refl

seek_idx-found_example : seek_idx text (1 ∷ []) 150 ≡ done (8 - 8, less_one (150 - 8))
seek_idx-found_example = seek_idx-found text (1 ∷ []) 150 8 (record {
  behind_header = omega arith;
  before = omega arith;
  nul = refl;
  text = text-IsText;
  marked = (1, refl, refl);
  clear = λ f l h. let e : f ≡ 1 = omega arith in rw e (1, refl, refl);
  mapped = omega arith;
  small = omega arith;
})
