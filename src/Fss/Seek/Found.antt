-- ===== src/Fss/Seek/Found.antt =====
-- seek_idx agrees with the search byte by byte, to which its assertions compare it.
use Prim.Native.Nat.{bit_and, bit_and-bitwise}
use native.Mathlib.Nat.{one-le-pow}
use getassoc.Common.{
  ℕ, zero, suc, ◌+◌, ◌-◌, ◌*◌, ◌/◌, ◌%◌, ◌^◌, ◌≤◌, ◌<◌, ◌≡◌, ◌≢◌, refl, sym, ap, ◌∙◌, Bool, true,
  false, not, ◌&&◌, ◌||◌, List, some, arith, length, get_elem?, ltb, ◌==◌, if◌then◌else◌, inl, inr,
  Bool-cases, lt-cases, Run, done, fault, ◌>>=◌,
}
use getassoc.Common.Arrays.{load, get_elem?-some}
use getassoc.Fss.Seek.{
  bytes_per_frame, hdrsz, less_one, back, previous_bit, next_frame, frame_loop, first_of, ended,
  skip_frames, seek_idx,
}

-- A byte of the text that is not NUL
abbrev pub IsText : List ℕ → ℕ → Type 0
IsText flwd x = (c : ℕ) × (get_elem? flwd x ≡ some c) × (c ≢ 0)

-- The loop stops at the first NUL below, or at its bound.
back-stops :
    (flwd : List ℕ) (p0 p m : ℕ)
    → p0 ≤ m
    → m ≤ p
    → (p0 < m → get_elem? flwd m ≡ some 0)
    → ((x : ℕ) → m < x → x ≤ p → IsText flwd x)
    → back flwd p0 p ≡ done m
unfolding back
back-stops flwd p0 zero m low high nul text = let e : m ≡ 0 = omega arith in rw e refl
back-stops flwd p0 (suc p) m low high nul text = elim (lt-cases m (suc p)) [
  | inl lt ↦
      let (c, at, some_c) = text (suc p) lt (omega arith) in
      let go : ltb p0 (suc p) ≡ true = ground arith in
      let more : (c == 0) ≡ false = ground arith in
      rw (go, at, more)
        (back-stops flwd p0 p m low (omega arith) nul (λ x l h. text x l (omega arith)))
  | inr ge ↦
      let here : m ≡ suc p = omega arith in
      elim (lt-cases p0 (suc p)) [
        | inl above ↦
            let go : ltb p0 (suc p) ≡ true = ground arith in
            rw (go, rw here at (nul (omega arith)), here) refl
        | inr bound ↦ let stop : ltb p0 (suc p) ≡ false = ground arith in rw (stop, here) refl
      ]
]

-- The bit of a frame in the bitmap
abbrev pub IsMarked : List ℕ → ℕ → Type 0
IsMarked bitmap f =
    (byte : ℕ) × (get_elem? bitmap (f / 8) ≡ some byte)
    × ((bit_and byte (2 ^ (f % 8)) == 0) ≡ false)

abbrev pub IsClear : List ℕ → ℕ → Type 0
IsClear bitmap f =
    (byte : ℕ) × (get_elem? bitmap (f / 8) ≡ some byte) × ((bit_and byte (2 ^ (f % 8)) == 0) ≡ true)

previous_bit-frame :
    (f : ℕ)
    → 0 < f
    → f < 0x10000000000000000
    → previous_bit (f / 8) (2 ^ (f % 8)) ≡ ((f - 1) / 8, 2 ^ ((f - 1) % 8))
unfolding previous_bit
previous_bit-frame f some_f small = ends (f % 8) refl
  where
    ends :
        (k : ℕ) → f % 8 ≡ k → previous_bit (f / 8) (2 ^ (f % 8)) ≡ ((f - 1) / 8, 2 ^ ((f - 1) % 8))
    ends zero e =
        let idx : less_one (f / 8) ≡ (f - 1) / 8 = omega arith in
        let bit : (f - 1) % 8 ≡ 7 = omega arith in rw (e, idx, bit) refl
    ends (suc k) e =
        let idx : f / 8 ≡ (f - 1) / 8 = omega arith in
        let bit : (f - 1) % 8 ≡ k = omega arith in
        let halved : 2 ^ suc k / 2 ≡ 2 ^ k = omega arith in
        let positive : 0 < 2 ^ k = one-le-pow k 2 (omega arith) in
        let some_bit : (2 ^ k == 0) ≡ false = ground arith in
        rw (e, halved, some_bit, bit, idx) refl

-- The assertion of the loop
asserted : (f : ℕ) → (not ((f / 8 == 0) && (2 ^ (f % 8) == 1)) || (f == 0)) ≡ true
asserted f = ends (f % 8) refl
  where
    ends : (k : ℕ) → f % 8 ≡ k → (not ((f / 8 == 0) && (2 ^ (f % 8) == 1)) || (f == 0)) ≡ true
    ends zero e = elim (Bool-cases (f == 0)) [
      | inl first ↦ let is : f ≡ 0 = ground arith in rw is refl
      | inr later ↦ let above : (f / 8 == 0) ≡ false = ground arith in rw above refl
    ]
    ends (suc k) e =
        let positive : 0 < 2 ^ k = one-le-pow k 2 (omega arith) in
        let two : (2 ^ suc k == 1) ≡ false = ground arith in
        elim (Bool-cases (f / 8 == 0)) [ inl low ↦ rw (low, e, two) refl | inr high ↦ rw high refl ]

zero-bit_and : (b : ℕ) → bit_and 0 b ≡ 0
zero-bit_and b = bit_and-bitwise 0 b

-- A byte of the bitmap that is 0 marks none of its frames.
empty_byte :
    (bitmap : List ℕ) (f g : ℕ)
    → get_elem? bitmap (f / 8) ≡ some 0
    → IsMarked bitmap g
    → g ≤ f
    → g / 8 < f / 8
empty_byte bitmap f g at (byte, at', marked) le = elim (lt-cases (g / 8) (f / 8)) [
  | inl lt ↦ lt
  | inr ge ↦
      let same : g / 8 ≡ f / 8 = omega arith in
      let both : some byte ≡ some 0 = sym at' ∙ ap (get_elem? bitmap) same ∙ at in
      let zero_byte : byte ≡ 0 = cc in
      let clear : (bit_and byte (2 ^ (g % 8)) == 0) ≡ true =
        rw (zero_byte, zero-bit_and (2 ^ (g % 8))) refl in
      let wrong : true ≡ false = sym clear ∙ marked in cc
]

-- The frame before the byte of a frame
abbrev byte_before : ℕ → ℕ
byte_before f = f / 8 * 8 - 1

next_frame-empty :
    (f mask : ℕ)
    → 0 < f / 8
    → f < 0x10000000000000000
    → next_frame 0 f (f / 8) mask ≡ (byte_before f, byte_before f / 8, 2 ^ (byte_before f % 8))
unfolding next_frame
next_frame-empty f mask above small =
    let idx : less_one (f / 8) ≡ byte_before f / 8 = omega arith in
    let place : (byte_before f / 8 + 1) * 8 - 1 ≡ byte_before f = omega arith in
    let bit : byte_before f % 8 ≡ 7 = omega arith in rw (idx, place, bit) refl

next_frame-other :
    (byte f : ℕ)
    → (byte == 0) ≡ false
    → 0 < f
    → f < 0x10000000000000000
    → next_frame byte f (f / 8) (2 ^ (f % 8)) ≡ (f - 1, (f - 1) / 8, 2 ^ ((f - 1) % 8))
unfolding next_frame
next_frame-other byte f some_bits some_f small =
    rw (some_bits, previous_bit-frame f some_f small) refl

frame_loop-finds :
    (flwd bitmap : List ℕ) (n f g : ℕ)
    → g ≤ f
    → f < n
    → f < 0x10000000000000000
    → IsMarked bitmap g
    → ((x : ℕ) → g < x → x ≤ f → IsClear bitmap x)
    → frame_loop flwd bitmap n f (f / 8) (2 ^ (f % 8)) ≡ done (g, g / 8, 2 ^ (g % 8))
unfolding frame_loop
frame_loop-finds flwd bitmap zero f g le enough small marked clear = absurd (omega arith)
frame_loop-finds flwd bitmap (suc n) f g le enough small (mbyte, mat, mbit) clear =
    elim (Bool-cases (f == 0)) [
      | inl first ↦
          let same : f ≡ g = ground arith in rw first (ap (λ x. done (x, x / 8, 2 ^ (x % 8))) same)
      | inr later ↦ elim (lt-cases g f) [
        | inr ge ↦ let same : f ≡ g = omega arith in rw (later, same, mat, mbit) refl
        | inl lt ↦
            let (byte, at, bit) = clear f lt (omega arith) in
            elim (Bool-cases (byte == 0)) [
              | inr some_bits ↦
                  rw
                    (
                      later,
                      at,
                      bit,
                      next_frame-other byte f some_bits (omega arith) small,
                      asserted (f - 1),
                    )
                    (frame_loop-finds flwd bitmap n (f - 1) g (omega arith) (omega arith)
                      (omega arith) (mbyte, mat, mbit) (λ x l h. clear x l (omega arith)))
              | inl no_bits ↦
                  let is : byte ≡ 0 = ground arith in
                  let under = empty_byte bitmap f g (at ∙ ap some is) (mbyte, mat, mbit) le in
                  rw
                    (
                      later,
                      at,
                      bit,
                      is,
                      next_frame-empty f (2 ^ (f % 8)) (omega arith) small,
                      asserted (byte_before f),
                    )
                    (frame_loop-finds flwd bitmap n (byte_before f) g (omega arith) (omega arith)
                      (omega arith) (mbyte, mat, mbit) (λ x l h. clear x l (omega arith)))
            ]
      ]
    ]

-- Where the marker of the section of `p` is, and what the bitmap says of the frames up to it
pub record IsSection (flwd bitmap : List ℕ) (p m : ℕ) : Type 0 where
  pub behind_header : hdrsz ≤ m
  pub before : m ≤ p
  pub nul : get_elem? flwd m ≡ some 0
  pub text : (x : ℕ) → m < x → x ≤ p → IsText flwd x
  pub marked : IsMarked bitmap (m / bytes_per_frame)
  pub clear : (f : ℕ) → m / bytes_per_frame < f → f < p / bytes_per_frame → IsClear bitmap f
  pub mapped : p / bytes_per_frame / 8 < length bitmap
  pub small : p < 0x1000000000000000

module _ (flwd bitmap : List ℕ) (p m : ℕ) (s : IsSection flwd bitmap p m) where
  abbrev found : Run (ℕ × ℕ)
  found = done (m - hdrsz, less_one (p - m))

  wraps : (p + 0x10000000000000000 - (m + 1)) % 0x10000000000000000 ≡ less_one (p - m)
  wraps = let low = s.before in let small = s.small in omega arith

  ended-found : ended (m - hdrsz) p m ≡ found
  ended-found =
      let same : (m - hdrsz == m - hdrsz) ≡ true = ground arith in
      rw same (ap (λ d. done (m - hdrsz, d)) wraps)

  -- A search in the frame of the marker, from a place behind it
  in_frame :
      (q : ℕ) (other : Run (ℕ × ℕ))
      → m ≤ q
      → q ≤ p
      → q / bytes_per_frame ≡ m / bytes_per_frame
      → (back flwd (first_of (m / bytes_per_frame)) q >>= λ r.
          if ltb (first_of (m / bytes_per_frame)) r then ended (m - hdrsz) p r else other)
        ≡ found
  in_frame q other low high same =
      let b = s.behind_header in
      let bound : first_of (m / bytes_per_frame) < m = ground arith in
      let inside : ltb (first_of (m / bytes_per_frame)) m ≡ true = ground arith in
      rw
        (
          back-stops flwd (first_of (m / bytes_per_frame)) q m (omega arith) low (λ h. s.nul)
              (λ x l h. s.text x l (omega arith)),
          inside,
        )
        ended-found

  skip_frames-found :
      m / bytes_per_frame < p / bytes_per_frame
      → skip_frames flwd bitmap
          (m - hdrsz)
          p
          (p / bytes_per_frame)
          (p / bytes_per_frame / 8)
          (2 ^ (p / bytes_per_frame % 8))
        ≡ found
  unfolding skip_frames
  skip_frames-found lt =
      let small = s.small in
      let loop =
        frame_loop-finds flwd bitmap (p / bytes_per_frame) (p / bytes_per_frame - 1)
          (m / bytes_per_frame) (omega arith) (omega arith) (omega arith) s.marked
          (λ x l h. s.clear x l (omega arith)) in
      let rest =
        in_frame ((m / bytes_per_frame + 1) * bytes_per_frame - 1) fault (omega arith) (omega arith)
          (omega arith) in
      rw (previous_bit-frame (p / bytes_per_frame) (omega arith) (omega arith), loop)
        (checked (m / bytes_per_frame) _ rest s.marked)
    where
      checked :
          (g : ℕ) (rest : Run (ℕ × ℕ))
          → rest ≡ found
          → IsMarked bitmap g
          → (if not (g == 0)
              then rest
              else if (g / 8 == 0) && (2 ^ (g % 8) == 1)
              then (load bitmap (g / 8) >>= λ byte.
                  if bit_and byte (2 ^ (g % 8)) == 0 then fault else rest)
              else fault)
            ≡ found
      checked g rest e (byte, at, bit) = elim (Bool-cases (g == 0)) [
        | inr later ↦ rw later e
        | inl first ↦
            let low : (g / 8 == 0) ≡ true = ground arith in
            let place : g % 8 ≡ 0 = ground arith in
            let bit' : (bit_and byte 1 == 0) ≡ false = rw place at bit in
            rw (first, low, place, at, bit') e
      ]

  other_frame :
      (p / bytes_per_frame == 0) ≡ false
      → m / bytes_per_frame < p / bytes_per_frame
      → (back flwd (first_of (p / bytes_per_frame)) p >>= λ r.
          if ltb (first_of (p / bytes_per_frame)) r
          then ended (m - hdrsz) p r
          else if p / bytes_per_frame == 0
          then fault
          else skip_frames flwd bitmap
              (m - hdrsz)
              p
              (p / bytes_per_frame)
              (p / bytes_per_frame / 8)
              (2 ^ (p / bytes_per_frame % 8)))
        ≡ found
  other_frame later lt =
      let bound : first_of (p / bytes_per_frame) ≡ p / bytes_per_frame * bytes_per_frame - 1 =
        rw later refl in
      let stopped : ltb (p / bytes_per_frame * bytes_per_frame - 1)
            (p / bytes_per_frame * bytes_per_frame - 1)
          ≡ false =
        ground arith in
      rw
        (
          bound,
          back-stops flwd (p / bytes_per_frame * bytes_per_frame - 1) p
              (p / bytes_per_frame * bytes_per_frame - 1) (omega arith) (omega arith)
              (λ h. absurd (omega arith)) (λ x l h. s.text x (omega arith) h),
          stopped,
          later,
        )
        (skip_frames-found lt)

  -- A position below 2^60 in a section whose marker has a header before it, and up to the position only text
  -- behind it; the bitmap has a bit for the position's frame, and marks the marker's frame and none between
  -- the two. Then seek_idx ends without a failed assertion, a read outside or an abort, and returns the place
  -- of the header in front of the marker, and the position's distance from the marker less one, as a 64-bit
  -- number: the number of bytes between the two, and 2^64 - 1 at the marker itself.
  pub seek_idx-found : seek_idx flwd bitmap p ≡ done (m - hdrsz, less_one (p - m))
  unfolding seek_idx
  seek_idx-found =
      let b = s.behind_header in
      let reference = back-stops flwd hdrsz p m b s.before (λ h. s.nul) s.text in
      let low = s.before in
      elim (lt-cases (m / bytes_per_frame) (p / bytes_per_frame)) [
        | inr ge ↦
            let same : p / bytes_per_frame ≡ m / bytes_per_frame = omega arith in
            let (byte, at, bit) = s.marked in
            rw (reference, same, at, bit)
              (either (m / bytes_per_frame == 0) _ (in_frame p _ low (omega arith) same))
        | inl lt ↦
            let (byte, there) = get_elem?-some bitmap (p / bytes_per_frame / 8) s.mapped in
            let later : (p / bytes_per_frame == 0) ≡ false = ground arith in
            rw (reference, later, there)
              (choose (bit_and byte (2 ^ (p / bytes_per_frame % 8)) == 0) _ _ (skip_frames-found lt)
                (rw later at (other_frame later lt)))
      ]
    where
      either : (c : Bool) (r : Run (ℕ × ℕ)) → r ≡ found → (if c then r else r) ≡ found
      either true r e = e
      either false r e = e

      choose : (c : Bool) (r q : Run (ℕ × ℕ)) → r ≡ found → q ≡ found → (if c then r else q) ≡ found
      choose true r q e f = e
      choose false r q e f = f
