-- ===== src/Fss/Seek.antt =====
-- fss.c: seek_idx, which finds the header of the section that a position of the text lies in, by a bitmap
-- of the frames of 64 bytes in which a section starts. The build has DBG, so its assertions are there.
pub mod Found
mod Samples
use Prim.Native.Nat.{bit_and}
use getassoc.Common.{
  ℕ, zero, suc, ◌+◌, ◌-◌, ◌*◌, ◌/◌, ◌%◌, ◌^◌, Bool, true, false, not, ◌&&◌, ◌||◌, List, ltb, ◌==◌,
  if◌then◌else◌, Run, done, fault, out_of_fuel, ◌>>=◌,
}
use getassoc.Common.Arrays.{load}

abbrev pub bytes_per_frame : ℕ
bytes_per_frame = 64

-- HDRSZ, the size of `struct flwd_idx`
abbrev pub hdrsz : ℕ
hdrsz = 8

-- A `size_t`, less one
abbrev pub less_one : ℕ → ℕ
less_one n = (n + 0xffffffffffffffff) % 0x10000000000000000

-- The loops `for (; p > p0 && f->flwd.ptr[p]; p--) ;`
unfoldable pub back : List ℕ → ℕ → ℕ → Run ℕ
back flwd p0 zero = done zero
back flwd p0 (suc p) =
    let on = back flwd p0 p in
    if ltb p0 (suc p)
    then (load flwd (suc p) >>= λ c. if c == 0 then done (suc p) else on)
    else done (suc p)

-- The place of the bit before: the byte of the bitmap, and the mask, which is a byte
unfoldable pub previous_bit : ℕ → ℕ → ℕ × ℕ
previous_bit idx mask =
    if◌then◌else◌ {A = ℕ × ℕ} (mask / 2 == 0) (less_one idx, 0x80) (idx, mask / 2)

-- The frame that the loop goes on with, and the place of its bit; `byte` is the bitmap's
unfoldable pub next_frame : ℕ → ℕ → ℕ → ℕ → ℕ × ℕ × ℕ
next_frame byte frame idx mask =
    if◌then◌else◌ {A = ℕ × ℕ × ℕ} (byte == 0) ((less_one idx + 1) * 8 - 1, less_one idx, 0x80)
      (frame - 1, (previous_bit idx mask).0, (previous_bit idx mask).1)

-- Where the search in a frame ends without a marker
abbrev pub first_of : ℕ → ℕ
first_of frame = if frame == 0 then hdrsz - 1 else frame * bytes_per_frame - 1

-- What is returned for the marker at `p`: where the header is, and `*dispp`, which is a `size_t` and wraps
-- where `p1` is the marker itself
abbrev pub ended : ℕ → ℕ → ℕ → Run (ℕ × ℕ)
ended o p1 p =
    if p - hdrsz == o
    then done (p - hdrsz, (p1 + 0x10000000000000000 - (p + 1)) % 0x10000000000000000)
    else fault

module _ (flwd bitmap : List ℕ) where
  -- The loop over the frames: the frame and the place of its bit where it ends
  unfoldable pub frame_loop : ℕ → ℕ → ℕ → ℕ → Run (ℕ × ℕ × ℕ)
  frame_loop zero frame idx mask = out_of_fuel
  frame_loop (suc n) frame idx mask =
      let go : ℕ × ℕ × ℕ → Run (ℕ × ℕ × ℕ) = λ s.
        let on = frame_loop n s.0 s.1 s.2 in
        if not ((s.1 == 0) && (s.2 == 1)) || (s.0 == 0) then on else fault in
      if frame == 0
      then done (frame, idx, mask)
      else (load bitmap idx >>= λ byte.
          if not (bit_and byte mask == 0)
          then done (frame, idx, mask)
          else go (next_frame byte frame idx mask))

  -- From the frame before `frame` on; `mask` is its own bit. No marker is an abort.
  unfoldable pub skip_frames : ℕ → ℕ → ℕ → ℕ → ℕ → Run (ℕ × ℕ)
  skip_frames o p1 frame idx mask =
      let under = previous_bit idx mask in
      frame_loop frame (frame - 1) under.0 under.1 >>= λ s.
      let bit_of_first : Run (ℕ × ℕ) → Run (ℕ × ℕ) = λ rest.
        if not (s.0 == 0)
        then rest
        else if (s.1 == 0) && (s.2 == 1)
        then (load bitmap s.1 >>= λ byte. if bit_and byte s.2 == 0 then fault else rest)
        else fault in
      bit_of_first (
        back flwd (first_of s.0) ((s.0 + 1) * bytes_per_frame - 1) >>= λ p.
        if ltb (first_of s.0) p then ended o p1 p else fault)

  unfoldable pub seek_idx : ℕ → Run (ℕ × ℕ)
  seek_idx p =
      let frame = p / bytes_per_frame in
      let idx = frame / 8 in
      let mask = 2 ^ (frame % 8) in
      back flwd hdrsz p >>= λ q.
      let o = q - hdrsz in
      let other = skip_frames o p frame idx mask in
      let here : Run (ℕ × ℕ) =
        (back flwd (first_of frame) p >>= λ r.
        if ltb (first_of frame) r then ended o p r else if frame == 0 then fault else other) in
      if frame == 0
      then here
      else (load bitmap idx >>= λ byte. if bit_and byte mask == 0 then other else here)
