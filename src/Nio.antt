-- ===== src/Nio.antt =====
-- nio.c: reads and writes that go on until all is done. The calls `read`, `recv`, `write` and `send` are
-- parameters on the state of a descriptor; `none` is -1.
pub mod Input
pub mod Output
mod Samples
use getassoc.Common.{
  ℕ, zero, suc, ◌+◌, ◌-◌, Option, none, some, List, [], ◌∷◌, ◌++◌, ◌==◌, if◌then◌else◌, length,
  drop, Run, done, out_of_fuel, ◌>>=◌,
}

module _ {D : Type 0} where
  -- The loop of readn and recvn: what has been put in the buffer, whose length is `total`
  unfoldable pub input_loop :
      (D → ℕ → Option (List ℕ) × D) → ℕ → D → ℕ → List ℕ → Run (Option (List ℕ) × D)
  input_loop read zero d nbytes buf = out_of_fuel
  input_loop read (suc n) d nbytes buf =
      let r = read d nbytes in
      let more : List ℕ → Run (Option (List ℕ) × D) =
        λ bytes. input_loop read n r.1 (nbytes - length bytes) (buf ++ bytes) in
      if nbytes == 0 then done (some buf, d) else elim r.0 [
        | none ↦ done (none, r.1)
        | some bytes ↦ if length bytes == 0 then done (some buf, r.1) else more bytes
      ]

  unfoldable pub readn : (D → ℕ → Option (List ℕ) × D) → D → ℕ → Run (Option (List ℕ) × D)
  readn read d nbytes = input_loop read (nbytes + 1) d nbytes []

  unfoldable pub recvn : (D → ℕ → ℕ → Option (List ℕ) × D) → D → ℕ → ℕ → Run (Option (List ℕ) × D)
  recvn recv d nbytes flags = input_loop (λ d n. recv d n flags) (nbytes + 1) d nbytes []

  -- The loop of writen and sendn on the bytes that are left; `nbytes` is their number.
  unfoldable pub output_loop : (D → List ℕ → Option ℕ × D) → ℕ → D → List ℕ → ℕ → Run (Option ℕ × D)
  output_loop write zero d buf total = out_of_fuel
  output_loop write (suc n) d buf total =
      let r = write d buf in
      let more : ℕ → Run (Option ℕ × D) =
        λ size. output_loop write n r.1 (drop size buf) (total + size) in
      if length buf == 0 then done (some total, d) else elim r.0 [
        | none ↦ done (none, r.1)
        | some size ↦ if size == 0 then done (some total, r.1) else more size
      ]

  unfoldable pub writen : (D → List ℕ → Option ℕ × D) → D → List ℕ → Run (Option ℕ × D)
  writen write d buf = output_loop write (length buf + 1) d buf 0

  unfoldable pub sendn : (D → List ℕ → ℕ → Option ℕ × D) → D → List ℕ → ℕ → Run (Option ℕ × D)
  sendn send d buf flags = output_loop (λ d bs. send d bs flags) (length buf + 1) d buf 0
