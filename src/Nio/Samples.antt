-- ===== src/Nio/Samples.antt =====
-- Runs and examples for nio.c: descriptors that move one byte a call.
use getassoc.Common.{
  ℕ, zero, suc, ◌≤◌, ◌≡◌, ◌≢◌, refl, sym, Option, some, List, [], ◌∷◌, ◌++◌, arith, length, done,
  Returns, append-nil,
}
use getassoc.Nio.{input_loop, readn, recvn, output_loop, writen, sendn}
use getassoc.Nio.Input.{IsInput, Read, readn-Read}
use getassoc.Nio.Output.{IsOutput, Sent, writen-Sent}

abbrev read_one : List ℕ → ℕ → Option (List ℕ) × List ℕ
read_one [] n = (some [], [])
read_one (c ∷ d) zero = (some [], c ∷ d)
read_one (c ∷ d) (suc n) = (some (c ∷ []), d)

abbrev write_one : List ℕ → List ℕ → Option ℕ × List ℕ
write_one d [] = (some 0, d)
write_one d (c ∷ buf) = (some 1, d ++ (c ∷ []))

abbrev itself : List ℕ → List ℕ
itself d = d

-- The end of the input comes before the last byte that was asked for.
short : recvn (λ d n flags. read_one d n) (5 ∷ 6 ∷ []) 3 0 ≡ done (some (5 ∷ 6 ∷ []), [])
unfolding recvn input_loop
short = refl

all_sent : sendn (λ d bs flags. write_one d bs) [] (5 ∷ 6 ∷ []) 0 ≡ done (some 2, 5 ∷ 6 ∷ [])
unfolding sendn output_loop
all_sent = refl

read_one-IsInput : IsInput read_one itself
read_one-IsInput = record { takes = takes; ends = ends }
  where
    takes :
        (d : List ℕ) (n : ℕ) (bytes : List ℕ)
        → (read_one d n).0 ≡ some bytes
        → (d ≡ bytes ++ (read_one d n).1) × (length bytes ≤ n)
    takes [] n bytes e = let same : [] ≡ bytes = cc in rw⁻¹ same (refl, omega arith)
    takes (c ∷ d) zero bytes e = let same : [] ≡ bytes = cc in rw⁻¹ same (refl, omega arith)
    takes (c ∷ d) (suc n) bytes e = let same : c ∷ [] ≡ bytes = cc in rw⁻¹ same (refl, omega arith)

    ends : (d : List ℕ) (n : ℕ) → n ≢ 0 → (read_one d n).0 ≡ some [] → d ≡ []
    ends [] n some_left e = refl
    ends (c ∷ d) zero some_left e = absurd (some_left refl)
    ends (c ∷ d) (suc n) some_left e = cc

write_one-IsOutput : IsOutput write_one itself
write_one-IsOutput d [] size e =
    let same : 0 ≡ size = cc in rw⁻¹ same (sym (append-nil d), omega arith)
write_one-IsOutput d (c ∷ buf) size e = let same : 1 ≡ size = cc in rw⁻¹ same (refl, omega arith)

readn-Read_example :
    Returns (Read read_one itself (5 ∷ 6 ∷ 7 ∷ []) 2 []) (readn read_one (5 ∷ 6 ∷ 7 ∷ []) 2)
readn-Read_example = readn-Read read_one itself read_one-IsInput (5 ∷ 6 ∷ 7 ∷ []) 2

writen-Sent_example :
    Returns (Sent write_one itself [] (5 ∷ 6 ∷ []) 0) (writen write_one [] (5 ∷ 6 ∷ []))
writen-Sent_example = writen-Sent write_one itself write_one-IsOutput [] (5 ∷ 6 ∷ [])
