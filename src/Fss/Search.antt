-- ===== src/Fss/Search.antt =====
-- fss.c: x_simple_query, which looks a pattern up in the suffix arrays of the fragments. A text is a list
-- of bytes, and its numbers of 32 bits have the low byte first.
pub mod Found
mod Samples
use Prim.Native.Nat.{bit_and}
use getassoc.Common.{
  ℕ, zero, suc, ◌+◌, ◌-◌, ◌*◌, ◌^◌, Ordering, Bool, true, false, not, Option, none, some, List, [],
  ◌∷◌, ◌++◌, drop, ltb, ◌==◌, if◌then◌else◌, length, Run, done, fault, ◌>>=◌,
}
use getassoc.Common.Arrays.{load}
use getassoc.Brsearch.{brsearch}
use getassoc.Fss.{Art, SimpleQuery}
use getassoc.Fss.Seek.{seek_idx}

-- `struct fss_frag` with what it points to: `header->xsc_options`, the `header->nentries` elements of
-- `idx.p`, and the two maps
pub record Frag : Type 0 where
  pub xsc_options : ℕ
  pub idx : List ℕ
  pub flwd : List ℕ
  pub bitmap : List ℕ

-- POPTIONS_MASK
abbrev pub poptions_mask : ℕ
poptions_mask = 7

-- A number of 32 bits at a place of the text
unfoldable pub word : List ℕ → ℕ → Run ℕ
word flwd p = load flwd p >>= λ a. load flwd (p + 1) >>= λ b. load flwd (p + 2) >>= λ c.
    load flwd (p + 3) >>= λ d. done (a + 0x100 * b + 0x10000 * c + 0x1000000 * d)

-- CHKSEG, whose shift is defined below 32
unfoldable pub chkseg : ℕ → ℕ → Run Bool
chkseg segid segments =
    if ltb segid 32 then done (not (bit_and (2 ^ segid) segments == 0)) else fault

abbrev pub is_zero : Ordering → Bool
is_zero Ordering.lt = false
is_zero Ordering.eq = true
is_zero Ordering.gt = false

-- xstrncmp compares the pattern with the bytes at a place of the text, up to a length and with options.
module _ (xstrncmp : List ℕ → List ℕ → ℕ → ℕ → Ordering) where
  -- The key is the pattern, `flwd_ptr` and the options.
  unfoldable pub xcompar : List ℕ × List ℕ × ℕ → ℕ → Ordering
  xcompar key p = xstrncmp key.0 (drop p key.1) (length key.0) key.2

  -- The test of the loop, and what is appended
  unfoldable pub entry_at : SimpleQuery → Frag → ℕ → List Art → Run (List Art)
  entry_at query fp p arts = seek_idx fp.flwd fp.bitmap p >>= λ i. word fp.flwd i.0 >>= λ id.
      word fp.flwd (i.0 + 4) >>= λ segid.
      let a : Art = record { id = id; segid = segid; disp = i.1 } in
      let matches =
        is_zero (xstrncmp query.pattern (drop p fp.flwd) (length query.pattern) query.options) in
      if id == 0
      then done arts
      else (chkseg segid query.segments >>= λ there.
          if there then (if matches then done (arts ++ a ∷ []) else done arts) else done arts)

  -- The loop on `right - left` elements from `j` on
  unfoldable pub x_simple_query_fragment : SimpleQuery → Frag → ℕ → ℕ → List Art → Run (List Art)
  x_simple_query_fragment query fp zero j arts = done arts
  x_simple_query_fragment query fp (suc n) j arts = load fp.idx j >>= λ p.
      entry_at query fp p arts >>= λ more. x_simple_query_fragment query fp n (j + 1) more

  -- The loop over the fragments; `header` is the fragment's options, without those of POPTIONS_MASK.
  unfoldable pub fragments_loop : SimpleQuery → List Frag → List Art → Run (List Art)
  fragments_loop query [] arts = done arts
  fragments_loop query (fp ∷ fragments) arts =
      let header = fp.xsc_options - bit_and fp.xsc_options poptions_mask in
      brsearch xcompar (query.pattern, fp.flwd, header) fp.idx >>= λ r.
      (if r.0 then x_simple_query_fragment query fp (r.2 - r.1) r.1 arts else done arts) >>= λ more.
      fragments_loop query fragments more

  -- `arts` is NULL as long as nothing was appended to it. `qsort` is qsort with acompar.
  unfoldable pub x_simple_query :
      (List Art → List Art) → List Frag → SimpleQuery → Run (Option (Option (List Art)))
  x_simple_query qsort fragments query = fragments_loop query fragments [] >>= λ arts.
      done (some (elim arts [ [] ↦ none | ◌∷◌ a rest ↦ some (qsort (a ∷ rest)) ]))
