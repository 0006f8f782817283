-- ===== src/Nht/Walk.antt =====
-- nht_rewind and nht_seq: one walk through the table.
use getassoc.Common.{
  ℕ, zero, suc, ◌+◌, ◌≤◌, ◌<◌, ◌≡◌, ◌⊎◌, refl, sym, ap, ◌∙◌, Option, none, some, List, [], ◌∷◌,
  arith, inl, inr, length, map, get_elem?, drop, done,
}
use getassoc.Common.Cuts.{drop-add}
use getassoc.Sutil.{equal}
use getassoc.Sutil.Trim.{equal_refl, equal_sound}
use getassoc.Nht.{
  Hte, Cell, empty, dirty1, held, moving, Nht, seq_loop, nht_seq, nht_rewind, nht_retrieve,
}
use getassoc.Nht.Extend.State.{entry_at}
use getassoc.Nht.Extend.Fresh.{Answer, absent, present, IsFresh, nht_retrieve-Answer}
use getassoc.Nht.Entries.{entries, entries-entry, entry-entries, length-entries, IsDistinct-entries}

-- The answers up to the first NULL
abbrev pub collect : Option (List ℕ) → List (List ℕ) → List (List ℕ)
collect none rest = []
collect (some payload) rest = payload ∷ rest

-- The answers of at most `n` calls of nht_seq, up to the first NULL
unfoldable pub walk : ℕ → Nht → List (List ℕ)
walk zero h = []
walk (suc n) h = let rest = walk n (nht_seq h).1 in collect (nht_seq h).0 rest

-- A call stops behind the first entry.
data Stepped (ix : List Cell) (s : ℕ) : List Hte → Option (List ℕ) × ℕ → Type 0 where
  at_end : {t : ℕ} → Stepped ix s [] (none, t)
  at_entry :
      {vv : Hte} {es : List Hte} {e : ℕ}
      → (t : ℕ) → e ≡ s + suc t
      → es ≡ entries (drop (suc t) ix)
      → Stepped ix s (vv ∷ es) (some vv.payload, e)

skip :
    (c : Cell) (ix : List Cell) (s : ℕ) {es : List Hte} {r : Option (List ℕ) × ℕ}
    → Stepped ix (s + 1) es r
    → Stepped (c ∷ ix) s es r
skip c ix s at_end = at_end
skip c ix s (at_entry t e left) = at_entry (suc t) (omega arith) left

seq_loop-Stepped : (ix : List Cell) (s : ℕ) → Stepped ix s (entries ix) (seq_loop ix s)
unfolding seq_loop
seq_loop-Stepped [] s = at_end
seq_loop-Stepped (empty ∷ ix) s = skip empty ix s (seq_loop-Stepped ix (s + 1))
seq_loop-Stepped (dirty1 ∷ ix) s = skip dirty1 ix s (seq_loop-Stepped ix (s + 1))
seq_loop-Stepped (held vv ∷ ix) s = at_entry 0 refl refl
seq_loop-Stepped (moving vv ∷ ix) s = at_entry 0 refl refl

-- What is left of the walk
abbrev left : Nht → List Hte
left h = entries (drop h.seq_ptr h.ix)

nht_seq-cases :
    (h : Nht)
    → ((left h ≡ []) × ((s : ℕ) × (nht_seq h ≡ (none, record h { seq_ptr = s }))))
      ⊎ ((vv : Hte) × (s : ℕ) × (left h ≡ vv ∷ entries (drop s h.ix))
          × (nht_seq h ≡ (some vv.payload, record h { seq_ptr = s })))
unfolding nht_seq
nht_seq-cases h = go refl refl (seq_loop-Stepped (drop h.seq_ptr h.ix) h.seq_ptr)
  where
    go :
        {es : List Hte} {r : Option (List ℕ) × ℕ}
        → left h ≡ es
        → seq_loop (drop h.seq_ptr h.ix) h.seq_ptr ≡ r
        → Stepped (drop h.seq_ptr h.ix) h.seq_ptr es r
        → ((left h ≡ []) × ((s : ℕ) × (nht_seq h ≡ (none, record h { seq_ptr = s }))))
          ⊎ ((vv : Hte) × (s : ℕ) × (left h ≡ vv ∷ entries (drop s h.ix))
              × (nht_seq h ≡ (some vv.payload, record h { seq_ptr = s })))
    go all was (at_end {t}) = inl (all, (t, ap (λ r. (r.0, record h { seq_ptr = r.1 })) was))
    go {es = vv ∷ es} all was (at_entry {e} t is rest) =
        let behind : es ≡ entries (drop e h.ix) =
          rest
          ∙ ap entries (drop-add h.seq_ptr (suc t) h.ix)
          ∙ ap (λ n. entries (drop n h.ix)) (sym is) in
        inr (vv, e, all ∙ ap (◌∷◌ vv) behind, ap (λ r. (r.0, record h { seq_ptr = r.1 })) was)

walk-values : (n : ℕ) (h : Nht) → length (left h) < n → walk n h ≡ map (λ vv. vv.payload) (left h)
unfolding walk
walk-values zero h l = absurd (omega arith)
walk-values (suc n) h l = elim (nht_seq-cases h) [
  | inl (all, (s, stop)) ↦
      ap (λ r. collect r.0 (walk n r.1)) stop ∙ ap (map (λ vv. vv.payload)) (sym all)
  | inr (vv, s, all, run) ↦
      let many : length (left h) ≡ suc (length (entries (drop s h.ix))) = ap length all in
      ap (λ r. collect r.0 (walk n r.1)) run
      ∙ ap (◌∷◌ vv.payload) (walk-values n (record h { seq_ptr = s }) (omega arith))
      ∙ ap (map (λ ww. ww.payload)) (sym all)
]

-- A list of entries whose payloads a walk gave, and what it has to do with nht_retrieve
pub record Walked (tbls : ℕ → ℕ → ℕ) (nelems : ℕ) (h : Nht) (payloads : List (List ℕ))
    (es : List Hte) : Type 0 where
  pub given : payloads ≡ map (λ vv. vv.payload) es
  pub all :
      (q p : List ℕ)
      → nht_retrieve tbls nelems h q ≡ done (some p)
      → (i : ℕ) × (vv : Hte) × (get_elem? es i ≡ some vv) × (vv.name ≡ q) × (vv.payload ≡ p)
  pub only :
      (i : ℕ) (vv : Hte)
      → get_elem? es i ≡ some vv
      → nht_retrieve tbls nelems h vv.name ≡ done (some vv.payload)
  pub once :
      (i j : ℕ) (vv ww : Hte)
      → get_elem? es i ≡ some vv
      → get_elem? es j ≡ some ww
      → vv.name ≡ ww.name
      → i ≡ j

module _ (tbls : ℕ → ℕ → ℕ) (nelems : ℕ) (h : Nht) (f : IsFresh tbls nelems h)
    (small : length h.ix ≤ 0x100000000) where
  finds :
      (q p : List ℕ)
      → nht_retrieve tbls nelems h q ≡ done (some p)
      → (j : ℕ) × (vv : Hte) × (entry_at h.ix j ≡ some vv) × (vv.name ≡ q) × (vv.payload ≡ p)
  finds q p found =
      let (o, run, a) = nht_retrieve-Answer tbls nelems h f small q in
      of_answer o (sym run ∙ found) a
    where
      of_answer :
          (o : Option (List ℕ))
          → done o ≡ done (some p)
          → Answer h.ix q o
          → (j : ℕ) × (vv : Hte) × (entry_at h.ix j ≡ some vv) × (vv.name ≡ q) × (vv.payload ≡ p)
      of_answer none e (absent no_) = cc
      of_answer (some r) e (present j vv at named) = (j, vv, at, equal_sound vv.name q named, cc)

  found_by_name :
      (j : ℕ) (vv : Hte)
      → entry_at h.ix j ≡ some vv
      → nht_retrieve tbls nelems h vv.name ≡ done (some vv.payload)
  found_by_name j vv at =
      let (o, run, a) = nht_retrieve-Answer tbls nelems h f small vv.name in
      run ∙ ap done (of_answer o a)
    where
      of_answer : (o : Option (List ℕ)) → Answer h.ix vv.name o → o ≡ some vv.payload
      of_answer none (absent no_) = absurd (no_ j vv at (equal_refl vv.name))
      of_answer (some r) (present k ww at_k named) =
          let place = f.distinct k j ww vv at_k at named in
          let both : some ww ≡ some vv = sym at_k ∙ ap (entry_at h.ix) place ∙ at in cc

  -- On a table in order from which nothing was deleted, nht_rewind and then as many calls of nht_seq as there
  -- are entries give their payloads, and the next call gives NULL. They are the payloads of a list of
  -- entries, each key's once: an entry's name finds its payload with nht_retrieve, and whatever
  -- nht_retrieve finds is in the list, under its name.
  pub nht_seq-Walked :
      (n : ℕ)
      → h.nentries < n
      → (es : List Hte) × (length es ≡ h.nentries) × Walked tbls nelems h (walk n (nht_rewind h)) es
  unfolding nht_rewind
  nht_seq-Walked n enough =
      let count = f.count in
      (
        entries h.ix,
        length-entries h.ix f.clean ∙ count,
        record {
          given =
              walk-values n (record h { seq_ptr = 0 }) (omega (arith, length-entries h.ix f.clean));
          all = λ q p found.
              let (j, vv, at, named, is) = finds q p found in
              let (i, at_i) = entry-entries h.ix j vv at in (i, vv, at_i, named, is);
          only = λ i vv at. let (j, at_j) = entries-entry h.ix i vv at in found_by_name j vv at_j;
          once = λ i j vv ww at_i at_j same.
              IsDistinct-entries h.ix f.distinct i j vv ww at_i at_j
                (ap (equal vv.name) (sym same) ∙ equal_refl vv.name);
        },
      )
