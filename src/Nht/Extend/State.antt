-- ===== src/Nht/Extend/State.antt =====
-- The index while ht_extend goes through it, and what an entry that is put into its place changes of it.
use getassoc.Common.{
  ℕ, suc, ◌≤◌, ◌<◌, ◌≡◌, ◌≢◌, ◌⊎◌, refl, sym, ap, ◌∙◌, true, false, Option, none, some, List, arith,
  length, get_elem?, ◌==◌, if◌then◌else◌, Bool-cases, inl, inr,
}
use getassoc.Sutil.{equal}
use getassoc.Nht.{Hte, Cell, empty, dirty1, held, moving, nsxhash}

-- The entry in a cell, placed or not
abbrev pub entry_of : Cell → Option Hte
entry_of empty = none
entry_of dirty1 = none
entry_of (held vv) = some vv
entry_of (moving vv) = some vv

abbrev pub content : Option Cell → Option Hte
content none = none
content (some e) = entry_of e

abbrev pub entry_at : List Cell → ℕ → Option Hte
entry_at ix j = content (get_elem? ix j)

-- No two entries have one name.
abbrev pub IsDistinct : List Cell → Type 0
IsDistinct ix =
    (j k : ℕ) (vv ww : Hte)
    → entry_at ix j ≡ some vv
    → entry_at ix k ≡ some ww
    → equal vv.name ww.name ≡ true
    → j ≡ k

abbrev pub IsIn : List Cell → Hte → Type 0
IsIn ix vv = (j : ℕ) × (entry_at ix j ≡ some vv)

abbrev pub IsPlaced : List Cell → ℕ → Type 0
IsPlaced ix j = (ww : Hte) × (get_elem? ix j ≡ some (held ww))

module _ (tbls : ℕ → ℕ → ℕ) (nelems size : ℕ) where
  -- The key's probes find the cell `s`, behind entries that are in place.
  abbrev pub Way : List Cell → List ℕ → ℕ → Type 0
  Way ix p s =
      (c : ℕ) × (nsxhash tbls nelems size p c ≡ s)
      × ((k : ℕ) → k < c → IsPlaced ix (nsxhash tbls nelems size p k))

  -- The cells from `i` to `osize` can hold entries that are to be moved; the others are in place. The
  -- entries are those of `whole`.
  pub record Underway (osize : ℕ) (whole : List Cell) (i : ℕ) (ix : List Cell) : Type 0 where
    pub wide : length ix ≡ size
    pub left : (s : ℕ) (vv : Hte) → get_elem? ix s ≡ some (moving vv) → (i ≤ s) × (s < osize)
    pub clean : (s : ℕ) → get_elem? ix s ≢ some dirty1
    pub path : (s : ℕ) (vv : Hte) → get_elem? ix s ≡ some (held vv) → Way ix vv.name s
    pub distinct : IsDistinct ix
    pub old : (vv : Hte) → IsIn ix vv → IsIn whole vv
    pub kept : (vv : Hte) → IsIn whole vv → IsIn ix vv

-- The entry `o` of the cell `i` is put into the cell `s`, whose cell `x` comes to `i`.
pub record Exchanged (ix ix' : List Cell) (i s : ℕ) (o : Hte) (x : Cell) : Type 0 where
  pub was_i : get_elem? ix i ≡ some (moving o)
  pub was_s : get_elem? ix s ≡ some x
  pub differ : (i == s) ≡ false
  pub not_held : (vv : Hte) → x ≢ held vv
  pub now_i : get_elem? ix' i ≡ some x
  pub now_s : get_elem? ix' s ≡ some (held o)
  pub others : (j : ℕ) → (i == j) ≡ false → (s == j) ≡ false → get_elem? ix' j ≡ get_elem? ix j
  pub same_length : length ix' ≡ length ix

abbrev swap : ℕ → ℕ → ℕ → ℕ
swap i s j = if i == j then s else if s == j then i else j

swap-swap : (i s j : ℕ) → swap i s (swap i s j) ≡ j
swap-swap i s j = ground arith

module _ {ix ix' : List Cell} {i s : ℕ} {o : Hte} {x : Cell} (e : Exchanged ix ix' i s o x) where
  entry_at-swap : (j : ℕ) → entry_at ix' j ≡ entry_at ix (swap i s j)
  entry_at-swap j = elim (Bool-cases (i == j)) [
    | inl at_i ↦
        let is : j ≡ i = ground arith in
        let to_s : swap i s j ≡ s = rw at_i refl in
        rw (to_s, is) (ap content (e.now_i ∙ sym e.was_s))
    | inr not_i ↦ elim (Bool-cases (s == j)) [
      | inl at_s ↦
          let is : j ≡ s = ground arith in
          let to_i : swap i s j ≡ i = rw (not_i, at_s) refl in
          rw (to_i, is) (ap content e.now_s ∙ sym (ap content e.was_i))
      | inr not_s ↦
          let stays : swap i s j ≡ j = rw (not_i, not_s) refl in
          rw stays (ap content (e.others j not_i not_s))
    ]
  ]

  entry_at-back : (j : ℕ) → entry_at ix' (swap i s j) ≡ entry_at ix j
  entry_at-back j = entry_at-swap (swap i s j) ∙ ap (entry_at ix) (swap-swap i s j)

  pub IsDistinct-Exchanged : IsDistinct ix → IsDistinct ix'
  IsDistinct-Exchanged d j k vv ww at_j at_k same =
      let images : swap i s j ≡ swap i s k =
        d (swap i s j) (swap i s k) vv ww (sym (entry_at-swap j) ∙ at_j)
          (sym (entry_at-swap k) ∙ at_k) same in
      sym (swap-swap i s j) ∙ ap (swap i s) images ∙ swap-swap i s k

  pub old-Exchanged : (vv : Hte) → IsIn ix' vv → IsIn ix vv
  old-Exchanged vv (j, at) = (swap i s j, sym (entry_at-swap j) ∙ at)

  pub kept-Exchanged : (vv : Hte) → IsIn ix vv → IsIn ix' vv
  kept-Exchanged vv (j, at) = (swap i s j, entry_at-back j ∙ at)

  -- An entry in place stays there.
  pub IsPlaced-Exchanged : (t : ℕ) → IsPlaced ix t → IsPlaced ix' t
  IsPlaced-Exchanged t (ww, at) = elim (Bool-cases (i == t)) [
    | inl at_i ↦
        let is : t ≡ i = ground arith in
        let wrong : some (moving o) ≡ some (held ww) =
          sym e.was_i ∙ ap (get_elem? ix) (sym is) ∙ at in
        cc
    | inr not_i ↦ elim (Bool-cases (s == t)) [
      | inl at_s ↦
          let is : t ≡ s = ground arith in
          let both : some x ≡ some (held ww) = sym e.was_s ∙ ap (get_elem? ix) (sym is) ∙ at in
          absurd (e.not_held ww cc)
      | inr not_s ↦ (ww, e.others t not_i not_s ∙ at)
    ]
  ]

  -- What stands in a cell
  now :
      (j : ℕ)
      → ((i ≡ j) × (get_elem? ix' j ≡ some x))
        ⊎ (((s ≡ j) × (get_elem? ix' j ≡ some (held o)))
            ⊎ (((i == j) ≡ false) × (get_elem? ix' j ≡ get_elem? ix j)))
  now j = elim (Bool-cases (i == j)) [
    | inl at_i ↦ let is : i ≡ j = ground arith in inl (is, ap (get_elem? ix') (sym is) ∙ e.now_i)
    | inr not_i ↦ elim (Bool-cases (s == j)) [
      | inl at_s ↦
          let is : s ≡ j = ground arith in inr (inl (is, ap (get_elem? ix') (sym is) ∙ e.now_s))
      | inr not_s ↦ inr (inr (not_i, e.others j not_i not_s))
    ]
  ]

  module _ (tbls : ℕ → ℕ → ℕ) (nelems size osize : ℕ) (whole : List Cell) where
    Way-Exchanged :
        (p : List ℕ) (t : ℕ) → Way tbls nelems size ix p t → Way tbls nelems size ix' p t
    Way-Exchanged p t (c, hits, before) = (c, hits, λ k l. IsPlaced-Exchanged _ (before k l))

    -- The exchange goes on at `i'`, which is behind `i` only if nothing came to `i`.
    pub Underway-Exchanged :
        (i' : ℕ)
        → Underway tbls nelems size osize whole i ix
        → Way tbls nelems size ix o.name s
        → i' ≤ suc i
        → ((vv : Hte) → x ≡ moving vv → i' ≤ i)
        → Underway tbls nelems size osize whole i' ix'
    Underway-Exchanged i' u way le stays = record {
      wide = e.same_length ∙ u.wide;
      left = λ j vv at. elim (now j) [
        | inl (is, at_i) ↦
            let both : some x ≡ some (moving vv) = sym at_i ∙ at in
            let le_i = stays vv cc in
            let (low, high) = u.left i o e.was_i in (omega arith, omega arith)
        | inr (inl (is, at_s)) ↦ let wrong : some (held o) ≡ some (moving vv) = sym at_s ∙ at in cc
        | inr (inr (not_i, same)) ↦
            let (low, high) = u.left j vv (sym same ∙ at) in (ground arith, high)
      ];
      clean = λ j at. elim (now j) [
        | inl (is, at_i) ↦ u.clean s (e.was_s ∙ (sym at_i ∙ at))
        | inr (inl (is, at_s)) ↦ let wrong : some (held o) ≡ some dirty1 = sym at_s ∙ at in cc
        | inr (inr (not_i, same)) ↦ u.clean j (sym same ∙ at)
      ];
      path = λ j vv at. elim (now j) [
        | inl (is, at_i) ↦
            let both : some x ≡ some (held vv) = sym at_i ∙ at in absurd (e.not_held vv cc)
        | inr (inl (is, at_s)) ↦
            let both : some (held o) ≡ some (held vv) = sym at_s ∙ at in
            let whole_entry : o ≡ vv = cc in rw⁻¹ (whole_entry, is) (Way-Exchanged o.name s way)
        | inr (inr (not_i, same)) ↦ Way-Exchanged vv.name j (u.path j vv (sym same ∙ at))
      ];
      distinct = IsDistinct-Exchanged u.distinct;
      old = λ vv h. u.old vv (old-Exchanged vv h);
      kept = λ vv h. kept-Exchanged vv (u.kept vv h);
    }
