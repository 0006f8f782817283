-- ===== src/Simv/Join.antt =====
-- The words that two vectors have in common.
use getassoc.Common.{
  ℕ, zero, suc, ◌+◌, ◌<◌, ◌≡◌, refl, sym, ap, ◌∙◌, true, false, not, ◌&&◌, map, Option, none, some,
  List, [], ◌∷◌, arith, ltb, ◌==◌, if◌then◌else◌, length, All, All-mono, inl, inr, Bool-cases, Run,
  done, ◌>>=◌,
}
use getassoc.Assv.{Double}
use getassoc.Simv.{
  Cell, Word, look_up, sum_tf_d, Measure, Total, common_word, meet_loop, start, conclude, simv,
}

-- Each identifier is below those behind it.
abbrev pub IsAscending : List Word → Type 0
IsAscending [] = Unit
IsAscending (w ∷ ws) = All (λ u. w.id < u.id) ws × IsAscending ws

abbrev pub find : ℕ → List Word → Option Word
find id [] = none
find id (w ∷ ws) = if w.id == id then some w else find id ws

find-absent : (id : ℕ) (ws : List Word) → All (λ u. id < u.id) ws → find id ws ≡ none
find-absent id [] h = refl
find-absent id (w ∷ ws) (lt, h) =
    let differs : (w.id == id) ≡ false = ground arith in rw differs (find-absent id ws h)

module _ (F : Double) (one : F.carrier) (f : Measure F) where
  -- The specification: each word of `q` that is found in `d` is added, in the order of `q`.
  pub joined : ℕ → List Word → List Word → Total F → Total F
  joined i [] d s = s
  joined i (a ∷ q) d s =
      joined (i + 1) q d (elim (find a.id d) [ none ↦ s | some b ↦ common_word F one f i a b s ])

  joined-nil : (i : ℕ) (q : List Word) (s : Total F) → joined i q [] s ≡ s
  unfolding joined
  joined-nil i [] s = refl
  joined-nil i (a ∷ q) s = joined-nil (i + 1) q s

  -- A word of `d` that is below all those of `q` is never found.
  joined-drop :
      (i : ℕ) (q : List Word) (b : Word) (d : List Word) (s : Total F)
      → All (λ u. b.id < u.id) q
      → joined i q (b ∷ d) s ≡ joined i q d s
  unfolding joined
  joined-drop i [] b d s h = refl
  joined-drop i (a ∷ q) b d s (lt, h) =
      let differs : (b.id == a.id) ≡ false = ground arith in
      rw differs (joined-drop (i + 1) q b d _ h)

  meet_loop-joined :
      (n i : ℕ) (q d : List Word) (s : Total F)
      → IsAscending q
      → IsAscending d
      → length q + length d < n
      → meet_loop F one f n i q d s ≡ done (joined i q d s)
  unfolding meet_loop joined
  meet_loop-joined zero i q d s up up' enough = absurd (omega arith)
  meet_loop-joined (suc n) i [] d s up up' enough = refl
  meet_loop-joined (suc n) i (a ∷ q) [] s (above, up) up' enough =
      ap done (sym (joined-nil (i + 1) q s))
  meet_loop-joined (suc n) i (a ∷ q) (b ∷ d) s (above, up) (above', up') enough =
      elim (Bool-cases (ltb a.id b.id)) [
        | inl lt ↦
            let low : a.id < b.id = ground arith in
            let differs : (b.id == a.id) ≡ false = ground arith in
            let absent = find-absent a.id d (All-mono d (λ u h. omega arith) above') in
            rw (lt, differs, absent)
              (meet_loop-joined n (i + 1) q (b ∷ d) s up (above', up') (omega arith))
        | inr ge ↦ elim (Bool-cases (ltb b.id a.id)) [
          | inl gt ↦
              let low : b.id < a.id = ground arith in
              rw (ge, gt)
                (meet_loop-joined n i (a ∷ q) d s (above, up) up' (omega arith)
                  ∙ ap done (
                      sym
                        (joined-drop i (a ∷ q) b d s (low, All-mono q (λ u h. omega arith) above))))
          | inr le ↦
              let same : b.id ≡ a.id = ground arith in
              let found : (b.id == a.id) ≡ true = ground arith in
              rw (ge, le, found)
                (meet_loop-joined n (i + 1) q d (common_word F one f i a b s) up up' (omega arith)
                  ∙ ap done
                      (sym (joined-drop (i + 1) q b d _ (All-mono q (λ u h. omega arith) above))))
        ]
      ]

module _ (elem_num freq_sum : ℕ → ℕ) where
  abbrev pub looked_up : Word → Word
  looked_up w = record w { df = elem_num w.id; tf = freq_sum w.id }

  -- A word of a query: it has an identifier and no vector.
  abbrev pub IsWord : Word → Type 0
  IsWord w = (not w.v && not (w.id == 0)) ≡ true

  look_up-map :
      (q : List Word) → All IsWord q → look_up elem_num freq_sum q ≡ some (map looked_up q)
  unfolding look_up
  look_up-map [] h = refl
  look_up-map (w ∷ q) (is, h) = rw (is, look_up-map q h) refl

  All-map :
      (P : ℕ → Type 0) (q : List Word) → All (λ u. P u.id) q → All (λ u. P u.id) (map looked_up q)
  All-map P [] h = tt
  All-map P (w ∷ q) (p, h) = (p, All-map P q h)

  map-IsAscending : (q : List Word) → IsAscending q → IsAscending (map looked_up q)
  map-IsAscending [] h = tt
  map-IsAscending (w ∷ q) (above, up) = (All-map (λ id. w.id < id) q above, map-IsAscending q up)

  -- Of two vectors in the order of their identifiers, the first of words with an identifier and no
  -- vector, simv with a measure that is known and with memory returns what the measure makes of the
  -- words that they have in common, added in that order; the words are first given their DF and TF.
  pub simv-joined :
      (F : Double) (one : F.carrier) (f : Measure F) (set_type : List Word → ℕ → Option (Measure F))
      (q d : List Word)
      → All IsWord q
      → IsAscending q
      → IsAscending d
      → set_type (map looked_up q) (sum_tf_d (map looked_up q)) ≡ some f
      → simv F one elem_num freq_sum set_type true q d
        ≡ done (conclude F one f (joined F one f 0 (map looked_up q) d (start F one f)))
  unfolding simv
  simv-joined F one f set_type q d words up up' known =
      let loop =
        meet_loop-joined F one f (length (map looked_up q) + length d + 1) 0 (map looked_up q) d
          (start F one f) (map-IsAscending q up) up' (omega arith) in
      rw (look_up-map q words, simv, known) (either f.weight loop)
    where
      score : Run F.carrier
      score =
          meet_loop F one f (length (map looked_up q) + length d + 1) 0 (map looked_up q) d
            (start F one f)
          >>= λ s. done (conclude F one f s)

      either :
          (o : Option (F.carrier → ℕ → ℕ → List Cell → F.carrier))
          → meet_loop F one f
              (length (map looked_up q) + length d + 1)
              0
              (map looked_up q)
              d
              (start F one f)
            ≡ done (joined F one f 0 (map looked_up q) d (start F one f))
          → (elim o [ none ↦ score | some g ↦ score ])
            ≡ done (conclude F one f (joined F one f 0 (map looked_up q) d (start F one f)))
      either none loop = rw loop refl
      either (some g) loop = rw loop refl
