-- ===== src/Assv/Merge/Whole.antt =====
-- The loop of `assv` as a whole.
use mathlib.Core.List.Perm
use getassoc.Common.{
  ℕ, zero, suc, ◌≤◌, ◌<◌, ◌≡◌, refl, sym, ◌∙◌, subst, true, false, Option, none, some, List, [],
  ◌∷◌, ◌++◌, Perm, leb, ◌==◌, if◌then◌else◌, lt-cases, inl, inr, arith, length, length-append,
  length-perm, All, All-mono, append_assoc, append-nil, Run, done, ◌>>=◌,
}
use getassoc.Priq.{Priq, emptyp}
use getassoc.Priq.Laws.{IsValid}
use getassoc.Assv.{Container, Hit, ccompar}
use getassoc.Assv.Merge.{Group, merge, merge_loop, last_group, flush, push, hit_of}
use getassoc.Assv.Merge.Step.{all_cells}
use getassoc.Assv.Merge.Turns.{
  all_hits, AreGroups, flush-same, flush-next, visit, finished, whole_run, after_sink, eject_all,
}
use getassoc.Assv.Merge.Groups.{IsReady, IsApart, Fits, Progress, progress}

module _ {D : Type 0} where
  none_left : (cs : List (Container D)) → length cs ≤ 0 → Perm [] (all_cells cs)
  none_left [] p = Perm.refl []
  none_left (c ∷ cs) p = absurd (omega arith)

  module _ {S : Type 0} (nq : ℕ) (sink : ℕ → List (Hit D) → S → Run (Option S)) where
    record Merged (n : ℕ) (a : Priq (Container D)) (d : ℕ) (h : List (Hit D)) : Type 0 where
      more : List (Hit D)
      gs : List (Group D)
      run :
          (s : S)
          → (merge_loop nq sink n a (record { d = d; h = h }) s >>= λ r. last_group nq sink r)
            ≡ eject_all nq sink (record { d = d; h = h ++ more } ∷ gs) s
      here : All (λ x. x.dp.id ≡ d) more
      later : AreGroups d gs
      whole : Perm (more ++ all_hits gs) (all_cells a.items)

    -- What is left of `merged`, when the next cell is of the same document, and when it is not
    continue_same :
        (n : ℕ) (a : Priq (Container D)) (d : ℕ) (h : List (Hit D)) (u : Progress nq d (length h) a)
        → 0 < length a.items
        → 0 < length h
        → u.t.epid ≡ d
        → Merged n u.a' d (h ++ hit_of u.t u.t.ep ∷ [])
        → Merged (suc n) a d h
    continue_same n a d h u p q same m =
        let x = hit_of u.t u.t.ep in
        let ((on, pos, asc, bound), least, seen) = u.fit in
        let roomy : leb nq (length h) ≡ false =
          let k : length h ≤ u.t.qidx = seen same in ground arith in
        record {
          more = x ∷ m.more;
          gs = m.gs;
          run = λ s.
              rw
                (
                  visit nq sink n a u.a' u.t (record { d = d; h = h }) s p u.was_top u.stepped,
                  same,
                  flush-same nq sink d h s q,
                  roomy,
                  ← append_assoc h (x ∷ []) m.more,
                )
                (m.run s);
          here = (omega arith, m.here);
          later = m.later;
          whole = Perm.trans (Perm.cons x m.whole) u.cells;
        }

    continue_next :
        (n : ℕ) (a : Priq (Container D)) (d : ℕ) (h : List (Hit D)) (u : Progress nq d (length h) a)
        → 0 < length a.items
        → 0 < length h
        → 0 < d
        → d < u.t.epid
        → Merged n u.a' u.t.epid (hit_of u.t u.t.ep ∷ [])
        → Merged (suc n) a d h
    continue_next n a d h u p q pos next m =
        let x = hit_of u.t u.t.ep in
        let ((on, _, asc, bound), least, seen) = u.fit in
        let roomy : leb nq 0 ≡ false = ground arith in
        record {
          more = [];
          gs = record { d = u.t.epid; h = x ∷ m.more } ∷ m.gs;
          run = λ s.
              rw
                (
                  visit nq sink n a u.a' u.t (record { d = d; h = h }) s p u.was_top u.stepped,
                  flush-next nq sink u.t.epid d h s q pos next,
                  append-nil,
                )
                (after_sink nq sink u.t.epid
                  (λ w.
                    if leb nq (length w.0.h)
                    then done none
                    else merge_loop nq sink n u.a' (push u.t w.0) w.1)
                  (eject_all nq sink (record { d = u.t.epid; h = x ∷ m.more } ∷ m.gs))
                  (λ s'. rw roomy (m.run s')) (sink d h s));
          here = tt;
          later = (next, omega arith, (sym on, m.here), m.later);
          whole = Perm.trans (Perm.cons x m.whole) u.cells;
        }

    merged :
        (n : ℕ) (a : Priq (Container D)) (d : ℕ) (h : List (Hit D))
        → length (all_cells a.items) < n
        → IsValid ccompar a
        → All (Fits nq d (length h)) a.items
        → IsApart a.items
        → 0 < d
        → 0 < length h
        → Merged n a d h
    merged zero a d h f v fits apart pos some_ = absurd (omega arith)
    merged (suc n) a d h f v fits apart pos some_ = elim (lt-cases 0 (length a.items)) [
      | inr empty ↦ record {
        more = [];
        gs = [];
        run = λ s.
            rw append-nil
              (finished nq sink n a d h s (omega arith) some_ ∙ whole_run nq sink (sink d h s));
        here = tt;
        later = tt;
        whole = none_left a.items empty;
      }
      | inl more ↦
          let u = progress nq d (length h) a v fits apart more in
          let t = u.t in
          let fewer : length (all_cells u.a'.items) < n = omega (arith, length-perm u.cells) in
          let ((on, epos, asc, bound), least, seen) = u.fit in
          elim (lt-cases d t.epid) [
            | inl next ↦ continue_next n a d h u more some_ pos next (
                merged n u.a' t.epid (hit_of t t.ep ∷ []) fewer u.valid (u.fits 0 (omega arith))
                  u.apart epos (omega arith))
            | inr same ↦
                let e : t.epid ≡ d = omega arith in
                let longer : length (h ++ hit_of t t.ep ∷ []) ≡ suc (length h) =
                  omega (arith, length-append h (hit_of t t.ep ∷ [])) in
                continue_same n a d h u more some_ e (
                  merged n u.a' d (h ++ hit_of t t.ep ∷ []) fewer u.valid
                    (rw longer (
                      subst (λ c. All (Fits nq c (suc (length h))) u.a'.items) e
                        (u.fits (length h) (seen e))))
                    u.apart pos (omega arith))
          ]
    ]

    -- What the merge of the vectors in `a` amounts to, for every `eject`
    pub record Grouped (a : Priq (Container D)) : Type 0 where
      pub groups : List (Group D)
      pub run :
          (s : S) → merge nq sink (length (all_cells a.items)) a s ≡ eject_all nq sink groups s
      pub ascending : AreGroups 0 groups
      pub whole : Perm (all_hits groups) (all_cells a.items)

    merge_none :
        (a : Priq (Container D)) (cells : ℕ) (s : S)
        → length a.items ≡ 0
        → merge nq sink cells a s ≡ done (some s)
    unfolding merge merge_loop emptyp last_group
    merge_none a cells s e =
        let empty : (length a.items == 0) ≡ true = ground arith in rw empty refl

    merge_some :
        (a : Priq (Container D)) (s : S) (u : Progress nq 0 0 a)
        → 0 < length a.items
        → (m : Merged (length (all_cells a.items)) u.a' u.t.epid (hit_of u.t u.t.ep ∷ []))
        → merge nq sink (length (all_cells a.items)) a s
          ≡ eject_all nq sink (record { d = u.t.epid; h = hit_of u.t u.t.ep ∷ m.more } ∷ m.gs) s
    unfolding merge flush
    merge_some a s u p m =
        let ((on, pos, asc, bound), least, seen) = u.fit in
        let roomy : leb nq 0 ≡ false = ground arith in
        rw
          (
            visit nq sink (length (all_cells a.items)) a u.a' u.t (record { d = 0; h = [] }) s p
                u.was_top u.stepped,
            roomy,
          )
          (m.run s)

    -- On a valid queue of containers of different entries, whose vectors ascend, the loop of `assv`
    -- ends, without a fault and without too many cells for `h`: it calls `eject` once for each document
    -- that some vector has, in ascending order, with exactly the cells of that document, each of them
    -- once, until a call fails.
    pub merge-Grouped :
        (a : Priq (Container D))
        → IsValid ccompar a
        → All (IsReady nq) a.items
        → IsApart a.items
        → Grouped a
    merge-Grouped a v ready apart = elim (lt-cases 0 (length a.items)) [
      | inr empty ↦ record {
        groups = [];
        run = λ s. merge_none a _ s (omega arith);
        ascending = tt;
        whole = none_left a.items empty;
      }
      | inl more ↦
          let fits : All (Fits nq 0 0) a.items =
            All-mono a.items (λ c r. (r, omega arith, λ e. omega arith)) ready in
          let u = progress nq 0 0 a v fits apart more in
          let t = u.t in
          let ((on, pos, asc, bound), least, seen) = u.fit in
          let m =
            merged (length (all_cells a.items)) u.a' t.epid (hit_of t t.ep ∷ [])
              (omega (arith, length-perm u.cells)) u.valid (u.fits 0 (omega arith)) u.apart pos
              (omega arith) in
          record {
            groups = record { d = t.epid; h = hit_of t t.ep ∷ m.more } ∷ m.gs;
            run = λ s. merge_some a s u more m;
            ascending = (pos, omega arith, (sym on, m.here), m.later);
            whole = Perm.trans (Perm.cons (hit_of t t.ep) m.whole) u.cells;
          }
    ]
