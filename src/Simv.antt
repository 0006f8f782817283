-- ===== src/Simv.antt =====
-- simv.c: the similarity of two vectors, which are lists of words ordered by their identifiers. The sums
-- of frequencies are taken to stay within `freq_t`.
pub mod Join
mod Samples
use getassoc.Common.{
  ℕ, zero, suc, ◌+◌, ◌%◌, Bool, true, false, not, ◌&&◌, Option, none, some, List, [], ◌∷◌, ◌++◌,
  ltb, ◌==◌, if◌then◌else◌, length, Run, done, out_of_fuel, ◌>>=◌,
}
use getassoc.Corpus.{XrElem}
use getassoc.Assv.{Double}

-- `struct syminfo`, as far as it is read here; `v` is whether it has a vector.
pub record Word : Type 0 where
  pub id : ℕ
  pub v : Bool
  pub tf_d : ℕ
  pub df : ℕ
  pub tf : ℕ

-- A cell of `h`: `t->qidx`, and the cell it points to
pub record Cell : Type 0 where
  pub qidx : ℕ
  pub dp : XrElem

-- The loop that looks up DF and TF; `none` is the return of 0. `wam_elem_num` and `wam_freq_sum` are
-- arguments.
unfoldable pub look_up : (ℕ → ℕ) → (ℕ → ℕ) → List Word → Option (List Word)
look_up elem_num freq_sum [] = some []
look_up elem_num freq_sum (q ∷ qs) =
    let rest = look_up elem_num freq_sum qs in
    if not q.v && not (q.id == 0)
    then elim rest [
      | none ↦ none
      | some ws ↦ some (record q { df = elem_num q.id; tf = freq_sum q.id } ∷ ws)
    ]
    else none

unfoldable pub sum_tf_d : List Word → ℕ
sum_tf_d [] = 0
sum_tf_d (q ∷ qs) = q.tf_d + sum_tf_d qs

module _ (F : Double) where
  open F use {carrier, zero_value, nonzero, add, mul, div}

  -- The functions of `g->f`, of which each can be NULL; `norm` and `weight` read TF_d and DF_d of `dd`.
  pub record Measure : Type 0 where
    pub wq : Option (Word → carrier)
    pub wd : Option (XrElem → Word → carrier)
    pub norm : Option (ℕ → ℕ → carrier)
    pub weight : Option (carrier → ℕ → ℕ → List Cell → carrier)

  -- `wsum`, `TF_d`, `DF_d` and `h`
  pub record Total : Type 0 where
    pub wsum : carrier
    pub tf_d : ℕ
    pub df_d : ℕ
    pub h : List Cell

  module _ (one : carrier) (f : Measure) where
    -- The loop's body at a word of both vectors, the `i`th of `q`
    unfoldable pub common_word : ℕ → Word → Word → Total → Total
    common_word i q d s =
        let e : XrElem = record { id = d.id; freq = d.tf_d } in
        let wq : carrier = elim f.wq [ none ↦ one | some g ↦ g q ] in
        let wd : carrier = elim f.wd [ none ↦ one | some g ↦ g e q ] in
        record {
          wsum = add s.wsum (mul wq wd);
          tf_d = s.tf_d + d.tf_d;
          df_d = s.df_d + 1;
          h = elim f.weight [ none ↦ s.h | some g ↦ s.h ++ (record { qidx = i; dp = e } ∷ []) ];
        }

    -- The main loop on the words of `q` from `i` on and on those of `d` from `j` on
    unfoldable pub meet_loop : ℕ → ℕ → List Word → List Word → Total → Run Total
    meet_loop zero i q d s = out_of_fuel
    meet_loop (suc n) i [] d s = done s
    meet_loop (suc n) i (a ∷ q) [] s = done s
    meet_loop (suc n) i (a ∷ q) (b ∷ d) s =
        let skip_q = meet_loop n (i + 1) q (b ∷ d) s in
        let skip_d = meet_loop n i (a ∷ q) d s in
        let both = meet_loop n (i + 1) q d (common_word i a b s) in
        if ltb a.id b.id then skip_q else if ltb b.id a.id then skip_d else both

    unfoldable pub start : Total
    start = record { wsum = zero_value; tf_d = 0; df_d = 0; h = [] }

    -- What is made of the sums
    unfoldable pub conclude : Total → carrier
    conclude s =
        let normed : carrier = elim f.norm [
          | none ↦ s.wsum
          | some g ↦ let norm = g s.tf_d s.df_d in if nonzero norm then div s.wsum norm else s.wsum
        ] in
        let wsum = if nonzero s.wsum then normed else s.wsum in
        elim f.weight [ none ↦ wsum | some g ↦ g wsum s.tf_d s.df_d s.h ]

  -- simv. `set_type` is simdef_set_type, which sees the query and the sum of its frequencies; `granted`
  -- is whether each calloc succeeds.
  unfoldable pub simv :
      carrier
      → (ℕ → ℕ)
      → (ℕ → ℕ)
      → (List Word → ℕ → Option Measure)
      → Bool
      → List Word
      → List Word
      → Run carrier
  simv one elem_num freq_sum set_type granted q d =
      let score : List Word → Measure → Run carrier = λ ws f.
        meet_loop one f (length ws + length d + 1) 0 ws d (start one f) >>= λ s.
        done (conclude one f s) in
      elim (look_up elem_num freq_sum q) [
        | none ↦ done zero_value
        | some ws ↦ elim (set_type ws (sum_tf_d ws)) [
          | none ↦ done zero_value
          | some f ↦ elim f.weight [
            | none ↦ score ws f
            | some g ↦ if granted then score ws f else done zero_value
          ]
        ]
      ]
