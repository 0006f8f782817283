-- ===== src/Assv.antt =====
-- assv.c: the associative search. A queue of the query's vectors, ordered by the identifier at their
-- heads, is merged; the entries that hit one document are scored together, and a second queue
-- keeps the best documents. Built without ENABLE_UNIQUIFY and ASSV_DBGINFO.
pub mod Merge
pub mod TopK
pub mod Masks
pub mod Search
mod Samples
use getassoc.Common.{
  ℕ, suc, ◌+◌, ◌-◌, ◌*◌, ◌<◌, ◌≡◌, compare, Ordering, Bool, List, ltb, ◌==◌, if◌then◌else◌, arith,
}
use getassoc.Corpus.{XrElem}
use getassoc.Priq.{Comparator}

-- `double`, of which the code compares and combines values that are not NaN. The comparisons are
-- those of the ranks; the arithmetic is not looked into.
pub record Double : Type 1 where
  pub carrier : Type 0
  pub rank : carrier → ℕ
  pub zero_value : carrier
  pub nonzero : carrier → Bool
  pub add : carrier → carrier → carrier
  pub mul : carrier → carrier → carrier
  pub div : carrier → carrier → carrier

-- `struct pq_container`: an entry of the query and where its vector is read. `ep` is the cell read,
-- and `rest` those behind it, up to `ep_end`. `qidx` is a `df_t`.
pub record Container (D : Type 0) : Type 0 where
  pub qidx : ℕ
  pub small : qidx < 0x80000000
  pub epid : ℕ
  pub ep : XrElem
  pub rest : List XrElem
  pub wq : D

-- `struct hvec_t`: what is read of its container, and the cell `dp`
pub record Hit (D : Type 0) : Type 0 where
  pub qidx : ℕ
  pub wq : D
  pub dp : XrElem

-- `struct ovec_t`; `id` is an `idx_t`
pub record Ovec (D : Type 0) : Type 0 where
  pub id : ℕ
  pub small : id < 0x100000000
  pub weight : D
  pub tf_d : ℕ
  pub df_d : ℕ

module _ {D : Type 0} where
  unfoldable pub compar_ccompar : Container D → Container D → Ordering
  compar_ccompar a b =
      if a.epid == b.epid
      then if a.qidx == b.qidx
        then Ordering.eq
        else if ltb a.qidx b.qidx
        then Ordering.lt
        else Ordering.gt
      else if ltb a.epid b.epid
      then Ordering.lt
      else Ordering.gt

  abbrev pub container_rank : Container D → ℕ
  container_rank a = a.epid * 0x80000000 + a.qidx

  pub container_law :
      (a b : Container D) → compar_ccompar a b ≡ compare (container_rank a) (container_rank b)
  unfolding compar_ccompar
  container_law a b = let p = a.small in let q = b.small in ground arith

  abbrev pub ccompar : Comparator (Container D)
  ccompar = record { compar = compar_ccompar; rank = container_rank; compar_rank = container_law }

module _ (F : Double) where
  open F use {carrier, rank}

  unfoldable pub compar_wcompar : Ovec carrier → Ovec carrier → Ordering
  compar_wcompar a b =
      if rank a.weight == rank b.weight
      then if a.id == b.id then Ordering.eq else if ltb a.id b.id then Ordering.gt else Ordering.lt
      else if ltb (rank a.weight) (rank b.weight)
      then Ordering.lt
      else Ordering.gt

  abbrev pub ovec_rank : Ovec carrier → ℕ
  ovec_rank a = rank a.weight * 0x100000000 + (0x100000000 - 1 - a.id)

  pub ovec_law : (a b : Ovec carrier) → compar_wcompar a b ≡ compare (ovec_rank a) (ovec_rank b)
  unfolding compar_wcompar
  ovec_law a b = let p = a.small in let q = b.small in ground arith

  abbrev pub wcompar : Comparator (Ovec carrier)
  wcompar = record { compar = compar_wcompar; rank = ovec_rank; compar_rank = ovec_law }
