-- ===== src/Corpus.antt =====
-- The structs of nwam.h.in that the engine's parts share. Identifiers and frequencies are natural
-- numbers; nothing here adds or multiplies them.
use getassoc.Common.{ℕ, Option, none, List}

-- `struct xr_elem`: a document (or a word) and how often it occurs.
pub record XrElem : Type 0 where
  pub id : ℕ
  pub freq : ℕ

-- `struct syminfo`, the fields that are read: an identifier and, where the query gives it, a vector.
pub record Syminfo : Type 0 where
  pub id : ℕ
  pub v : Option (List XrElem)

-- a cell of `calloc`ed syminfo whose `id` is set and whose `v` is NULL
abbrev pub bare : ℕ → Syminfo
bare id = record { id = id; v = none }
