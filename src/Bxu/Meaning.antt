-- ===== src/Bxu/Meaning.antt =====
-- What the expression of a request means for a document: `bxu_conv` and then `bxu_eval` on the
-- entries that the document hits decide the expression.
pub mod Convert
use getassoc.Common.{
  ℕ, suc, ◌≡◌, refl, sym, ap, subst, ◌∙◌, Bool, true, false, not, ◌&&◌, ◌||◌, Option, none, some,
  List, [], ◌∷◌, ◌++◌, ◌==◌, if◌then◌else◌, arith, length, append-nil, append_assoc, Run, done,
  ◌>>=◌,
}
use getassoc.Corpus.{Syminfo, bare}
use getassoc.Bx.{Token, start, end, int_of, bx_compile, bx_exec}
use getassoc.Bx.Meaning.{Formula, atom, top, bot, neg, conj, disj, holds, write, bx_exec-write}
use getassoc.Bxu.{
  BxueT, BxuT, find_slot, slot, operator, conv_step, conv_loop, bxu_conv, mark, bxu_eval,
}
use getassoc.Bxu.Slots.{find_slot-append, find_slot-slot, slot-append}

-- A condition on documents: that they have a word, and so on.
pub data Query : Type 0 where
  word : ℕ → Query
  always never : Query
  negated : Query → Query
  both either : Query → Query → Query

pub satisfies : (ℕ → Bool) → Query → Bool
satisfies has (word id) = has id
satisfies has always = true
satisfies has never = false
satisfies has (negated φ) = not (satisfies has φ)
satisfies has (both φ ψ) = satisfies has φ && satisfies has ψ
satisfies has (either φ ψ) = satisfies has φ || satisfies has ψ

abbrev op : ℕ → BxueT
op c = record { type = c; id = 0 }

-- the expression of a request, with all its parentheses
pub request : Query → List BxueT
request (word id) = record { type = b'"'; id = id } ∷ []
request always = op b'T' ∷ []
request never = op b'F' ∷ []
request (negated φ) = op b'(' ∷ op b'!' ∷ (request φ ++ op b')' ∷ [])
request (both φ ψ) = op b'(' ∷ (request φ ++ op b'&' ∷ (request ψ ++ op b')' ∷ []))
request (either φ ψ) = op b'(' ∷ (request φ ++ op b'|' ∷ (request ψ ++ op b')' ∷ []))

-- the cell of a word
pub cell_of : List Syminfo → ℕ → ℕ
cell_of qq id = elim (find_slot id qq 0) [ none ↦ 0 | some k ↦ k ]

pub cell_of-some :
    (qq : List Syminfo) (id : ℕ) {k : ℕ} → find_slot id qq 0 ≡ some k → cell_of qq id ≡ k
unfolding cell_of
cell_of-some qq id e = rw (e, cell_of)

pub resolve : List Syminfo → Query → Formula
resolve qq (word id) = atom (cell_of qq id)
resolve qq always = top
resolve qq never = bot
resolve qq (negated φ) = neg (resolve qq φ)
resolve qq (both φ ψ) = conj (resolve qq φ) (resolve qq ψ)
resolve qq (either φ ψ) = disj (resolve qq φ) (resolve qq ψ)

-- the array after the words of a condition
pub slots : Query → List Syminfo → List Syminfo
slots (word id) qq = (slot id qq).1
slots always qq = qq
slots never qq = qq
slots (negated φ) qq = slots φ qq
slots (both φ ψ) qq = slots ψ (slots φ qq)
slots (either φ ψ) qq = slots ψ (slots φ qq)

abbrev pub Found : List Syminfo → Query → Type 0
Found qq (word id) = (k : ℕ) × (find_slot id qq 0 ≡ some k)
Found qq always = Unit
Found qq never = Unit
Found qq (negated φ) = Found qq φ
Found qq (both φ ψ) = Found qq φ × Found qq ψ
Found qq (either φ ψ) = Found qq φ × Found qq ψ

pub slots-append : (φ : Query) (qq : List Syminfo) → (ext : List Syminfo) × (slots φ qq ≡ qq ++ ext)
unfolding slots
slots-append (word id) qq = slot-append id qq
slots-append always qq = ([], sym (append-nil qq))
slots-append never qq = ([], sym (append-nil qq))
slots-append (negated φ) qq = slots-append φ qq
slots-append (both φ ψ) qq =
    let (r, e) = slots-append φ qq in
    let (s, f) = slots-append ψ (slots φ qq) in
    (r ++ s, f ∙ ap (λ (u : List Syminfo). u ++ s) e ∙ append_assoc qq r s)
slots-append (either φ ψ) qq =
    let (r, e) = slots-append φ qq in
    let (s, f) = slots-append ψ (slots φ qq) in
    (r ++ s, f ∙ ap (λ (u : List Syminfo). u ++ s) e ∙ append_assoc qq r s)

Found-append : (φ : Query) (qq r : List Syminfo) → Found qq φ → Found (qq ++ r) φ
Found-append (word id) qq r (k, e) = (k, find_slot-append id qq r 0 e)
Found-append always qq r f = tt
Found-append never qq r f = tt
Found-append (negated φ) qq r f = Found-append φ qq r f
Found-append (both φ ψ) qq r (f, g) = (Found-append φ qq r f, Found-append ψ qq r g)
Found-append (either φ ψ) qq r (f, g) = (Found-append φ qq r f, Found-append ψ qq r g)

resolve-append : (φ : Query) (qq r : List Syminfo) → Found qq φ → resolve (qq ++ r) φ ≡ resolve qq φ
unfolding resolve
resolve-append (word id) qq r (k, e) =
    ap atom (cell_of-some (qq ++ r) id (find_slot-append id qq r 0 e) ∙ sym (cell_of-some qq id e))
resolve-append always qq r f = refl
resolve-append never qq r f = refl
resolve-append (negated φ) qq r f = rw (resolve-append φ qq r f)
resolve-append (both φ ψ) qq r (f, g) = rw (resolve-append φ qq r f, resolve-append ψ qq r g)
resolve-append (either φ ψ) qq r (f, g) = rw (resolve-append φ qq r f, resolve-append ψ qq r g)

pub slots-Found : (φ : Query) (qq : List Syminfo) → Found (slots φ qq) φ
unfolding slots
slots-Found (word id) qq = ((slot id qq).0, find_slot-slot id qq)
slots-Found always qq = tt
slots-Found never qq = tt
slots-Found (negated φ) qq = slots-Found φ qq
slots-Found (both φ ψ) qq =
    let (r, e) = slots-append ψ (slots φ qq) in
    (
      subst (λ (u : List Syminfo). Found u φ) (sym e) (Found-append φ _ r (slots-Found φ qq)),
      slots-Found ψ _,
    )
slots-Found (either φ ψ) qq =
    let (r, e) = slots-append ψ (slots φ qq) in
    (
      subst (λ (u : List Syminfo). Found u φ) (sym e) (Found-append φ _ r (slots-Found φ qq)),
      slots-Found ψ _,
    )

-- The later words of a condition do not move the earlier ones.
resolve-slots :
    (φ ψ : Query) (qq : List Syminfo) → Found qq φ → resolve (slots ψ qq) φ ≡ resolve qq φ
resolve-slots φ ψ qq f =
    let (r, e) = slots-append ψ qq in
    ap (λ (u : List Syminfo). resolve u φ) e ∙ resolve-append φ qq r f

abbrev prepend :
    List Token → Option (List Token × List Syminfo) → Option (List Token × List Syminfo)
prepend ts none = none
prepend ts (some (us, r)) = some (ts ++ us, r)

prepend-prepend :
    (ts us : List Token) (o : Option (List Token × List Syminfo))
    → prepend ts (prepend us o) ≡ prepend (ts ++ us) o
prepend-prepend ts us none = refl
prepend-prepend ts us (some (vs, r)) = rw append_assoc

conv_loop-step :
    (ep : BxueT) (t : Token) (e : List BxueT) (qq qq' : List Syminfo)
    → conv_step ep qq ≡ some (t, qq')
    → conv_loop (ep ∷ e) qq ≡ prepend (t ∷ []) (conv_loop e qq')
unfolding conv_loop
conv_loop-step ep t e qq qq' h = rw (h, conv_loop) (go (conv_loop e qq'))
  where
    go :
        (r : Option (List Token × List Syminfo))
        → (elim r [ none ↦ none | some (ts, s) ↦ some (t ∷ ts, s) ]) ≡ prepend (t ∷ []) r
    go none = refl
    go (some r) = refl

-- one character that stands for a token
conv_loop-op :
    (c : ℕ) (t : Token) (e : List BxueT) (qq : List Syminfo)
    → (c == b'"') ≡ false
    → operator c ≡ some t
    → conv_loop (op c ∷ e) qq ≡ prepend (t ∷ []) (conv_loop e qq)
conv_loop-op c t e qq other o = conv_loop-step (op c) t e qq qq step
  where
    step : conv_step (op c) qq ≡ some (t, qq)
    step = unfold conv_step in rw (other, o)
