-- ===== src/Service/Transfer/Arrivals.antt =====
-- internal/apiserver/filescopy.go: the pieces of a stream, and what has arrived of them.
use mathlib.Core.List.{append_assoc, append-nil}
use sbx_swarm_node.Prelude.{
  ◌≡◌, refl, sym, ap, ◌∙◌, ℕ, zero, suc, ◌≤◌, ◌<◌, ◌⊎◌, inl, inr, List, [], ◌∷◌, ◌++◌, Text,
  text_eq, length, length-append, take, drop, take-append-drop, length-drop, arith,
}
use sbx_swarm_node.Service.Transfer.{chunks_from}

-- The pieces, one behind the other.
abbrev pub joined : List Text → Text
joined [] = []
joined (c ∷ cs) = c ++ joined cs

joined-append : (cs ds : List Text) → joined (cs ++ ds) ≡ joined cs ++ joined ds
joined-append [] ds = refl
joined-append (c ∷ cs) ds =
    ap (λ t. c ++ t) (joined-append cs ds) ∙ sym (append_assoc c (joined cs) (joined ds))

pub joined-step :
    (b cs : List Text) (c : Text) → joined (b ++ c ∷ []) ++ joined cs ≡ joined b ++ (c ++ joined cs)
joined-step b cs c =
    ap (λ t. t ++ joined cs) (joined-append b (c ∷ []) ∙ ap (λ t. joined b ++ t) (append-nil c))
    ∙ append_assoc (joined b) c (joined cs)

-- The reads together are the content.
pub joined-chunks_from :
    (raw fuel : ℕ) (s : Text) → 0 < raw → length s ≤ fuel → joined (chunks_from raw fuel s) ≡ s
unfolding chunks_from
joined-chunks_from raw zero [] h k = refl
joined-chunks_from raw zero (c ∷ s) h k = absurd (omega arith)
joined-chunks_from raw (suc fuel) [] h k = refl
joined-chunks_from raw (suc fuel) (c ∷ s) h k =
    ap (λ t. take raw (c ∷ s) ++ t)
      (joined-chunks_from raw fuel (drop raw (c ∷ s)) h (omega (arith, length-drop raw (c ∷ s))))
    ∙ take-append-drop raw (c ∷ s)

-- What has arrived of the bytes that were sent: all of them, or fewer.
abbrev pub Arrived : Text → Text → Type 0
Arrived sent f = (f ≡ sent) ⊎ (length f < length sent)

length-take-le : (k : ℕ) (s : Text) → (take k s ≡ s) ⊎ (length (take k s) < length s)
length-take-le zero [] = inl refl
length-take-le zero (c ∷ s) = inr (omega arith)
length-take-le (suc k) [] = inl refl
length-take-le (suc k) (c ∷ s) = elim (length-take-le k s) [
  | inl e ↦ inl (ap (λ t. c ∷ t) e)
  | inr h ↦ inr (omega (arith, h))
]

pub Arrived-append :
    (sent f piece : Text) (k : ℕ) → Arrived sent f → Arrived (sent ++ piece) (f ++ take k piece)
Arrived-append sent f piece k (inl e) = elim (length-take-le k piece) [
  | inl w ↦ inl (ap (λ t. f ++ t) w ∙ ap (λ t. t ++ piece) e)
  | inr h ↦
      inr (omega (arith, h, ap length e, length-append sent piece, length-append f (take k piece)))
]
Arrived-append sent f piece k (inr l) = elim (length-take-le k piece) [
  | inl w ↦
      inr (omega (arith, l, ap length w, length-append sent piece, length-append f (take k piece)))
  | inr h ↦ inr (omega (arith, l, h, length-append sent piece, length-append f (take k piece)))
]
