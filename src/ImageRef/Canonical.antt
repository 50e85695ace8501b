-- ===== src/ImageRef/Canonical.antt =====
-- internal/imageref/imageref.go: the spelling that Canonical gives to a reference.
use sbx_swarm_node.Prelude.{
  ◌≡◌, refl, true, ◌++◌, arith, Text, codes, nat_eq, text_eq, Bool-cases, Option-cases, inl, inr,
  contains, contains-append, cut, cut_last, cut-append, cut_last-append,
}
use sbx_swarm_node.ImageRef.{pullable, qualify, last_segment, add_tag, canonical}

pullable-qualify : (ref : Text) → pullable (qualify ref) ≡ true
unfolding qualify cut
pullable-qualify ref = elim (Bool-cases (pullable ref)) [
  | inl e ↦ rw e e
  | inr e ↦ elim (Bool-cases (contains b'/' ref)) [
    | inl s ↦ rw (e, s) refl
    | inr s ↦ rw (e, s) refl
  ]
]

pullable-append : (ref t : Text) → pullable ref ≡ true → pullable (ref ++ t) ≡ true
unfolding pullable
pullable-append ref t h = elim (Option-cases (cut b'/' ref)) [
  | inl n ↦ cc (rw (n, pullable) at h)
  | inr ((host, r), m) ↦ rw (cut-append b'/' ref t m, pullable) (rw (m, pullable) at h)
]

pullable-add_tag : (out : Text) → pullable out ≡ true → pullable (add_tag out) ≡ true
unfolding add_tag
pullable-add_tag out h = elim (Bool-cases (contains b':' (last_segment out))) [
  | inl e ↦ rw e h
  | inr e ↦ rw e (pullable-append out (codes ":latest") h)
]

contains_latest : (s : Text) → contains b':' (s ++ codes ":latest") ≡ true
contains_latest s = ground (arith, contains-append b':' s (codes ":latest"))

tagged-append : (out : Text) → contains b':' (last_segment (out ++ codes ":latest")) ≡ true
unfolding last_segment
tagged-append out = elim (Option-cases (cut_last b'/' out)) [
  | inl n ↦
      rw (cut_last-append b'/' out (codes ":latest") refl, last_segment)
        (rw (n, last_segment) (contains_latest out))
  | inr (p, m) ↦
      rw (cut_last-append b'/' out (codes ":latest") refl, last_segment)
        (rw (m, last_segment) (contains_latest p.1))
]

tagged-add_tag : (out : Text) → contains b':' (last_segment (add_tag out)) ≡ true
unfolding add_tag
tagged-add_tag out = elim (Bool-cases (contains b':' (last_segment out))) [
  | inl e ↦ rw e e
  | inr e ↦ rw e (tagged-append out)
]

-- A canonical reference names a registry, so any node can pull it, and has a tag or a digest in its
-- last segment.
pub canonical_qualified :
    (ref : Text)
    → (pullable (canonical ref) ≡ true) × (contains b':' (last_segment (canonical ref)) ≡ true)
unfolding canonical
canonical_qualified ref =
    (pullable-add_tag (qualify ref) (pullable-qualify ref), tagged-add_tag (qualify ref))

-- A reference that is pullable and tagged is left as it is.
pub canonical_of_qualified :
    (ref : Text)
    → pullable ref ≡ true
    → contains b':' (last_segment ref) ≡ true
    → canonical ref ≡ ref
unfolding canonical
canonical_of_qualified ref p t = rw (p, qualify) (rw (t, add_tag) refl)

-- Normalising a second time changes nothing.
pub canonical_idem : (ref : Text) → canonical (canonical ref) ≡ canonical ref
canonical_idem ref =
    let (pulls, tagged) = canonical_qualified ref in
    canonical_of_qualified (canonical ref) pulls tagged
