-- ===== src/Sandbox/Capacity/Admission.antt =====
-- internal/sandbox/capacity.go: the accounted total after each method of the tracker.
use sbx_swarm_node.Prelude.{
  ℕ, ◌+◌, ◌≤◌, ◌<◌, ◌≡◌, refl, ap, ◌⊎◌, true, Option, none, some, [], ◌∷◌, arith, Bool-cases,
  Option-cases, inl, inr, ◌==◌, ==_iff, nat_eq, Map, get, put, delete, ==_refl, IsMap, All-put,
  All-delete, IsMap-put, IsMap-delete, delete-missing, get-put, get-put_self, get-delete_self,
  if◌then◌else◌, ◌↔◌, subst, ◌∙◌,
}
use mathlib.Core.Option.{get_or}
use sbx_swarm_node.Sandbox.Amounts.{Amounts, nothing, ◌⊕◌, ⊕_assoc, ⊕_comm, ⊕_nothing}
use sbx_swarm_node.Sandbox.Capacity.{
  Capacity, new_capacity, used, fits, reserved, try_reserve, commit, commit_base, release, set_base,
}
use sbx_swarm_node.Sandbox.Capacity.Sums.{
  total, add_reservations-eq, KeysBelow, total-put_fresh, total-delete,
}

pub used-eq : (c : Capacity) → used c ≡ c.base ⊕ total c.resv
unfolding used
used-eq c = add_reservations-eq c.base c.resv

-- Reservation ids are below `next`, and no id is held twice.
pub record IsValid (c : Capacity) : Type 0 where
  pub ids_below : KeysBelow c.next c.resv
  pub is_map : IsMap c.resv

pub new_capacity-IsValid : (limit : Amounts) → IsValid (new_capacity limit)
unfolding new_capacity
new_capacity-IsValid limit = record { ids_below = tt; is_map = tt }

KeysBelow-suc : (n : ℕ) (m : Map ℕ Amounts) → KeysBelow n m → KeysBelow (n + 1) m
KeysBelow-suc n [] h = h
KeysBelow-suc n (_ ∷ m) h = (omega arith, KeysBelow-suc n m h.1)

pub reserved-IsValid : (c : Capacity) (req : Amounts) → IsValid c → IsValid (reserved req c)
reserved-IsValid c req v = record {
  ids_below =
      All-put (λ p. p.0 < c.next + 1) c.next req c.resv (λ j e. ground (arith, ==_iff j c.next))
        (omega arith) (KeysBelow-suc c.next c.resv v.ids_below);
  is_map = IsMap-put c.next req c.resv v.is_map;
}

pub try_reserve-IsValid : (c : Capacity) (req : Amounts) → IsValid c → IsValid (try_reserve req c).0
unfolding try_reserve
try_reserve-IsValid c req v = elim (Bool-cases (fits c req)) [
  | inl e ↦ rw e (reserved-IsValid c req v)
  | inr e ↦ rw e v
]

pub release-IsValid : (c : Capacity) (id : ℕ) → IsValid c → IsValid (release id c)
unfolding release
release-IsValid c id v = record {
  ids_below = All-delete (λ p. p.0 < c.next) id c.resv v.ids_below;
  is_map = IsMap-delete id c.resv v.is_map;
}

pub commit_base-IsValid :
    (c : Capacity) (b : Amounts) (id : ℕ) → IsValid c → IsValid (commit_base b id c)
unfolding commit_base
commit_base-IsValid c b id v = record {
  ids_below = All-delete (λ p. p.0 < c.next) id c.resv v.ids_below;
  is_map = IsMap-delete id c.resv v.is_map;
}

pub set_base-IsValid : (c : Capacity) (b : Amounts) → IsValid c → IsValid (set_base b c)
unfolding set_base
set_base-IsValid c b v = record { ids_below = v.ids_below; is_map = v.is_map }

pub commit-IsValid : (c : Capacity) (id : ℕ) → IsValid c → IsValid (commit id c)
unfolding commit
commit-IsValid c id v = elim (Option-cases (get id c.resv)) [
  | inl e ↦ rw e v
  | inr (r, e) ↦ rw e (record {
    ids_below = All-delete (λ p. p.0 < c.next) id c.resv v.ids_below;
    is_map = IsMap-delete id c.resv v.is_map;
  })
]

-- Taking back the reservation that was made last leaves the others as they were.
pub delete-put_fresh :
    (c : Capacity) (req : Amounts) → IsValid c → delete c.next (put c.next req c.resv) ≡ c.resv
unfolding delete put
delete-put_fresh c req v = go c.resv v.ids_below
  where
    go : (m : Map ℕ Amounts) → KeysBelow c.next m → delete c.next (put c.next req m) ≡ m
    go [] h = rw (==_refl c.next) refl
    go ((j, r) ∷ m) h = elim (Bool-cases (j == c.next)) [
      | inl e ↦ absurd (ground (arith, ==_iff j c.next))
      | inr e ↦ rw e (rw e (ap (λ t. (j, r) ∷ t) (go m h.1)))
    ]

-- What becomes of a tracker between a reservation and its end, if nothing else happens.
pub commit-reserved :
    (c : Capacity) (req : Amounts)
    → IsValid c
    → commit c.next (reserved req c) ≡ record c { base = c.base ⊕ req; next = c.next + 1 }
unfolding commit
commit-reserved c req v = rw (get-put_self c.next req c.resv, delete-put_fresh c req v) refl

pub commit_base-reserved :
    (c : Capacity) (b req : Amounts)
    → IsValid c
    → commit_base b c.next (reserved req c) ≡ record c { base = b; next = c.next + 1 }
unfolding commit_base
commit_base-reserved c b req v = rw (delete-put_fresh c req v) refl

pub release-reserved :
    (c : Capacity) (req : Amounts)
    → IsValid c
    → release c.next (reserved req c) ≡ record c { next = c.next + 1 }
unfolding release
release-reserved c req v = rw (delete-put_fresh c req v) refl

-- A limit part is respected if it is 0, which does not bind, or at least the amount.
abbrev pub Within : ℕ → ℕ → Type 0
Within amount limit = (limit ≡ 0) ⊎ (amount ≤ limit)

pub record IsWithin (a limit : Amounts) : Type 0 where
  pub cpu : Within a.cpu limit.cpu
  pub mem : Within a.mem limit.mem
  pub disk : Within a.disk limit.disk

pub fits→IsWithin :
    (c : Capacity) (req : Amounts) → fits c req ≡ true → IsWithin (used c ⊕ req) c.limit
unfolding fits
fits→IsWithin c req h = ground arith

pub IsWithin→fits :
    (c : Capacity) (req : Amounts) → IsWithin (used c ⊕ req) c.limit → fits c req ≡ true
unfolding fits
IsWithin→fits c req h = ground arith

used-put_fresh : (c : Capacity) (req : Amounts) → IsValid c → used (reserved req c) ≡ used c ⊕ req
used-put_fresh c req v = cc (
  used-eq c,
  used-eq (reserved req c),
  total-put_fresh c.next req c.resv v.ids_below,
  ⊕_assoc c.base (total c.resv) req,
)

-- What a granted reservation promises.
pub record Admitted (c : Capacity) (req : Amounts) (id : ℕ) (c' : Capacity) : Type 0 where
  pub charged : used c' ≡ used c ⊕ req
  pub within : IsWithin (used c') c.limit
  pub same_limit : c'.limit ≡ c.limit
  pub fresh : get id c.resv ≡ none
  pub held : (j : ℕ) → get j c'.resv ≡ (if id == j then some req else get j c.resv)

KeysBelow-get : (n : ℕ) (m : Map ℕ Amounts) → KeysBelow n m → get n m ≡ none
unfolding get
KeysBelow-get n [] h = refl
KeysBelow-get n ((j, w) ∷ m) h = ground (arith, KeysBelow-get n m h.1, ==_iff j n)

pub reserved-Admitted :
    (c : Capacity) (req : Amounts)
    → IsValid c
    → fits c req ≡ true
    → Admitted c req c.next (reserved req c)
reserved-Admitted c req v f = record {
  charged = used-put_fresh c req v;
  within = rw (used-put_fresh c req v) (fits→IsWithin c req f);
  same_limit = refl;
  fresh = KeysBelow-get c.next c.resv v.ids_below;
  held = λ j. get-put c.next j req c.resv;
}

-- A granted reservation, from a well-formed tracker: the accounted total grows by exactly the
-- request and stays within the limits, the limits are kept, and the returned id was free, now holds
-- the request and disturbs no other reservation.
pub try_reserve-Admitted :
    (c c' : Capacity) (req : Amounts) (id : ℕ)
    → IsValid c
    → try_reserve req c ≡ (c', some id)
    → Admitted c req id c'
unfolding try_reserve
try_reserve-Admitted c c' req id v h = elim (Bool-cases (fits c req)) [
  | inl e ↦
      subst (λ (r : Capacity × Option ℕ). Admitted c req (get_or r.1 0) r.0) (rw e at h)
        (reserved-Admitted c req v e)
  | inr e ↦ cc (rw e at h)
]

-- A reservation is refused, with nothing changed, exactly when the total with the request would
-- exceed a binding limit.
pub try_reserve_refused :
    (c : Capacity) (req : Amounts)
    → (try_reserve req c ≡ (c, none)) ↔ (¬ IsWithin (used c ⊕ req) c.limit)
unfolding try_reserve
try_reserve_refused c req = elim (Bool-cases (fits c req)) [
  | inl e ↦ ((λ h. cc (rw e at h)), (λ h. absurd (h (fits→IsWithin c req e))))
  | inr e ↦ ((λ h w. cc (e, IsWithin→fits c req w)), (λ h. rw e refl))
]

-- On a well-formed tracker, promoting a reservation into the base leaves the accounted total as it
-- was, for an unknown id too, and leaves no reservation under the id.
pub used-commit :
    (c : Capacity) (id : ℕ)
    → IsValid c
    → (used (commit id c) ≡ used c) × (get id (commit id c).resv ≡ none)
unfolding commit
used-commit c id v = elim (Option-cases (get id c.resv)) [
  | inl e ↦ rw e (refl, e)
  | inr (r, e) ↦ rw e (
    cc (
      used-eq c,
      used-eq (record c { base = c.base ⊕ r; resv = delete id c.resv }),
      ⊕_assoc c.base r (total (delete id c.resv)),
      ⊕_comm r (total (delete id c.resv)),
      total-delete id c.resv r v.is_map e,
    ),
    get-delete_self id c.resv,
  )
]

-- On a well-formed tracker, releasing a reservation takes exactly what it held off the accounted
-- total, which is nothing for an unknown id.
pub used-release :
    (c : Capacity) (id : ℕ)
    → IsValid c
    → used (release id c) ⊕ get_or (get id c.resv) nothing ≡ used c
unfolding release
used-release c id v = elim (Option-cases (get id c.resv)) [
  | inl e ↦ rw (e, delete-missing id c.resv e) (⊕_nothing (used c))
  | inr (r, e) ↦ rw e (
      cc (
        used-eq c,
        used-eq (record c { resv = delete id c.resv }),
        ⊕_assoc c.base (total (delete id c.resv)) r,
        total-delete id c.resv r v.is_map e,
      ))
]

-- On a well-formed tracker, replacing the base and dropping a reservation leaves the new base and
-- every other reservation in the accounted total, each once.
pub used-commit_base :
    (c : Capacity) (base : Amounts) (id : ℕ)
    → IsValid c
    → used (commit_base base id c) ⊕ get_or (get id c.resv) nothing ≡ base ⊕ total c.resv
unfolding commit_base
used-commit_base c base id v = elim (Option-cases (get id c.resv)) [
  | inl e ↦ rw (e, delete-missing id c.resv e) (⊕_nothing _ ∙ used-eq (record c { base = base }))
  | inr (r, e) ↦ rw e (
      cc (
        used-eq (record c { base = base; resv = delete id c.resv }),
        ⊕_assoc base (total (delete id c.resv)) r,
        total-delete id c.resv r v.is_map e,
      ))
]
