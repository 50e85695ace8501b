-- ===== src/GitProvider/GerritReplies/Gathered.antt =====
-- internal/gitprovider/gerrit_review.go: what the replies make to be posted on each file.
use mathlib.Core.List.{append_assoc, append-nil}
use mathlib.Core.Option.{get_or}
use sbx_swarm_node.Prelude.{
  ◌≡◌, refl, sym, ap, ◌∙◌, ℕ, ◌+◌, ◌<◌, ◌++◌, ==_iff, All, IsMap, Option, codes, Bool, true, false,
  not, ◌&&◌, List, [], ◌∷◌, none, some, Text, text_eq, ◌==◌, Map, get, any, keep, length, is_some,
  Result, ok, err, arith, Bool-cases, Option-cases, inl, inr, if◌then◌else◌, length-append,
}
use mathlib.Core.Bool.{false≢true}
use sbx_swarm_node.GitProvider.Strategies.{Error}
use sbx_swarm_node.GitProvider.Threads.{GerritThread}
use sbx_swarm_node.GitProvider.Reviews.{Reply, GerritCommentInput}
use sbx_swarm_node.GitProvider.GerritReplies.{
  Inputs, input_for, append_input, add_input, then_inputs, inputs_from,
}

abbrev pub has_body : Reply → Bool
has_body r = not (r.body == [])

-- The reply has something to say to a thread that is not there.
abbrev pub is_lost : Map Text GerritThread → Reply → Bool
is_lost threads r = has_body r && not (is_some (get r.thread_id threads))

abbrev is_ok : {E A : Type 0} → Result E A → Bool
is_ok (ok _) = true
is_ok (err _) = false

-- How many comments are to be posted.
abbrev pub total : Inputs → ℕ
total [] = 0
total ((_, cis) ∷ inputs) = length cis + total inputs

total-append_input :
    (path : Text) (ci : GerritCommentInput) (inputs : Inputs)
    → total (append_input path ci inputs) ≡ total inputs + 1
unfolding append_input
total-append_input path ci [] = omega arith
total-append_input path ci ((p, cis) ∷ inputs) = elim (Bool-cases (p == path)) [
  | inl same ↦ rw same (omega (arith, length-append cis (ci ∷ [])))
  | inr other ↦ rw other (omega (arith, total-append_input path ci inputs))
]

-- The comments to post on a file.
abbrev pub at_path : Text → Inputs → List GerritCommentInput
at_path path inputs = get_or (get path inputs) []

at_path-append_input :
    (path p : Text) (ci : GerritCommentInput) (inputs : Inputs)
    → at_path path (append_input p ci inputs)
      ≡ (if p == path then at_path path inputs ++ ci ∷ [] else at_path path inputs)
unfolding append_input get
at_path-append_input path p ci [] = ground (arith, ==_iff p path)
at_path-append_input path p ci ((q, cis) ∷ inputs) =
    ground (arith, ==_iff p path, ==_iff q p, ==_iff q path, at_path-append_input path p ci inputs)

-- One entry for each file, none without a comment.
pub record IsTidy (inputs : Inputs) : Type 0 where
  pub apart : IsMap inputs
  pub full : All (λ e. 0 < length e.1) inputs

append_input-other :
    (k path : Text) (ci : GerritCommentInput) (inputs : Inputs)
    → (path == k) ≡ false
    → All (λ e. (e.0 == k) ≡ false) inputs
    → All (λ e. (e.0 == k) ≡ false) (append_input path ci inputs)
unfolding append_input
append_input-other k path ci [] n h = (n, tt)
append_input-other k path ci ((p, cis) ∷ inputs) n h = elim (Bool-cases (p == path)) [
  | inl same ↦ rw same (h.0, h.1)
  | inr other ↦ rw other (h.0, append_input-other k path ci inputs n h.1)
]

append_input-IsMap :
    (path : Text) (ci : GerritCommentInput) (inputs : Inputs)
    → IsMap inputs
    → IsMap (append_input path ci inputs)
unfolding append_input
append_input-IsMap path ci [] h = (tt, tt)
append_input-IsMap path ci ((p, cis) ∷ inputs) h = elim (Bool-cases (p == path)) [
  | inl same ↦ rw same (h.0, h.1)
  | inr other ↦ rw other (
    append_input-other p path ci inputs (ground (arith, other, ==_iff p path, ==_iff path p)) h.0,
    append_input-IsMap path ci inputs h.1,
  )
]

append_input-full :
    (path : Text) (ci : GerritCommentInput) (inputs : Inputs)
    → All (λ e. 0 < length e.1) inputs
    → All (λ e. 0 < length e.1) (append_input path ci inputs)
unfolding append_input
append_input-full path ci [] h = (omega arith, tt)
append_input-full path ci ((p, cis) ∷ inputs) h = elim (Bool-cases (p == path)) [
  | inl same ↦ rw same (omega (arith, length-append cis (ci ∷ [])), h.1)
  | inr other ↦ rw other (h.0, append_input-full path ci inputs h.1)
]

append_input-IsTidy :
    (path : Text) (ci : GerritCommentInput) (inputs : Inputs)
    → IsTidy inputs
    → IsTidy (append_input path ci inputs)
append_input-IsTidy path ci inputs h = record {
  apart = append_input-IsMap path ci inputs h.apart;
  full = append_input-full path ci inputs h.full;
}

-- What a reply says to a thread: its body, in answer to the thread's latest comment, at the line of the
-- thread unless it is one of the whole patchset, and left open unless the reply resolves it.
abbrev pub said : GerritThread → Reply → GerritCommentInput
said t r = record {
  in_reply_to = t.latest_id;
  line = if t.path == codes "/PATCHSET_LEVEL" then 0 else t.line;
  message = r.body;
  unresolved = not r.resolve;
}

-- The replies with a body to the threads of a file, in their order.
abbrev pub said_at : Map Text GerritThread → Text → List Reply → List GerritCommentInput
said_at threads path [] = []
said_at threads path (r ∷ rs) = to (get r.thread_id threads) (said_at threads path rs)
  where
    to : Option GerritThread → List GerritCommentInput → List GerritCommentInput
    to none rest = rest
    to (some t) rest = if has_body r && t.path == path then said t r ∷ rest else rest

module _ (threads : Map Text GerritThread) (r : Reply) (rs : List Reply) where
  after : Result Error Inputs → Result Error Inputs
  after m = then_inputs m (λ more. inputs_from threads more rs)

  step : Inputs → Bool → Result Error Inputs
  step inputs b = after (if b then ok inputs else add_input r inputs (get r.thread_id threads))

  inputs_from-empty :
      (inputs : Inputs)
      → (r.body == []) ≡ true
      → inputs_from threads inputs (r ∷ rs) ≡ inputs_from threads inputs rs
  unfolding inputs_from step after
  inputs_from-empty inputs h = ap (step inputs) h

  inputs_from-missing :
      (inputs : Inputs)
      → (r.body == []) ≡ false
      → get r.thread_id threads ≡ none
      → (e : Error) × (inputs_from threads inputs (r ∷ rs) ≡ err e)
  unfolding inputs_from step after add_input
  inputs_from-missing inputs h k =
      (_, ap (step inputs) h ∙ ap (λ t. after (add_input r inputs t)) k)

  inputs_from-known :
      (inputs : Inputs) (t : GerritThread)
      → (r.body == []) ≡ false
      → get r.thread_id threads ≡ some t
      → inputs_from threads inputs (r ∷ rs)
        ≡ inputs_from threads (append_input t.path (input_for t r) inputs) rs
  unfolding inputs_from step after add_input
  inputs_from-known inputs t h k = ap (step inputs) h ∙ ap (λ o. after (add_input r inputs o)) k

module _ (threads : Map Text GerritThread) where
  pub inputs_from-lost :
      (inputs : Inputs) (rs : List Reply)
      → any (is_lost threads) rs ≡ true
      → (e : Error) × (inputs_from threads inputs rs ≡ err e)
  inputs_from-lost inputs [] h = absurd (false≢true h)
  inputs_from-lost inputs (r ∷ rs) h = elim (Bool-cases (r.body == [])) [
    | inl empty ↦
        let (e, found) = inputs_from-lost inputs rs (ground (arith, h, empty)) in
        (e, inputs_from-empty threads r rs inputs empty ∙ found)
    | inr full ↦ elim (Option-cases (get r.thread_id threads)) [
      | inl missing ↦ inputs_from-missing threads r rs inputs full missing
      | inr (t, found) ↦
          let known : is_lost threads r ≡ false = ground (arith, full, found) in
          let (e, rest) =
            inputs_from-lost (append_input t.path (input_for t r) inputs) rs
              (ground (arith, h, known)) in
          (e, inputs_from-known threads r rs inputs t full found ∙ rest)
    ]
  ]

  said_at-empty :
      (r : Reply) (rs : List Reply) (path : Text)
      → (r.body == []) ≡ true
      → said_at threads path (r ∷ rs) ≡ said_at threads path rs
  said_at-empty r rs path h = elim (Option-cases (get r.thread_id threads)) [
    | inl missing ↦ rw missing refl
    | inr (t, found) ↦ rw (found, h) refl
  ]

  said_at-known :
      (r : Reply) (rs : List Reply) (t : GerritThread) (inputs : Inputs) (path : Text)
      → (r.body == []) ≡ false
      → get r.thread_id threads ≡ some t
      → at_path path inputs ++ said_at threads path (r ∷ rs)
        ≡ at_path path (append_input t.path (input_for t r) inputs) ++ said_at threads path rs
  unfolding input_for
  said_at-known r rs t inputs path full found =
      let before = at_path path inputs in
      let rest = said_at threads path rs in
      elim (Bool-cases (t.path == path)) [
        | inl here ↦
            let added : at_path path (append_input t.path (said t r) inputs)
                ≡ before ++ said t r ∷ [] =
              at_path-append_input path t.path (said t r) inputs ∙ rw here refl in
            rw (found, full, here)
              (sym (append_assoc before (said t r ∷ []) rest) ∙ ap (λ x. x ++ rest) (sym added))
        | inr away ↦
            let kept : at_path path (append_input t.path (said t r) inputs) ≡ before =
              at_path-append_input path t.path (said t r) inputs ∙ rw away refl in
            rw (found, full, away) (ap (λ x. x ++ rest) (sym kept))
      ]

  pub inputs_from-total :
      (inputs : Inputs) (rs : List Reply)
      → any (is_lost threads) rs ≡ false
      → IsTidy inputs
      → (more : Inputs) × (inputs_from threads inputs rs ≡ ok more)
        × (total more ≡ total inputs + length (keep has_body rs))
        × IsTidy more
        × ((path : Text) → at_path path more ≡ at_path path inputs ++ said_at threads path rs)
  inputs_from-total inputs [] h tidy = (
    inputs,
    unfold inputs_from in refl,
    omega arith,
    tidy,
    λ path. sym (append-nil (at_path path inputs)),
  )
  inputs_from-total inputs (r ∷ rs) h tidy = elim (Bool-cases (r.body == [])) [
    | inl empty ↦
        let (more, e, n, neat, at) = inputs_from-total inputs rs (ground (arith, h, empty)) tidy in
        (
          more,
          inputs_from-empty threads r rs inputs empty ∙ e,
          ground (arith, n, empty),
          neat,
          λ path.
              at path ∙ ap (λ x. at_path path inputs ++ x) (sym (said_at-empty r rs path empty)),
        )
    | inr full ↦ elim (Option-cases (get r.thread_id threads)) [
      | inl missing ↦
          let lost : is_lost threads r ≡ true = ground (arith, full, missing) in
          absurd (false≢true (ground (arith, h, lost)))
      | inr (t, found) ↦
          let known : is_lost threads r ≡ false = ground (arith, full, found) in
          let (more, e, n, neat, at) =
            inputs_from-total (append_input t.path (input_for t r) inputs) rs
              (ground (arith, h, known)) (append_input-IsTidy t.path (input_for t r) inputs tidy) in
          (
            more,
            inputs_from-known threads r rs inputs t full found ∙ e,
            ground (arith, n, full, total-append_input t.path (input_for t r) inputs),
            neat,
            λ path. at path ∙ sym (said_at-known r rs t inputs path full found),
          )
    ]
  ]
