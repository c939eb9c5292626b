-- ===== src/Transactions/Walk.antt =====
-- The search for a SQLSTATE ends, and finds one if there is one.
use innoprog_fastapi_deliver.Prelude.{
  ℕ, zero, suc, ◌+◌, ◌*◌, ◌≤◌, ◌≡◌, ◌⊎◌, inl, inr, refl, sym, subst, String, Bool, true, false,
  ◌||◌, Option, none, some, List, [], ◌∷◌, length, number_eq, text_eq, ◌==◌, is_value,
  if◌then◌else◌, arith, Bool-cases, Option-cases,
}
use innoprog_fastapi_deliver.Dict
use innoprog_fastapi_deliver.Transactions.{
  Raised, Heap, object, code_of, push, nested, seen_in, visit, walk, postgres_sqlstate,
  enough_passes,
}

-- whether an exception links to another
abbrev pub refers : Raised → ℕ → Bool
refers e y = is_value e.orig y || (is_value e.cause y || is_value e.context y)

-- The exceptions that links lead to from a first one.
pub data Reaches (heap : Heap) (first : ℕ) : ℕ → Type 0 where
  itself : Reaches heap first first
  link : (x y : ℕ) → Reaches heap first x → refers (object heap x) y ≡ true → Reaches heap first y

seen_in-push :
    (o : Option ℕ) (p : List ℕ) (y : ℕ) → seen_in (push o p) y ≡ (is_value o y || seen_in p y)
seen_in-push none p y = refl
seen_in-push (some x) p y = ground arith

seen_in-nested :
    (e : Raised) (p : List ℕ) (y : ℕ) → seen_in (nested e p) y ≡ (refers e y || seen_in p y)
seen_in-nested e p y = ground (
  arith,
  seen_in-push e.context (push e.cause (push e.orig p)) y,
  seen_in-push e.cause (push e.orig p) y,
  seen_in-push e.orig p y,
)

length-push : (o : Option ℕ) (p : List ℕ) → length (push o p) ≤ 1 + length p
length-push none p = omega arith
length-push (some x) p = omega arith

length-nested : (e : Raised) (p : List ℕ) → length (nested e p) ≤ 3 + length p
length-nested e p = omega (
  arith,
  length-push e.context (push e.cause (push e.orig p)),
  length-push e.cause (push e.orig p),
  length-push e.orig p,
)

-- the exceptions of the heap that were not visited yet
abbrev unseen : Heap → List ℕ → ℕ
unseen [] seen = 0
unseen ((k, e) ∷ heap) seen =
    let rest = unseen heap seen in if seen_in seen k then rest else suc rest

unseen-le : (heap : Heap) (seen : List ℕ) (x : ℕ) → unseen heap (x ∷ seen) ≤ unseen heap seen
unseen-le [] seen x = omega arith
unseen-le ((k, e) ∷ heap) seen x = ground (arith, unseen-le heap seen x)

unseen-lt :
    (heap : Heap) (seen : List ℕ) (x : ℕ) (e : Raised)
    → Dict.get x heap ≡ some e
    → seen_in seen x ≡ false
    → suc (unseen heap (x ∷ seen)) ≤ unseen heap seen
unfolding Dict.get
unseen-lt [] seen x e found new = absurd (ground (arith, found))
unseen-lt ((k, e') ∷ heap) seen x e found new = ground (
  arith,
  found,
  new,
  number_eq.same_iff k x,
  number_eq.same_iff x k,
  unseen-le heap seen x,
  unseen-lt heap seen x e,
)

unseen-all : (heap : Heap) (seen : List ℕ) → unseen heap seen ≤ length heap
unseen-all [] seen = omega arith
unseen-all ((k, e) ∷ heap) seen = ground (arith, unseen-all heap seen)

-- A pass pays for the links that it appends.
visit_pays :
    (heap : Heap) (x : ℕ) (seen pending : List ℕ)
    → let v = visit heap x seen pending in
      3 * unseen heap v.seen + length v.pending ≤ 3 * unseen heap seen + length pending
unfolding visit object
visit_pays heap x seen pending = elim (Bool-cases (seen_in seen x)) [
  | inl old ↦ ground (arith, old)
  | inr new ↦ elim (Option-cases (Dict.get x heap)) [
    | inl missing ↦ ground (arith, new, missing, unseen-le heap seen x)
    | inr (e, found) ↦ elim (Option-cases (code_of e)) [
      | inl no_code ↦
          ground
            (arith, new, found, no_code, unseen-lt heap seen x e found new, length-nested e pending)
      | inr (code, coded) ↦ ground (arith, new, found, coded, unseen-le heap seen x)
    ]
  ]
]

module _ (heap : Heap) (first : ℕ) where
  -- What a search answers: the code of an exception that is reached, or none if none of those has one.
  abbrev pub Answers : Option String → Type 0
  Answers answer =
      ((x : ℕ) × (value : String) × Reaches heap first x
        × (code_of (object heap x) ≡ some value)
        × (answer ≡ some value))
      ⊎ ((answer ≡ none) × ((x : ℕ) → Reaches heap first x → code_of (object heap x) ≡ none))

  -- Visited exceptions have no code, and their links are visited or pending.
  record IsSearch (seen pending : List ℕ) : Type 0 where
    begun : (seen_in seen first || seen_in pending first) ≡ true
    uncoded : (x : ℕ) → seen_in seen x ≡ true → code_of (object heap x) ≡ none
    closed :
        (x y : ℕ)
        → seen_in seen x ≡ true
        → refers (object heap x) y ≡ true
        → (seen_in seen y || seen_in pending y) ≡ true
    reached : (x : ℕ) → seen_in pending x ≡ true → Reaches heap first x

  all_seen :
      (seen : List ℕ) → IsSearch seen [] → (x : ℕ) → Reaches heap first x → seen_in seen x ≡ true
  all_seen seen h _ itself = ground (arith, h.begun)
  all_seen seen h _ (link x y r refer) = ground (arith, h.closed x y (all_seen seen h x r) refer)

  skip-IsSearch :
      (current : ℕ) (seen pending : List ℕ)
      → seen_in seen current ≡ true
      → IsSearch seen (current ∷ pending)
      → IsSearch seen pending
  skip-IsSearch current seen pending old h = record {
    begun = ground (arith, h.begun, old, number_eq.same_iff current first);
    uncoded = h.uncoded;
    closed = λ x y e refer. ground (arith, h.closed x y e refer, old, number_eq.same_iff current y);
    reached = λ x e. h.reached x (ground (arith, e));
  }

  mark-IsSearch :
      (current : ℕ) (seen pending : List ℕ)
      → code_of (object heap current) ≡ none
      → IsSearch seen (current ∷ pending)
      → IsSearch (current ∷ seen) (nested (object heap current) pending)
  mark-IsSearch current seen pending no_code h = record {
    begun = ground (arith, h.begun, seen_in-nested (object heap current) pending first);
    uncoded = λ x e. elim (Bool-cases (current == x)) [
      | inl same ↦
          subst (λ z. code_of (object heap z) ≡ none) ((number_eq.same_iff current x).0 same)
            no_code
      | inr other ↦ h.uncoded x (ground (arith, e, other))
    ];
    closed = λ x y e refer. elim (Bool-cases (current == x)) [
      | inl same ↦
          let linked : refers (object heap current) y ≡ true =
            subst (λ z. refers (object heap z) y ≡ true)
              (sym ((number_eq.same_iff current x).0 same)) refer in
          ground (arith, linked, seen_in-nested (object heap current) pending y)
      | inr other ↦ ground (
        arith,
        h.closed x y (ground (arith, e, other)) refer,
        seen_in-nested (object heap current) pending y,
      )
    ];
    reached = λ x e. elim (Bool-cases (refers (object heap current) x)) [
      | inl linked ↦
          link current x (h.reached current (ground (arith, number_eq.same_iff current current)))
            linked
      | inr unlinked ↦
          h.reached x (ground (arith, e, unlinked, seen_in-nested (object heap current) pending x))
    ];
  }

  walk_ends :
      (passes : ℕ) (seen pending : List ℕ)
      → 3 * unseen heap seen + length pending ≤ passes
      → IsSearch seen pending
      → (answer : Option String) × (walk heap passes seen pending ≡ some answer) × Answers answer
  unfolding walk visit
  walk_ends zero seen [] paid h = (none, refl, inr (refl, λ x r. h.uncoded x (all_seen seen h x r)))
  walk_ends (suc passes) seen [] paid h =
      (none, refl, inr (refl, λ x r. h.uncoded x (all_seen seen h x r)))
  walk_ends zero seen (current ∷ pending) paid h = absurd (omega (arith, paid))
  walk_ends (suc passes) seen (current ∷ pending) paid h =
      let pays = visit_pays heap current seen pending in
      elim (Bool-cases (seen_in seen current)) [
        | inl old ↦
            let (answer, ends, right) =
              walk_ends passes seen pending (ground (arith, paid, pays, old))
                (skip-IsSearch current seen pending old h) in
            (answer, ground (arith, old, ends), right)
        | inr new ↦ elim (Option-cases (code_of (object heap current))) [
          | inl no_code ↦
              let (answer, ends, right) =
                walk_ends passes (current ∷ seen) (nested (object heap current) pending)
                  (ground (arith, paid, pays, new, no_code))
                  (mark-IsSearch current seen pending no_code h) in
              (answer, ground (arith, new, no_code, ends), right)
          | inr (value, coded) ↦ (
            some value,
            ground (arith, new, coded),
            inl (
              current,
              value,
              h.reached current (ground (arith, number_eq.same_iff current current)),
              coded,
              refl,
            ),
          )
        ]
      ]

  -- The search for a SQLSTATE ends, however the exceptions link to each other: three passes for each
  -- of them and one more are enough. It answers with the code of an exception that links lead to from
  -- the first one, and with none only if none of those has a code.
  pub sqlstate_search_ends :
      (answer : Option String) × (postgres_sqlstate heap first ≡ some answer) × Answers answer
  unfolding postgres_sqlstate
  sqlstate_search_ends =
      walk_ends (enough_passes heap) [] (first ∷ []) (omega (arith, unseen-all heap [])) (record {
        begun = ground (arith, number_eq.same_iff first first);
        uncoded = λ x e. absurd (ground (arith, e));
        closed = λ x y e refer. absurd (ground (arith, e));
        reached = λ x e.
            subst (λ z. Reaches heap first z) ((number_eq.same_iff first x).0 (ground (arith, e)))
              itself;
      })
