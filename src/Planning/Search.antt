-- ===== src/Planning/Search.antt =====
-- local_first_orchestrator/decomposition.py: what the depth-first search of a plan's dependencies knows
-- when it returns.
use mathlib.Core.Path.{subst}
use local_first_orchestrator.Base.{
  ℕ, ◌<◌, ◌≤◌, ◌+◌, String, ◌≡◌, ◌⊎◌, refl, sym, Bool, Bool-cases, inl, inr, true, false, Option,
  none, some, List, [], ◌∷◌, str_eq, eq_iff, Every, if◌then◌else◌, arith, contains,
}
use local_first_orchestrator.Planning.Graph.{Graph, lookup, any_of}
use local_first_orchestrator.Planning.Acyclic.{Reach, Safe, Sorted, contains-cons, contains-head}

-- Every element of a list is one of another.
pub record IsIncluded (xs ys : List String) : Type 0 where
  pub at : (x : String) → contains x xs ≡ true → contains x ys ≡ true

-- The keys that the search has not seen
abbrev pub unseen : Graph → List String → ℕ
unseen [] seen = 0
unseen ((k, deps) ∷ g) seen = (if contains k seen then 0 else 1) + unseen g seen

unseen-IsIncluded : (g : Graph) (s t : List String) → IsIncluded s t → unseen g t ≤ unseen g s
unseen-IsIncluded [] s t i = omega arith
unseen-IsIncluded ((k, deps) ∷ g) s t i =
    let rest = unseen-IsIncluded g s t i in
    elim (Bool-cases (contains k s)) [
      | inl e ↦ rw (e, i.at k e) (omega arith)
      | inr e ↦ elim (Bool-cases (contains k t)) [
        | inl f ↦ rw (e, f) (omega arith)
        | inr f ↦ rw (e, f) (omega arith)
      ]
    ]

pub cons-IsIncluded : (n : String) (s : List String) → IsIncluded s (n ∷ s)
cons-IsIncluded n s = record { at = λ x h. contains-cons x n s h }

other_key :
    (k n : String) (s : List String) → str_eq k n ≡ false → contains k (n ∷ s) ≡ contains k s
other_key k n s e = elim (Bool-cases (str_eq n k)) [
  | inl f ↦ absurd (let f' : str_eq k n ≡ true = (eq_iff k n).1 (sym ((eq_iff n k).0 f)) in cc)
  | inr f ↦ rw f refl
]

pub unseen-cons :
    (g : Graph) (n : String) (s : List String) {deps : List String}
    → lookup n g ≡ some deps
    → contains n s ≡ false
    → unseen g (n ∷ s) < unseen g s
unseen-cons [] n s known new = absurd (cc)
unseen-cons ((k, old) ∷ g) n s known new =
    let rest = unseen-IsIncluded g s (n ∷ s) (cons-IsIncluded n s) in
    elim (Bool-cases (str_eq k n)) [
      | inl e ↦
          let same = (eq_iff k n).0 e in
          let here : contains k (n ∷ s) ≡ true =
            subst (λ x. contains x (n ∷ s) ≡ true) (sym same) (contains-head n s) in
          let new' : contains k s ≡ false = subst (λ x. contains x s ≡ false) (sym same) new in
          rw (here, new') (omega arith)
      | inr e ↦
          let less = unseen-cons g n s (rw e at known) new in
          let kept = other_key k n s e in rw kept (omega arith)
    ]

pub record IsCyclic (g : Graph) : Type 0 where
  pub node : String
  pub path : Reach g node node

-- What has been seen is on the way from the start, or done.
pub record IsTracked (g : Graph) (visiting seen done : List String) : Type 0 where
  pub place :
      (x : String)
      → contains x seen ≡ true
      → (contains x visiting ≡ true) ⊎ (contains x done ≡ true)
  pub done_seen : IsIncluded done seen
  pub sorted : Sorted g done

-- There is a path to a node from each of those that are visited.
pub record IsTrail (g : Graph) (visiting : List String) (n : String) : Type 0 where
  pub path : (x : String) → contains x visiting ≡ true → Reach g x n

-- After nodes were searched without a cycle: each of them is safe, and nothing that had been seen before
-- is done since.
pub record IsClear (g : Graph) (visiting ns seen done seen' : List String) : Type 0 where
  pub done' : List String
  pub tracked : IsTracked g visiting seen' done'
  pub seen_grows : IsIncluded seen seen'
  pub done_grows : IsIncluded done done'
  pub fresh :
      (x : String) → contains x done' ≡ true → (contains x done ≡ true) ⊎ (contains x seen ≡ false)
  pub safe : Every (Safe g done') ns

-- The search ends, and finds a cycle, or none.
abbrev pub Found :
    Graph
    → List String
    → List String
    → List String
    → List String
    → Option (Bool × List String)
    → Type 0
Found g visiting ns seen done none = ⊥
Found g visiting ns seen done (some (true, seen')) = IsCyclic g
Found g visiting ns seen done (some (false, seen')) = IsClear g visiting ns seen done seen'

pub not_seen_before :
    {s t : List String} (x : String) → IsIncluded s t → contains x t ≡ false → contains x s ≡ false
not_seen_before {s} x i h = elim (Bool-cases (contains x s)) [
  | inl e ↦ absurd (let e' = i.at x e in cc)
  | inr e ↦ e
]

pub Safe-grows :
    (g : Graph) (d : String) {s t : List String} → IsIncluded s t → Safe g s d → Safe g t d
Safe-grows g d i (inl h) = inl h
Safe-grows g d i (inr h) = inr (i.at d h)

module _ (g : Graph) (visiting : List String) (fuel : ℕ) (Q : String → Type 0)
    (search : String → List String → Option (Bool × List String))
    (found : (d : String) (seen done : List String)
      → Q d
      → IsTracked g visiting seen done
      → unseen g seen < fuel
      → Found g visiting (d ∷ []) seen done (search d seen)) where
  abbrev Continued :
      String → List String → List String → List String → Option (Bool × List String) → Type 0
  Continued d ds seen done r =
      Found g visiting (d ∷ ds) seen done (elim r as (λ _. Option (Bool × List String)) [
        | none ↦ none
        | some (true, seen') ↦ some (true, seen')
        | some (false, seen') ↦ any_of search ds seen'
      ])

  -- The search of the rest, after the first was clear.
  both-IsClear :
      (d : String) {ds seen done seen' seen'' : List String}
      (first : IsClear g visiting (d ∷ []) seen done seen')
      → IsClear g visiting ds seen' first.done' seen''
      → IsClear g visiting (d ∷ ds) seen done seen''
  both-IsClear d first rest = record {
    done' = rest.done';
    tracked = rest.tracked;
    seen_grows = record { at = λ x h. rest.seen_grows.at x (first.seen_grows.at x h) };
    done_grows = record { at = λ x h. rest.done_grows.at x (first.done_grows.at x h) };
    fresh = λ x h. elim (rest.fresh x h) [
      | inl old ↦ first.fresh x old
      | inr new ↦ inr (not_seen_before x first.seen_grows new)
    ];
    safe = (Safe-grows g d rest.done_grows first.safe.0, rest.safe);
  }

  both-Found :
      (d : String) (ds : List String) {seen done seen' : List String}
      (first : IsClear g visiting (d ∷ []) seen done seen') (r : Option (Bool × List String))
      → Found g visiting ds seen' first.done' r
      → Found g visiting (d ∷ ds) seen done r
  both-Found d ds first none f = f
  both-Found d ds first (some (true, _)) f = f
  both-Found d ds first (some (false, _)) rest = both-IsClear d first rest

  next-Found :
      (d : String) (ds seen done : List String) (r : Option (Bool × List String))
      → Found g visiting (d ∷ []) seen done r
      → unseen g seen < fuel
      → ((seen' done' : List String)
          → IsTracked g visiting seen' done'
          → unseen g seen' < fuel
          → Found g visiting ds seen' done' (any_of search ds seen'))
      → Continued d ds seen done r
  next-Found d ds seen done none f room rest = f
  next-Found d ds seen done (some (true, seen')) f room rest = f
  next-Found d ds seen done (some (false, seen')) first room rest =
      let less = unseen-IsIncluded g seen seen' first.seen_grows in
      both-Found d ds first (any_of search ds seen')
        (rest seen' first.done' first.tracked (omega arith))

  pub any_of-Found :
      (ds seen done : List String)
      → Every Q ds
      → IsTracked g visiting seen done
      → unseen g seen < fuel
      → Found g visiting ds seen done (any_of search ds seen)
  any_of-Found [] seen done q t room = record {
    done' = done;
    tracked = t;
    seen_grows = record { at = λ x h. h };
    done_grows = record { at = λ x h. h };
    fresh = λ x h. inl h;
    safe = tt;
  }
  any_of-Found (d ∷ ds) seen done q t room =
      next-Found d ds seen done (search d seen) (found d seen done q.0 t room) room
        (λ seen' done' t' room'. any_of-Found ds seen' done' q.1 t' room')
