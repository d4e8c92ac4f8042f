-- ===== src/Planning/Acyclic.antt =====
-- Paths of a graph of dependencies, and lists of its nodes from which no path comes back.
use mathlib.Core.Path.{subst}
use local_first_orchestrator.Base.{
  String, ◌≡◌, ◌⊎◌, refl, sym, Bool-cases, inl, inr, true, false, none, some, List, [], ◌∷◌, str_eq,
  eq_iff, eq_refl, contains,
}
use local_first_orchestrator.Planning.Graph.{Graph, lookup}

pub record Edge (g : Graph) (a b : String) : Type 0 where
  pub deps : List String
  pub known : lookup a g ≡ some deps
  pub listed : contains b deps ≡ true

-- A path of one edge at least
pub data Reach (g : Graph) (a : String) : String → Type 0 where
  one : {b : String} → Edge g a b → Reach g a b
  more : {b c : String} → Reach g a b → Edge g b c → Reach g a c

-- A node without dependencies, or one of those that are done.
abbrev pub Safe : Graph → List String → String → Type 0
Safe g done d = (lookup d g ≡ none) ⊎ (contains d done ≡ true)

-- Each node depends on nodes only that were done before it.
pub data Sorted (g : Graph) : List String → Type 0 where
  none_done : Sorted g []
  one_done :
      {n : String} {done : List String}
      → contains n done ≡ false
      → ((d : String) → Edge g n d → Safe g done d)
      → Sorted g done
      → Sorted g (n ∷ done)

pub contains-cons :
    (x n : String) (ns : List String) → contains x ns ≡ true → contains x (n ∷ ns) ≡ true
contains-cons x n ns h = elim (Bool-cases (str_eq n x)) [ inl e ↦ rw e refl | inr e ↦ rw e h ]

pub contains-head : (n : String) (ns : List String) → contains n (n ∷ ns) ≡ true
contains-head n ns = let e = eq_refl n in rw e refl

pub contains-cases :
    (x n : String) (ns : List String)
    → contains x (n ∷ ns) ≡ true
    → (n ≡ x) ⊎ (contains x ns ≡ true)
contains-cases x n ns h = elim (Bool-cases (str_eq n x)) [
  | inl e ↦ inl ((eq_iff n x).0 e)
  | inr e ↦ inr (rw e at h)
]

pub Safe-cons :
    (g : Graph) (d n : String) (done : List String) → Safe g done d → Safe g (n ∷ done) d
Safe-cons g d n done (inl h) = inl h
Safe-cons g d n done (inr h) = inr (contains-cons d n done h)

Edge-known : {g : Graph} {a b : String} → Edge g a b → lookup a g ≡ none → ⊥
Edge-known e h = let k = e.known in cc

module _ {g : Graph} where
  Sorted-closed :
      {done : List String} {a b : String}
      → Sorted g done
      → contains a done ≡ true
      → Edge g a b
      → Safe g done b
  Sorted-closed none_done h e = absurd (cc)
  Sorted-closed {a = a} {b} (one_done {n} {done} fresh closed s) h e =
      elim (contains-cases a n done h) [
        | inl same ↦ Safe-cons g b n done (closed b (subst (λ x. Edge g x b) (sym same) e))
        | inr h' ↦ Safe-cons g b n done (Sorted-closed s h' e)
      ]

  Sorted-stays :
      {done : List String} {a b : String}
      → Sorted g done
      → contains a done ≡ true
      → Reach g a b
      → Safe g done b
  Sorted-stays s h (one e) = Sorted-closed s h e
  Sorted-stays s h (more p e) = elim (Sorted-stays s h p) [
    | inl unknown ↦ absurd (Edge-known e unknown)
    | inr h' ↦ Sorted-closed s h' e
  ]

  -- The node that a path of one edge at least starts from is known.
  pub Reach-known : {a b : String} → Reach g a b → lookup a g ≡ none → ⊥
  Reach-known (one e) h = Edge-known e h
  Reach-known (more p e) h = Reach-known p h

  -- What a path from the newest node leads to was done before it.
  newest-Safe :
      {n : String} {done : List String} {b : String}
      → ((d : String) → Edge g n d → Safe g done d)
      → Sorted g done
      → Reach g n b
      → Safe g done b
  newest-Safe closed s (one {b} e) = closed b e
  newest-Safe closed s (more p e) = elim (newest-Safe closed s p) [
    | inl unknown ↦ absurd (Edge-known e unknown)
    | inr h' ↦ Sorted-closed s h' e
  ]

  pub Sorted-acyclic :
      {done : List String} {a : String} → Sorted g done → contains a done ≡ true → Reach g a a → ⊥
  Sorted-acyclic none_done h p = absurd (cc)
  Sorted-acyclic {a = a} (one_done {n} {done} fresh closed s) h p =
      elim (contains-cases a n done h) [
        | inr h' ↦ Sorted-acyclic s h' p
        | inl same ↦
            let p' : Reach g n n = subst (λ x. Reach g x x) (sym same) p in
            elim (newest-Safe closed s p') [
              | inl unknown ↦ Reach-known p' unknown
              | inr h' ↦ absurd (cc)
            ]
      ]
