-- ===== src/Planning/Nodes.antt =====
-- local_first_orchestrator/decomposition.py: entering and leaving a node in the search of dependencies.
use mathlib.Core.Path.{subst}
use mathlib.Core.Option.{some-injective}
use local_first_orchestrator.Base.{
  String, ◌≡◌, sym, ◌∙◌, Bool-cases, inl, inr, true, false, some, List, [], ◌∷◌, Every, contains,
}
use local_first_orchestrator.Planning.Graph.{Graph, lookup}
use local_first_orchestrator.Planning.Acyclic.{
  Edge, Reach, one, more, Safe, one_done, contains-cons, contains-head, contains-cases,
}
use local_first_orchestrator.Planning.Search.{
  IsIncluded, IsTracked, IsTrail, IsClear, not_seen_before, cons-IsIncluded,
}

pub Every-Edge :
    (g : Graph) (n : String) (deps ds : List String)
    → lookup n g ≡ some deps
    → IsIncluded ds deps
    → Every (Edge g n) ds
Every-Edge g n deps [] known i = tt
Every-Edge g n deps (d ∷ ds) known i = (
  record { deps = deps; known = known; listed = i.at d (contains-head d ds) },
  Every-Edge g n deps ds known (record { at = λ x h. i.at x (contains-cons x d ds h) }),
)

pub Every-contains :
    (P : String → Type 0) (ds : List String) (d : String) → Every P ds → contains d ds ≡ true → P d
Every-contains P [] d all h = absurd (cc)
Every-contains P (e ∷ ds) d all h = elim (contains-cases d e ds h) [
  | inl same ↦ subst P same all.0
  | inr h' ↦ Every-contains P ds d all.1 h'
]

module _ (g : Graph) (visiting : List String) (n : String) where
  pub enter-IsTracked :
      {seen done : List String}
      → IsTracked g visiting seen done
      → contains n seen ≡ false
      → IsTracked g (n ∷ visiting) (n ∷ seen) done
  enter-IsTracked {seen} t new = record {
    place = λ x h. elim (contains-cases x n seen h) [
      | inl same ↦
          inl (subst (λ y. contains y (n ∷ visiting) ≡ true) same (contains-head n visiting))
      | inr h' ↦ elim (t.place x h') [ inl v ↦ inl (contains-cons x n visiting v) | inr d ↦ inr d ]
    ];
    done_seen = record { at = λ x h. contains-cons x n seen (t.done_seen.at x h) };
    sorted = t.sorted;
  }

  pub enter-IsTrail : {d : String} → IsTrail g visiting n → Edge g n d → IsTrail g (n ∷ visiting) d
  enter-IsTrail {d} trail e = record {
    path = λ x h. elim (contains-cases x n visiting h) [
      | inl same ↦ subst (λ y. Reach g y d) same (one e)
      | inr v ↦ more (trail.path x v) e
    ];
  }

  -- When its dependencies were searched without a cycle, the node is done.
  pub leave :
      {deps seen done seen' : List String}
      → lookup n g ≡ some deps
      → contains n seen ≡ false
      → IsTracked g visiting seen done
      → IsClear g (n ∷ visiting) deps (n ∷ seen) done seen'
      → IsClear g visiting (n ∷ []) seen done seen'
  leave {deps} {seen} {done} {seen'} known new t c =
      let here = contains-head n seen in
      let not_done : contains n c.done' ≡ false = elim (Bool-cases (contains n c.done')) [
        | inr e ↦ e
        | inl e ↦ elim (c.fresh n e) [
          | inl old ↦ absurd (let s = t.done_seen.at n old in cc)
          | inr unseen_before ↦ absurd (cc)
        ]
      ] in
      record {
        done' = n ∷ c.done';
        tracked = record {
          place = λ x h. elim (c.tracked.place x h) [
            | inr d ↦ inr (contains-cons x n c.done' d)
            | inl v ↦ elim (contains-cases x n visiting v) [
              | inl same ↦
                  inr (subst (λ y. contains y (n ∷ c.done') ≡ true) same (contains-head n c.done'))
              | inr v' ↦ inl v'
            ]
          ];
          done_seen = record {
            at = λ x h. elim (contains-cases x n c.done' h) [
              | inl same ↦ c.seen_grows.at x (subst (λ y. contains y (n ∷ seen) ≡ true) same here)
              | inr d ↦ c.tracked.done_seen.at x d
            ];
          };
          sorted =
              one_done not_done
                (λ d e. Every-contains (Safe g c.done') deps d c.safe (
                  let same = some-injective _ _ (sym e.known ∙ known) in
                  subst (λ l. contains d l ≡ true) same e.listed))
                c.tracked.sorted;
        };
        seen_grows = record { at = λ x h. c.seen_grows.at x (contains-cons x n seen h) };
        done_grows = record { at = λ x h. contains-cons x n c.done' (c.done_grows.at x h) };
        fresh = λ x h. elim (contains-cases x n c.done' h) [
          | inl same ↦ inr (subst (λ y. contains y seen ≡ false) same new)
          | inr d ↦ elim (c.fresh x d) [
            | inl old ↦ inl old
            | inr f ↦ inr (not_seen_before x (cons-IsIncluded n seen) f)
          ]
        ];
        safe = (inr (contains-head n c.done'), tt);
      }
