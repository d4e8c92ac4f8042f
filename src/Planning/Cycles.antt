-- ===== src/Planning/Cycles.antt =====
-- local_first_orchestrator/decomposition.py: the search finds a cycle if there is one.
use local_first_orchestrator.Base.{
  ℕ, zero, suc, ◌<◌, ◌≤◌, String, ◌≡◌, ◌⊎◌, refl, Bool, Bool-cases, Option-cases, inl, inr, true,
  false, Option, none, some, List, [], ◌∷◌, str_eq, Every, arith, contains, count,
}
use local_first_orchestrator.Planning.Graph.{Graph, lookup, dfs}
use local_first_orchestrator.Planning.Acyclic.{Edge, Safe, none_done}
use local_first_orchestrator.Planning.Graph.{keys, has_cycle}
use local_first_orchestrator.Planning.Acyclic.{Reach-known, Sorted-acyclic}
use local_first_orchestrator.Planning.Search.{
  IsTracked, IsTrail, IsClear, Found, IsCyclic, unseen, unseen-cons, any_of-Found,
}
use local_first_orchestrator.Planning.Nodes.{
  Every-Edge, Every-contains, enter-IsTracked, enter-IsTrail, leave,
}

module _ (g : Graph) where
  left-Found :
      (visiting : List String) (n : String) (seen done : List String) {deps : List String}
      (r : Option (Bool × List String))
      → lookup n g ≡ some deps
      → contains n seen ≡ false
      → IsTracked g visiting seen done
      → Found g (n ∷ visiting) deps (n ∷ seen) done r
      → Found g visiting (n ∷ []) seen done r
  left-Found visiting n seen done none known new t f = f
  left-Found visiting n seen done (some (true, _)) known new t f = f
  left-Found visiting n seen done (some (false, _)) known new t f = leave g visiting n known new t f

  unchanged :
      (visiting : List String) (n : String) (seen done : List String)
      → IsTracked g visiting seen done
      → Safe g done n
      → IsClear g visiting (n ∷ []) seen done seen
  unchanged visiting n seen done t s = record {
    done' = done;
    tracked = t;
    seen_grows = record { at = λ x h. h };
    done_grows = record { at = λ x h. h };
    fresh = λ x h. inl h;
    safe = (s, tt);
  }

  dfs-Found :
      (fuel : ℕ) (visiting : List String) (n : String) (seen done : List String)
      → IsTrail g visiting n
      → IsTracked g visiting seen done
      → unseen g seen < fuel
      → Found g visiting (n ∷ []) seen done (dfs fuel g visiting n seen)
  unfolding dfs
  dfs-Found zero visiting n seen done trail t room = omega arith
  dfs-Found (suc fuel) visiting n seen done trail t room = elim (Option-cases (lookup n g)) [
    | inl e ↦ rw (Found, e) (unchanged visiting n seen done t (inl e))
    | inr (deps, e) ↦ elim (Bool-cases (contains n visiting)) [
      | inl v ↦ rw (Found, e, v) (record { node = n; path = trail.path n v })
      | inr v ↦ elim (Bool-cases (contains n seen)) [
        | inl s ↦
            rw (Found, e, v, s)
              (unchanged visiting n seen done t
                (elim (t.place n s) [ inl v' ↦ absurd (cc) | inr d ↦ inr d ]))
        | inr s ↦
            let less = unseen-cons g n seen e s in
            let inner =
              any_of-Found g (n ∷ visiting) fuel (Edge g n) (dfs fuel g (n ∷ visiting))
                (λ d seen' done' edge t' room'.
                  dfs-Found fuel (n ∷ visiting) d seen' done'
                    (enter-IsTrail g visiting n trail edge) t' room')
                deps (n ∷ seen) done (Every-Edge g n deps deps e (record { at = λ x h. h }))
                (enter-IsTracked g visiting n t s) (omega arith) in
            rw (Found, e, v, s) (left-Found visiting n seen done _ e s t inner)
      ]
    ]
  ]

  unseen_at_first : (h : Graph) → unseen h [] ≤ count h
  unseen_at_first [] = omega arith
  unseen_at_first ((k, deps) ∷ h) = let rest = unseen_at_first h in omega arith

  known_key :
      (h : Graph) (a : String) {deps : List String}
      → lookup a h ≡ some deps
      → contains a (keys h) ≡ true
  known_key [] a e = absurd (cc)
  known_key ((k, old) ∷ h) a e = elim (Bool-cases (str_eq k a)) [
    | inl s ↦ rw s refl
    | inr s ↦ rw s (known_key h a (rw s at e))
  ]

  Clear-acyclic : {seen' : List String} → IsClear g [] (keys g) [] [] seen' → IsCyclic g → ⊥
  Clear-acyclic c cycle = elim (Option-cases (lookup cycle.node g)) [
    | inl e ↦ Reach-known cycle.path e
    | inr (deps, e) ↦
        elim (Every-contains (Safe g c.done') (keys g) cycle.node c.safe
          (known_key g cycle.node e)) [
            | inl unknown ↦ Reach-known cycle.path unknown
            | inr done ↦ Sorted-acyclic c.tracked.sorted done cycle.path
          ]
  ]

  Answer : Option (Bool × List String) → Type 0
  Answer r =
      let found : Option Bool = elim r [ none ↦ none | some (bad, seen) ↦ some bad ] in
      ((found ≡ some true) × IsCyclic g) ⊎ ((found ≡ some false) × ¬ IsCyclic g)

  answer : (r : Option (Bool × List String)) → Found g [] (keys g) [] [] r → Answer r
  unfolding Answer
  answer none f = absurd f
  answer (some (true, seen')) f = inl (refl, f)
  answer (some (false, seen')) f = inr (refl, Clear-acyclic f)

-- The search of the dependencies ends within its fuel, and says that there is a cycle exactly if a path of
-- one dependency at least leads from a ticket back to it.
pub cycle_found :
    (g : Graph)
    → ((has_cycle g ≡ some true) × IsCyclic g) ⊎ ((has_cycle g ≡ some false) × ¬ IsCyclic g)
unfolding has_cycle Answer
cycle_found g =
    let start : IsTracked g [] [] [] = record {
      place = λ x h. absurd (cc);
      done_seen = record { at = λ x h. h };
      sorted = none_done;
    } in
    let top = unseen_at_first g g in
    answer g _ (
      any_of-Found g [] (suc (count g)) (λ n. IsTrail g [] n) (dfs (suc (count g)) g [])
        (λ d seen done trail t room. dfs-Found g (suc (count g)) [] d seen done trail t room)
        (keys g) [] [] (first_trails (keys g)) start (omega arith))
  where
    first_trails : (ns : List String) → Every (λ n. IsTrail g [] n) ns
    first_trails [] = tt
    first_trails (n ∷ ns) = (record { path = λ x h. absurd (cc) }, first_trails ns)
