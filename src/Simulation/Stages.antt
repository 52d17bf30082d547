-- ===== src/Simulation/Stages.antt =====
-- The order of the stages in a step.
use mathlib.Core.Path.{subst}
use spearhed.Base.{
  ◌≡◌, ◌⊎◌, refl, sym, ap, ◌∙◌, inl, inr, Bool, true, false, ◌&&◌, ◌||◌, some, List, [], ◌∷◌, ◌++◌,
  map, if◌then◌else◌, All, All-mono, Any, Bool-cases, eq_of_some,
}
use spearhed.Simulation.{
  movable, source, thermodynamic, Species, filter, has_roles, select_buffers,
  select_timestep_buffers, find_default, run_one_step, Stage, refresh, push_velocity,
  euler_integrate, update_volumes, calculate_neighbours, update_density, update_hydro_forces,
}

abbrev Before : Type 1
Before = Stage → Type 0

-- What must have been submitted before a stage, where the buffers of `moved` move and the forces
-- are those of `d` from `sources`: the refresh of the index that it runs on, and the stages whose
-- results it reads.
abbrev pub Needs : List Species → Species → List Species → Stage → Before → Type 0
Needs moved d sources (refresh s) before = Unit
Needs moved d sources (push_velocity s) before = before (refresh s)
Needs moved d sources (euler_integrate s) before =
    before (refresh s) × before (push_velocity s) × before (update_hydro_forces d sources)
Needs moved d sources update_volumes before = All (λ s. before (push_velocity s)) moved
Needs moved d sources (calculate_neighbours ss) before = before update_volumes
Needs moved d sources (update_density e ss) before =
    before (refresh e) × before (calculate_neighbours ss)
Needs moved d sources (update_hydro_forces e ss) before =
    before (refresh e) × before (update_density e ss)

module _ (moved : List Species) (d : Species) (sources : List Species) where
  abbrev pub IsOrdered : Before → List Stage → Type 0
  IsOrdered before [] = Unit
  IsOrdered before (x ∷ xs) =
      Needs moved d sources x before × IsOrdered (λ y. before y ⊎ (y ≡ x)) xs

  abbrev Wants : Stage → Before → Type 0
  Wants = Needs moved d sources

  Needs-mono : (x : Stage) (p q : Before) → ((y : Stage) → p y → q y) → Wants x p → Wants x q
  Needs-mono (refresh s) p q f h = h
  Needs-mono (push_velocity s) p q f h = f _ h
  Needs-mono (euler_integrate s) p q f h = (f _ h.0, f _ h.1, f _ h.2)
  Needs-mono update_volumes p q f h = All-mono (λ s n. f _ n) moved h
  Needs-mono (calculate_neighbours ss) p q f h = f _ h
  Needs-mono (update_density e ss) p q f h = (f _ h.0, f _ h.1)
  Needs-mono (update_hydro_forces e ss) p q f h = (f _ h.0, f _ h.1)

  IsOrdered-mono :
      (xs : List Stage) (p q : Before) → ((y : Stage) → p y → q y) → IsOrdered p xs → IsOrdered q xs
  IsOrdered-mono [] p q f h = tt
  IsOrdered-mono (x ∷ xs) p q f h = (
    Needs-mono x p q f h.0,
    IsOrdered-mono xs _ _ (λ y e. elim e [ inl a ↦ inl (f y a) | inr b ↦ inr b ]) h.1,
  )

  -- A stage for every buffer of a list, then the rest.
  IsOrdered-map :
      (f : Species → Stage) (ss : List Species) (rest : List Stage) (p : Before)
      → All (λ s. Wants (f s) p) ss
      → IsOrdered (λ y. p y ⊎ Any (λ s. y ≡ f s) ss) rest
      → IsOrdered p (map f ss ++ rest)
  IsOrdered-map f [] rest p all h =
      IsOrdered-mono rest _ _ (λ y e. elim e [ inl a ↦ a | inr b ↦ absurd b ]) h
  IsOrdered-map f (s ∷ ss) rest p all h = (
    all.0,
    IsOrdered-map f ss rest _ (All-mono (λ x n. Needs-mono (f x) _ _ (λ y a. inl a) n) ss all.1) (
        IsOrdered-mono rest _ _
          (λ y e. elim e [ inl a ↦ inl (inl a) | inr (inl b) ↦ inl (inr b) | inr (inr c) ↦ inr c ])
          h),
  )

  IsOrdered-map_last :
      (f : Species → Stage) (ss : List Species) (p : Before)
      → All (λ s. Wants (f s) p) ss
      → IsOrdered p (map f ss)
  IsOrdered-map_last f [] p all = tt
  IsOrdered-map_last f (s ∷ ss) p all = (
    all.0,
    IsOrdered-map_last f ss _ (All-mono (λ x n. Needs-mono (f x) _ _ (λ y a. inl a) n) ss all.1),
  )

abbrev Submitted : Stage → List Stage → Type 0
Submitted x stages = Any (λ y. x ≡ y) stages

Submitted-map :
    (f : Species → Stage) (ss : List Species) (rest : List Stage)
    → All (λ s. Submitted (f s) (map f ss ++ rest)) ss
Submitted-map f [] rest = tt
Submitted-map f (s ∷ ss) rest = (inl refl, All-mono (λ x h. inr h) ss (Submitted-map f ss rest))

Submitted-map_last :
    (f : Species → Stage) (ss : List Species) → All (λ s. Submitted (f s) (map f ss)) ss
Submitted-map_last f [] = tt
Submitted-map_last f (s ∷ ss) = (inl refl, All-mono (λ x h. inr h) ss (Submitted-map_last f ss))

Submitted-behind :
    (f : Species → Stage) (ss : List Species) (rest : List Stage) (x : Stage)
    → Submitted x rest
    → Submitted x (map f ss ++ rest)
Submitted-behind f [] rest x h = h
Submitted-behind f (s ∷ ss) rest x h = inr (Submitted-behind f ss rest x h)

if_true : {A : Type 0} (x y : A) (b : Bool) → b ≡ true → (if b then x else y) ≡ x
if_true x y b e = rw e refl

if_false : {A : Type 0} (x y : A) (b : Bool) → b ≡ false → (if b then x else y) ≡ y
if_false x y b e = rw e refl

abbrev In : Species → List Species → Type 0
In s ss = Any (λ x. s ≡ x) ss

filter_more :
    (q : Species → Bool) (x s : Species) (ss : List Species)
    → In x (filter q ss)
    → In x (filter q (s ∷ ss))
filter_more q x s ss h = elim (Bool-cases (q s)) [ inl e ↦ rw e (inr h) | inr e ↦ rw e h ]

filter_first :
    (q : Species → Bool) (s : Species) (ss : List Species) → q s ≡ true → In s (filter q (s ∷ ss))
filter_first q s ss e = rw e (inl refl)

All-unit : (ss : List Species) → All {0, 0} (λ s. Unit) ss
All-unit [] = tt
All-unit (s ∷ ss) = (tt, All-unit ss)

All-both :
    (P Q : Species → Type 0) (ss : List Species) → All P ss → All Q ss → All (λ s. P s × Q s) ss
All-both P Q [] a b = tt
All-both P Q (s ∷ ss) a b = ((a.0, b.0), All-both P Q ss a.1 b.1)

-- A selection lies in a wider one.
filter_within :
    (p q : Species → Bool) (ss : List Species)
    → ((s : Species) → p s ≡ true → q s ≡ true)
    → All (λ s. In s (filter q ss)) (filter p ss)
filter_within p q [] f = tt
filter_within p q (s ∷ ss) f =
    let more : All (λ x. In x (filter q (s ∷ ss))) (filter p ss) =
      All-mono (λ x h. filter_more q x s ss h) (filter p ss) (filter_within p q ss f) in
    elim (Bool-cases (p s)) [
      | inl e ↦
          subst (λ l. All (λ x. In x (filter q (s ∷ ss))) l) (sym (if_true _ _ (p s) e))
            (filter_first q s ss (f s e), more)
      | inr e ↦ subst (λ l. All (λ x. In x (filter q (s ∷ ss))) l) (sym (if_false _ _ (p s) e)) more
    ]

abbrev in_timestep : Species → Bool
in_timestep s = s.has_role movable || s.is_default

find_default-timestep :
    (ss : List Species) (d : Species) → find_default ss ≡ some d → In d (filter in_timestep ss)
unfolding find_default
find_default-timestep [] d e = absurd (cc e)
find_default-timestep (s ∷ ss) d e = elim (Bool-cases s.is_default) [
  | inl chosen ↦
      subst (λ k. In k (filter in_timestep (s ∷ ss)))
        (eq_of_some (sym (if_true _ _ s.is_default chosen) ∙ e))
        (filter_first in_timestep s ss (or_true (s.has_role movable) s.is_default chosen))
  | inr passed ↦
      filter_more in_timestep d s ss
        (find_default-timestep ss d (sym (if_false _ _ s.is_default passed) ∙ e))
]
  where
    or_true : (a b : Bool) → b ≡ true → (a || b) ≡ true
    or_true true b h = refl
    or_true false b h = h

Any-map :
    (f : Species → Stage) (s : Species) (ss : List Species)
    → Any (λ x. s ≡ x) ss
    → Any (λ x. f s ≡ f x) ss
Any-map f s [] h = absurd h
Any-map f s (x ∷ ss) (inl e) = inl (ap f e)
Any-map f s (x ∷ ss) (inr h) = inr (Any-map f s ss h)

or_first : (a b c : Bool) → (a && b) ≡ true → (a || c) ≡ true
or_first true b c h = refl
or_first false b c h = cc

and_shorter : (a b : Bool) → (a && (b && true)) ≡ true → (a && true) ≡ true
and_shorter true b h = refl
and_shorter false b h = h

module _ (buffers : List Species) where
  abbrev ts : List Species
  ts = filter in_timestep buffers

  abbrev movs : List Species
  movs = filter (has_roles (movable ∷ [])) buffers

  abbrev ints : List Species
  ints = filter (has_roles (movable ∷ thermodynamic ∷ [])) buffers

  pushed : All (λ s. In s ts) movs
  pushed =
      filter_within (has_roles (movable ∷ [])) in_timestep buffers
        (λ s h. or_first (s.has_role movable) true s.is_default h)

  integrated : All (λ s. In s ts × In s movs) ints
  integrated =
      All-both (λ s. In s ts) (λ s. In s movs) ints
        (filter_within (has_roles (movable ∷ thermodynamic ∷ [])) in_timestep buffers
          (λ s h. or_first (s.has_role movable) (s.has_role thermodynamic && true) s.is_default h))
        (filter_within (has_roles (movable ∷ thermodynamic ∷ [])) (has_roles (movable ∷ [])) buffers
          (λ s h. and_shorter (s.has_role movable) (s.has_role thermodynamic) h))

  abbrev none_before : Before
  none_before y = ⊥

  abbrev rest : Species → List Species → List Stage
  rest d sources =
      update_volumes
      ∷ calculate_neighbours sources
      ∷ update_density d sources
      ∷ update_hydro_forces d sources
      ∷ map euler_integrate ints

  ordered :
      (d : Species) (sources : List Species)
      → In d ts
      → IsOrdered movs d sources none_before
          (map refresh ts ++ (map push_velocity movs ++ rest d sources))
  ordered d sources default_in =
      IsOrdered-map movs d sources refresh ts (map push_velocity movs ++ rest d sources) none_before
        (All-unit ts)
        (IsOrdered-map movs d sources push_velocity movs (rest d sources)
          (λ y. none_before y ⊎ Any (λ s. y ≡ refresh s) ts)
          (All-mono (λ s h. inr (Any-map refresh s ts h)) movs pushed)
          (
            All-mono (λ s h. inr (Any-map push_velocity s movs h)) movs (all_in movs),
            (
              inr refl,
              (
                (inl (inl (inl (inr (Any-map refresh d ts default_in)))), inr refl),
                (
                  (inl (inl (inl (inl (inr (Any-map refresh d ts default_in))))), inr refl),
                  IsOrdered-map_last movs d sources euler_integrate ints _ (
                      All-mono
                        (λ s h. (
                          inl (inl (inl (inl (inl (inr (Any-map refresh s ts h.0)))))),
                          inl (inl (inl (inl (inr (Any-map push_velocity s movs h.1))))),
                          inr refl,
                        ))
                        ints integrated),
                ),
              ),
            ),
          ))
    where
      all_in : (ss : List Species) → All (λ s. In s ss) ss
      all_in [] = tt
      all_in (s ∷ ss) = (inl refl, All-mono (λ x h. inr h) ss (all_in ss))

  -- Every stage of a step is submitted.
  pub record IsComplete (d : Species) (stages : List Stage) : Type 0 where
    pub refreshed : All (λ s. Submitted (refresh s) stages) (select_timestep_buffers buffers)
    pub moved :
        All (λ s. Submitted (push_velocity s) stages) (select_buffers (movable ∷ []) buffers)
    pub bounded : Submitted update_volumes stages
    pub met :
        Submitted (calculate_neighbours (select_buffers (source ∷ []) buffers)) stages
        × Submitted (update_density d (select_buffers (source ∷ []) buffers)) stages
        × Submitted (update_hydro_forces d (select_buffers (source ∷ []) buffers)) stages
    pub advanced :
        All
          (λ s. Submitted (euler_integrate s) stages)
          (select_buffers (movable ∷ thermodynamic ∷ []) buffers)

  complete :
      (d : Species)
      → IsComplete d (
          map refresh ts
          ++ (map push_velocity movs ++ rest d (select_buffers (source ∷ []) buffers)))
  unfolding select_buffers select_timestep_buffers
  complete d =
      let sources = select_buffers (source ∷ []) buffers in
      let behind : (x : Stage)
          → Submitted x (rest d sources)
          → Submitted x (map refresh ts ++ (map push_velocity movs ++ rest d sources)) =
        λ x h.
          Submitted-behind refresh ts _ x
            (Submitted-behind push_velocity movs (rest d sources) x h) in
      record {
        refreshed = Submitted-map refresh ts _;
        moved =
            All-mono (λ s h. Submitted-behind refresh ts _ _ h) movs
              (Submitted-map push_velocity movs (rest d sources));
        bounded = behind _ (inl refl);
        met = (
          behind _ (inr (inl refl)),
          behind _ (inr (inr (inl refl))),
          behind _ (inr (inr (inr (inl refl)))),
        );
        advanced =
            All-mono (λ s h. behind _ (inr (inr (inr (inr h))))) ints
              (Submitted-map_last euler_integrate ints);
      }

-- Wherever the default buffer is present, a step submits all its stages, and each after those it
-- needs: every launch after the refresh of the index it runs on, the volumes after the push of
-- every buffer that moves, the neighbour lists after the volumes, the density after the lists, the
-- forces after the density, and every integration after the push of the same species and after the
-- forces.
pub run_one_step-IsOrdered :
    (buffers : List Species) (d : Species)
    → find_default buffers ≡ some d
    → (stages : List Stage) × (run_one_step buffers ≡ some stages)
      × IsOrdered
          (select_buffers (movable ∷ []) buffers)
          d
          (select_buffers (source ∷ []) buffers)
          (λ y. ⊥)
          stages
      × IsComplete buffers d stages
unfolding run_one_step select_buffers select_timestep_buffers
run_one_step-IsOrdered buffers d e = (
  _,
  rw (e, run_one_step) refl,
  ordered buffers d (select_buffers (source ∷ []) buffers) (find_default-timestep buffers d e),
  complete buffers d,
)
