-- ===== src/Simulation/Devices.antt =====
-- The devices per dimension.
use spearhed.Base.{
  ℕ, zero, suc, ◌+◌, ◌-◌, ◌≤◌, ◌<◌, ◌≡◌, refl, sym, ap, ◌∙◌, arith, some, List, [], ◌∷◌, ◌++◌,
  length, replicate, length-append, le→ltb, lt→ltb, le→leb,
}
use spearhed.Simulation.{fill_up, plugin_load}

append_one : (v w : List ℕ) (x : ℕ) → (v ++ x ∷ []) ++ w ≡ v ++ x ∷ w
append_one [] w x = refl
append_one (y ∷ v) w x = ap (λ l. y ∷ l) (append_one v w x)

append_nil : (v : List ℕ) → v ++ [] ≡ v
append_nil [] = refl
append_nil (y ∷ v) = ap (λ l. y ∷ l) (append_nil v)

-- The loop fills a list up to the dimension.
fill_up-replicate :
    (fuel sim_dim fill missing : ℕ) (v : List ℕ)
    → sim_dim - length v ≡ missing
    → missing < fuel
    → fill_up fuel sim_dim fill v ≡ some (v ++ replicate missing fill)
unfolding fill_up
fill_up-replicate zero sim_dim fill missing v e lt = elim lt [ ]
fill_up-replicate (suc fuel) sim_dim fill zero v e lt =
    rw (le→ltb (length v) sim_dim (omega arith)) (ap some (sym (append_nil v)))
fill_up-replicate (suc fuel) sim_dim fill (suc missing) v e lt =
    rw (lt→ltb (length v) sim_dim (omega arith)) (
      fill_up-replicate fuel sim_dim fill missing (v ++ fill ∷ [])
        (omega (arith, length-append v (fill ∷ []))) (omega arith)
      ∙ ap some (append_one v (replicate missing fill) fill))

-- With at least one device number and at most one per dimension, loading keeps the numbers that are
-- given and puts one device in every other dimension; dimensions with no periodicity given are not
-- periodic.
pub plugin_load-replicate :
    (sim_dim : ℕ) (devices periodic : List ℕ)
    → 1 ≤ length devices
    → length devices ≤ sim_dim
    → plugin_load sim_dim devices periodic
      ≡ some (
        devices ++ replicate (sim_dim - length devices) 1,
        periodic ++ replicate (sim_dim - length periodic) 0,
      )
unfolding plugin_load
plugin_load-replicate sim_dim devices periodic some_device few =
    let p =
      fill_up-replicate (sim_dim + 1) sim_dim 0 (sim_dim - length periodic) periodic refl
        (omega arith) in
    let d =
      fill_up-replicate (sim_dim + 1) sim_dim 1 (sim_dim - length devices) devices refl
        (omega arith) in
    rw
      (
        p,
        plugin_load,
        le→leb 1 (length devices) some_device,
        le→leb (length devices) sim_dim few,
        d,
        plugin_load,
      )
      refl
