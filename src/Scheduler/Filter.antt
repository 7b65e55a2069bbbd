-- ===== src/Scheduler/Filter.antt =====
-- `BaseAlgorithm` of wca/scheduler/algorithms/base.py: `filter` and the default second pass.
pub mod Partition
use workload_collocation_age.Base.{
  ℕ, zero, suc, ◌+◌, ◌-◌, ◌*◌, ◌/◌, ◌%◌, ◌≤◌, ◌<◌, ◌≡◌, refl, sym, ap, ◌∙◌, ◌≢◌, ◌↔◌, ◌⊎◌, inl, inr,
  Bool, true, false, not, ◌&&◌, ◌||◌, Option, none, some, List, [], ◌∷◌, ◌++◌, map, length, All,
  All-map, In, arith, ltb, leb, ◌==◌, ==_iff, if◌then◌else◌, Bool-cases, Option-cases, Outcome, ok,
  err, Error, ◌>>=◌, ◌>>◌, guard, from_option, >>=-eq-ok, ok-injective, traverse, each,
  Outcome-cases,
}
use workload_collocation_age.Base.Eq.{Eq, ◌=?◌}
use workload_collocation_age.Base.Dict.{Dict, has, put}

-- `ExtenderFilterResult` of wca/scheduler/types.py, without the fields that stay empty.
pub record ExtenderFilterResult (N M : Type 0) : Type 0 where
  pub node_names : List N
  pub failed_nodes : Dict N M

-- `n in names`
abbrev pub is_in : {N : Type 0} ⦃e : Eq N⦄ → N → List N → Bool
is_in n [] = false
is_in n (m ∷ names) = m =? n || is_in n names

module _ {N M : Type 0} ⦃e : Eq N⦄ where
  -- `for k, v in items: d[k] = v`
  abbrev pub update : Dict N M → Dict N M → Dict N M
  update d [] = d
  update d ((k, v) ∷ items) = update (put k v d) items

  -- The first pass asks `app_fit_node` about each node, with the two results so far.
  unfoldable pub first_pass : (N → Bool × M) → List N → List N → Dict N M → List N × Dict N M
  first_pass app_fit_node [] accepted failed = (accepted, failed)
  first_pass app_fit_node (n ∷ names) accepted failed =
      if (app_fit_node n).0
      then first_pass app_fit_node names (accepted ++ n ∷ []) failed
      else first_pass app_fit_node names accepted (put n (app_fit_node n).1 failed)

  -- The second pass chooses among the accepted nodes, if there are any.
  unfoldable pub second_pass :
      (List N → Outcome (List N × Dict N M))
      → List N
      → Dict N M
      → Outcome (ExtenderFilterResult N M)
  second_pass app_fit_nodes [] failed = ok (record { node_names = []; failed_nodes = failed })
  second_pass app_fit_nodes (n ∷ names) failed = app_fit_nodes (n ∷ names) >>= λ p.
      ok (record { node_names = p.0; failed_nodes = update failed p.1 })

  unfoldable pub filter :
      (N → Bool × M)
      → (List N → Outcome (List N × Dict N M))
      → List N
      → Outcome (ExtenderFilterResult N M)
  filter app_fit_node app_fit_nodes names =
      let (accepted, failed) = first_pass app_fit_node names [] [] in
      second_pass app_fit_nodes accepted failed

  -- `BaseAlgorithm.app_fit_nodes`
  unfoldable pub accept_all : List N → Outcome (List N × Dict N M)
  accept_all names = ok (names, [])
