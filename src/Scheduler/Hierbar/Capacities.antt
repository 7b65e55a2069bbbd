-- ===== src/Scheduler/Hierbar/Capacities.antt =====
-- The shapes and variances of wca/scheduler/algorithms/hierbar.py from the capacities of nodes, with
-- `divide_resources` and `flat_membw_read_write` of its module base.
use workload_collocation_age.Base.{
  ℕ, Bool, true, false, ◌&&◌, Option, none, some, List, [], ◌∷◌, map, length, ltb, if◌then◌else◌,
  Outcome, ok, Error, ◌>>=◌, ◌>>◌, guard, from_option, traverse, map_outcome,
}
use workload_collocation_age.Base.Int.{ℤ}
use workload_collocation_age.Base.Eq.{Eq}
use workload_collocation_age.Base.Dict.{Dict, get, put, has, delete, keys, values}
use workload_collocation_age.Scheduler.Resources.{
  ResourceType, mem, cpu, membw_write, membw_read, wss, membw_flat, ResourceType_eq, Arithmetic,
  Resources, includes, value_of, map_resources, sum_resources, calculate_read_write_ratio,
}
use workload_collocation_age.Scheduler.Hierbar.{ClassArithmetic}

-- Floats with the operations that the code calls: `int` may raise, and so may `stdev` of the
-- statistics module.
pub record Floats (V : Type 0) : Type 0 where
  pub arithmetic : Arithmetic V
  pub truncated : V → Outcome ℤ
  pub of_int : ℤ → V
  pub of_count : ℕ → V
  pub stdev : List V → Outcome V
  pub is_less : V → V → Bool

-- The place of a type's name in the alphabet.
abbrev pub name_rank : ResourceType → ℕ
name_rank cpu = 0
name_rank mem = 1
name_rank membw_flat = 2
name_rank membw_read = 3
name_rank membw_write = 4
name_rank wss = 5

abbrev pub Shape : Type 0
Shape = List (ResourceType × ℤ)

-- Sorting by the names, which are distinct.
abbrev pub insert_dimension : ResourceType × ℤ → Shape → Shape
insert_dimension x [] = x ∷ []
insert_dimension x (y ∷ ys) =
    if ltb (name_rank y.0) (name_rank x.0) then y ∷ insert_dimension x ys else x ∷ y ∷ ys

abbrev pub sort_dimensions : List (ResourceType × ℤ) → Shape
sort_dimensions [] = []
sort_dimensions (x ∷ xs) = insert_dimension x (sort_dimensions xs)

module _ {V : Type 0} (f : Floats V) where
  unfoldable pub flat_membw_read_write :
      Resources f.arithmetic → V → Outcome (Resources f.arithmetic)
  flat_membw_read_write r ratio =
      if has membw_read r
      then guard (has membw_write r) Error.assertion_error
        >> (value_of f.arithmetic membw_read r >>= (λ read.
            value_of f.arithmetic membw_write r >>= λ write. ok (
              put membw_flat (f.arithmetic.plus read (f.arithmetic.times ratio write))
                (delete membw_write (delete membw_read r)))))
      else ok r

  abbrev pub divide_each :
      Resources f.arithmetic → Resources f.arithmetic → Outcome (Resources f.arithmetic)
  divide_each x y =
      map_resources f.arithmetic (λ d v. value_of f.arithmetic d y >>= λ w. f.arithmetic.over v w) x

  -- With a ratio the two directions of the bandwidth become one dimension.
  abbrev pub divide_flattened :
      Resources f.arithmetic → Resources f.arithmetic → Option V → Outcome (Resources f.arithmetic)
  divide_flattened x y none = divide_each x y
  divide_flattened x y (some ratio) =
      if has membw_read x
      then flat_membw_read_write x ratio
        >>= (λ x'. flat_membw_read_write y ratio >>= λ y'. divide_each x' y')
      else divide_each x y

  unfoldable pub divide_resources :
      Resources f.arithmetic → Resources f.arithmetic → Option V → Outcome (Resources f.arithmetic)
  divide_resources x y ratio =
      guard (includes f.arithmetic (keys x) y && includes f.arithmetic (keys y) x)
        Error.assertion_error
      >> divide_flattened x y ratio

  unfoldable pub sum_all :
      Resources f.arithmetic → List (Resources f.arithmetic) → Outcome (Resources f.arithmetic)
  sum_all total [] = ok total
  sum_all total (r ∷ rs) = sum_resources f.arithmetic total r >>= λ sum. sum_all sum rs

  unfoldable pub calc_average_resources :
      List (Resources f.arithmetic) → Outcome (Resources f.arithmetic)
  calc_average_resources [] = ok []
  calc_average_resources (r ∷ rs) = sum_all r rs >>= λ total.
      divide_resources total (map (λ p. (p.0, f.of_count (length (r ∷ rs)))) total) none

  unfoldable pub resources_to_shape : Resources f.arithmetic → Outcome Shape
  resources_to_shape r =
      map_outcome sort_dimensions (traverse (λ p. map_outcome (λ n. (p.0, n)) (f.truncated p.1)) r)

  -- The ratio of a shape, whose values are whole.
  abbrev pub shape_ratio : Shape → Outcome (Option V)
  shape_ratio s = calculate_read_write_ratio f.arithmetic (map (λ p. (p.0, f.of_int p.1)) s)

  abbrev pub is_empty_shape : Shape → Bool
  is_empty_shape [] = true
  is_empty_shape (d ∷ s) = false

  module _ {N : Type 0} ⦃e : Eq N⦄ (node_capacities : Dict N (Resources f.arithmetic)) where
    unfoldable pub capacities_of : List N → Outcome (List (Resources f.arithmetic))
    capacities_of names = traverse (λ n. from_option (get n node_capacities) Error.key_error) names

    unfoldable pub create_shapes_from_nodes : Outcome (Dict N Shape)
    create_shapes_from_nodes =
        traverse (λ p. map_outcome (λ s. (p.0, s)) (resources_to_shape p.1)) node_capacities

    unfoldable pub class_variance : Resources f.arithmetic → List N → Outcome V
    class_variance requested names = capacities_of names >>= λ capacities.
        calc_average_resources capacities >>= λ averaged.
        calculate_read_write_ratio f.arithmetic averaged >>= λ ratio.
        divide_resources requested averaged ratio >>= λ fraction. f.stdev (values fraction)

    unfoldable pub average_shape : List N → Outcome Shape
    average_shape names = capacities_of names >>= λ capacities.
        calc_average_resources capacities >>= resources_to_shape

    -- What the second pass calls.
    abbrev pub capacity_arithmetic :
        {M : Type 0} → (V → V → M) → ClassArithmetic N Shape (Resources f.arithmetic) V M
    capacity_arithmetic message = record {
      less = f.is_less;
      variance = class_variance;
      read_write_ratio = shape_ratio;
      average_shape = average_shape;
      is_empty_shape = is_empty_shape;
      message = message;
    }
