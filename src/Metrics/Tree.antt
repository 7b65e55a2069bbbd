-- ===== src/Metrics/Tree.antt =====
-- Measurements of wca/metrics.py: a number, or a dictionary of measurements by level.
use workload_collocation_age.Base.{
  ℕ, ◌≡◌, ◌↔◌, Bool, true, false, Option, none, some, List, [], ◌∷◌, String, Outcome, ok, err,
  Error, arith, ◌==◌, if◌then◌else◌,
}
use workload_collocation_age.Base.Eq.{Eq, ◌=?◌, String_eq}
use workload_collocation_age.Base.Dict.{Dict}

-- Levels are named by strings or by integers, and `1` is not `'1'`.
pub data LevelKey : Type 0 where
  name : String → LevelKey
  index : ℕ → LevelKey

abbrev pub same_key : LevelKey → LevelKey → Bool
same_key (LevelKey.name s) (LevelKey.name t) = s =? t
same_key (LevelKey.name s) (LevelKey.index n) = false
same_key (LevelKey.index m) (LevelKey.name t) = false
same_key (LevelKey.index m) (LevelKey.index n) = m == n

pub same_key_iff : (j k : LevelKey) → (same_key j k ≡ true) ↔ (j ≡ k)
same_key_iff (LevelKey.name s) (LevelKey.name t) = ground (arith, String_eq.beq_iff s t)
same_key_iff (LevelKey.name s) (LevelKey.index n) = ground arith
same_key_iff (LevelKey.index m) (LevelKey.name t) = ground arith
same_key_iff (LevelKey.index m) (LevelKey.index n) = ground arith

instance abbrev pub LevelKey_eq : Eq LevelKey
LevelKey_eq = record { beq = same_key; beq_iff = same_key_iff }

-- `LevelMeasurements`: `no_items` and `item` build the dictionary of a level.
mutual
  pub data Tree (A : Type 0) : Type 0 where
    leaf : A → Tree A
    level : Items A → Tree A

  pub data Items (A : Type 0) : Type 0 where
    no_items : Items A
    item : LevelKey → Tree A → Items A → Items A

-- `Measurements`: from names of metrics.
abbrev pub Measurements : Type 0 → Type 0
Measurements A = Dict String (Tree A)

abbrev pub through : {A B : Type 0} → (A → Option B) → Option A → Option B
through f none = none
through f (some a) = f a

module _ {A : Type 0} where
  -- `d[key]` in a level.
  abbrev pub child : LevelKey → Items A → Option (Tree A)
  child k no_items = none
  child k (item j t rest) = if j =? k then some t else child k rest

  -- A number, where Python's arithmetic wants one.
  abbrev pub leaf_value : Tree A → Outcome A
  leaf_value (leaf a) = ok a
  leaf_value (level items) = err Error.type_error

  -- `node.items()`
  abbrev pub items : Tree A → Outcome (Items A)
  items (leaf a) = err Error.attribute_error
  items (level is) = ok is

  -- What is found below a node by following the keys of a path.
  abbrev pub at_path : List LevelKey → Tree A → Option (Tree A)
  at_path [] t = some t
  at_path (k ∷ path) (leaf a) = none
  at_path (k ∷ path) (level is) = through (at_path path) (child k is)

  -- No two items of a dictionary have the same key.
  unfoldable mutual
    pub IsDict : Tree A → Type 0
    IsDict (leaf a) = Unit
    IsDict (level is) = AreDicts is

    pub AreDicts : Items A → Type 0
    AreDicts no_items = Unit
    AreDicts (item k t rest) = (child k rest ≡ none) × IsDict t × AreDicts rest
