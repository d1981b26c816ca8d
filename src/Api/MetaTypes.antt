-- ===== src/Api/MetaTypes.antt =====
-- The parts of Kubernetes' object metadata, conditions and object keys that the operator reads or
-- writes.
use poll_operator.Base.{ℕ, ℤ, String, Option, List, map}

-- An instant, in nanoseconds since Go's zero time. `metav1.Time` wraps it; the zero time is 0.
abbrev pub Time : Type 0
Time = ℕ

pub record OwnerReference : Type 0 where
  pub kind : String
  pub name : String
  pub uid : String

pub record ObjectMeta : Type 0 where
  pub name : String
  pub generate_name : String
  pub namespace : String
  pub uid : String
  pub generation : ℤ
  pub deletion_timestamp : Option Time
  pub owner_references : List OwnerReference

-- `metav1.Condition`
pub record Condition : Type 0 where
  pub type : String
  pub status : String
  pub observed_generation : ℤ
  pub last_transition_time : Time
  pub reason : String
  pub message : String

-- A condition without its transition time.
abbrev pub strip : Condition → Condition
strip c = record c { last_transition_time = 0 }

abbrev pub condition_types : List Condition → List String
condition_types = map (λ c. c.type)

abbrev pub condition_true : String
condition_true = "True"

abbrev pub condition_false : String
condition_false = "False"

abbrev pub condition_unknown : String
condition_unknown = "Unknown"

-- `types.NamespacedName`, which is `client.ObjectKey`
pub record NamespacedName : Type 0 where
  pub namespace : String
  pub name : String
