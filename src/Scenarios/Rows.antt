-- ===== src/Scenarios/Rows.antt =====
-- What services/scenarios/engine.py reads and writes: the rows, the saved graph and the run's log.
-- The graph is JSON that the code does not check: an id, a source or a target may be missing, and a
-- node's data may be no object, which is none here. A node that has no data has the empty object. The
-- values that it holds are texts.
use revenact_backend.Prelude.{
  ℕ, String, Bool, Option, none, some, List, [], ◌∷◌, str_eq, if◌then◌else◌,
}

-- A value that a condition reads: a text, or a number by what `str` makes of it.
pub data Value : Type 0 where
  absent : Value
  text number : String → Value

-- A customer, with the facts that conditions read.
pub record Customer : Type 0 where
  pub id : ℕ
  pub name : String
  pub email : String
  pub organisation : ℕ
  pub organisation_name : String
  pub owner : Option ℕ
  pub lifecycle_stage : String
  pub churn_date : Option ℕ
  pub is_archived : Bool
  pub health_score : Value
  pub nps_score : Value
  pub arr : Value
  pub renewal_days : Value
  pub open_tickets : Value
  pub ai_attributes : List (String × Value)

pub record User : Type 0 where
  pub id : ℕ
  pub name : String
  pub email : String
  pub organisation : ℕ
  pub is_active : Bool
  pub function : String
  pub reports_to : Option ℕ

pub record Task : Type 0 where
  pub customer : ℕ
  pub title : String
  pub due_date : ℕ

pub record Mail : Type 0 where
  pub to : String
  pub subject : String
  pub body : String

pub record Notification : Type 0 where
  pub recipient : ℕ
  pub message : String
  pub link : String

-- The customer that the run holds, the rows, and what was sent.
pub record State : Type 0 where
  pub customer : Customer
  pub customers : List Customer
  pub users : List User
  pub tasks : List Task
  pub mails : List Mail
  pub notifications : List Notification
  pub today : ℕ

abbrev pub Data : Type 0
Data = List (String × String)

pub record Node : Type 0 where
  pub id : String
  pub kind : Option String
  pub config : Option Data

pub record Edge : Type 0 where
  pub source : String
  pub target : Option String
  pub label : Option String

pub record Scenario : Type 0 where
  pub nodes : List Node
  pub edges : List Edge

-- The graph as it is saved, before the ids and the sources are read.
pub record SavedNode : Type 0 where
  pub id : Option String
  pub kind : Option String
  pub config : Option Data

pub record SavedEdge : Type 0 where
  pub source : Option String
  pub target : Option String
  pub label : Option String

pub record SavedScenario : Type 0 where
  pub nodes : List SavedNode
  pub edges : List SavedEdge

pub data Outcome : Type 0 where
  passed skipped failed : Outcome

-- One line of the log.
pub record Row : Type 0 where
  pub node_id : Option String
  pub action : Option String
  pub status : Outcome
  pub detail : String

-- `data.get(key)`
unfoldable pub get : String → Data → Option String
get key [] = none
get key ((k, v) ∷ rest) = if str_eq k key then some v else get key rest

-- `data.get(key) or default`
unfoldable pub get_or : String → String → Data → String
get_or key default config = elim (get key config) [
  | none ↦ default
  | some v ↦ if str_eq v "" then default else v
]
