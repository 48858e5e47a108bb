-- ===== src/Schemas.antt =====
-- server/app/schemas.py: the wire shape of a fact. Pydantic itself is a parameter of the model
-- (`model_validate` of Server/Env.antt); what the class declares is `IsDeclared`.
use murray_context_ledger_mc.Base.{ℕ, String, Option, List, [], ◌∷◌, ◌≤◌, ◌^◌, size}

pub data FactType : Type 0 where
  identity preference state episodic relationship style behavioral : FactType

pub data FactSource : Type 0 where
  import_chatgpt import_claude dump_prompt mcp_writeback save_session : FactSource
  refresh_diff murray_app murray_clip user_manual : FactSource

-- The texts that the two `Literal` types list.
unfoldable pub type_name : FactType → String
type_name FactType.identity = "identity"
type_name FactType.preference = "preference"
type_name FactType.state = "state"
type_name FactType.episodic = "episodic"
type_name FactType.relationship = "relationship"
type_name FactType.style = "style"
type_name FactType.behavioral = "behavioral"

unfoldable pub source_name : FactSource → String
source_name FactSource.import_chatgpt = "import_chatgpt"
source_name FactSource.import_claude = "import_claude"
source_name FactSource.dump_prompt = "dump_prompt"
source_name FactSource.mcp_writeback = "mcp_writeback"
source_name FactSource.save_session = "save_session"
source_name FactSource.refresh_diff = "refresh_diff"
source_name FactSource.murray_app = "murray_app"
source_name FactSource.murray_clip = "murray_clip"
source_name FactSource.user_manual = "user_manual"

-- A Python float from 0 up, exactly: the number of units of 2^-1074, the least positive double.
abbrev pub Float : Type 0
Float = ℕ

unfoldable pub scale : ℕ
scale = 2 ^ 1074

pub record FactInput : Type 0 where
  pub type : FactType
  pub content : String
  pub confidence : Float
  pub scope_tags : List String
  pub source : FactSource
  pub source_ref : Option String
  pub dedupe_key : Option String

-- The scope tags of a fact that is sent without any.
abbrev pub default_scope_tags : List String
default_scope_tags = "account" ∷ []

-- The `Field` constraints of the class.
pub record IsDeclared (f : FactInput) : Type 0 where
  pub min_length : 1 ≤ size f.content
  pub le : f.confidence ≤ scale
