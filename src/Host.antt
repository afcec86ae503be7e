-- ===== src/Host.antt =====
-- Process hosts: what a pane runs and where (crates/nmux-core/src/host.rs).
pub mod Planning
use nmux.Base.{
  ℕ, DecEq, ℕ_discrete, List-discrete, Option-discrete, Text, Option, none, some, List, [], ◌∷◌,
  ◌++◌,
}

pub data HostKind : Type 0 where
  local : HostKind
  container : Text → HostKind
  sandbox : Text → HostKind

pub record CommandSpec : Type 0 where
  pub program : Text
  pub args : List Text
  pub working_dir : Option Text
  pub env : List (Text × Text)
  pub initial_size : Option (ℕ × ℕ)

pub record HostSpec : Type 0 where
  pub id : Text
  pub kind : HostKind
  pub command : CommandSpec

unfoldable pub command_new : Text → CommandSpec
command_new program = record {
  program = program;
  args = [];
  working_dir = none;
  env = [];
  initial_size = none;
}

unfoldable pub with_args : CommandSpec → List Text → CommandSpec
with_args c args = record c { args = args }

unfoldable pub with_working_dir : CommandSpec → Text → CommandSpec
with_working_dir c dir = record c { working_dir = some dir }

unfoldable pub with_env : CommandSpec → Text → Text → CommandSpec
with_env c key value = record c { env = c.env ++ (key, value) ∷ [] }

unfoldable pub with_envs : CommandSpec → List (Text × Text) → CommandSpec
with_envs c env = record c { env = c.env ++ env }

unfoldable pub with_initial_size : CommandSpec → ℕ → ℕ → CommandSpec
with_initial_size c cols rows = record c { initial_size = some (cols, rows) }

unfoldable pub host_local : Text → CommandSpec → HostSpec
host_local id command = record { id = id; kind = local; command = command }

unfoldable pub host_sandbox : Text → Text → CommandSpec → HostSpec
host_sandbox id profile command = record { id = id; kind = sandbox profile; command = command }

unfoldable pub host_container : Text → Text → CommandSpec → HostSpec
host_container id image command = record { id = id; kind = container image; command = command }

unfoldable pub HostKind-discrete : Discrete HostKind
HostKind-discrete = hlevel ℕ_discrete

unfoldable pub HostSpec-discrete : Discrete HostSpec
HostSpec-discrete = hlevel (ℕ_discrete, List-discrete {0}, Option-discrete {0})

instance abbrev pub HostSpec-DecEq : DecEq HostSpec
HostSpec-DecEq = record { dec_eq = HostSpec-discrete }
