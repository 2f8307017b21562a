-- ===== src/Tests/Commands.antt =====
-- A command that asks for root, and a bare one, in the registry of TinyCTX/utils/commands.py.
use tiny_ctx.Base.{String, ℕ, ◌≡◌, refl, true, false, List, [], ◌∷◌, none, some, string_eq}
use tiny_ctx.Permissions.{root}
use tiny_ctx.Users.Models.{User, PermissionsConfig}
use tiny_ctx.Commands.{
  Server, Invocation, Entry, Syntax, dispatch, entry_for, find_entry, is_entry, command_text,
}
use tiny_ctx.Commands.Gate.{HasEnded, dispatch-HasEnded}
use tiny_ctx.Context.Turns.{join_lines}

abbrev no_grants : PermissionsConfig
no_grants = record { minimal_tokens = false; template = [] }

abbrev guest : User
guest = record {
  username = "guest";
  identities = [];
  meta = [];
  created_at = 0;
  permission_overrides = [];
}

abbrev server : Server ℕ ℕ
server = record {
  users = record { users = []; index = []; by_platform = []; by_username = [] };
  db = record { root_id = none; nodes = [] };
  permissions = none;
  command_introspection = true;
  world = 0;
}

abbrev invocation : Invocation ℕ
invocation = record {
  has_runtime = true;
  caller = some guest;
  caller_platform = "";
  caller_user_id = "";
  node_id = "n";
  cursor = "";
  get_output = none;
}

abbrev rename : Entry ℕ ℕ
rename = record {
  namespace = "user";
  sub = "rename";
  handler = λ args s. (true, record s { world = 1 });
  help = "";
  required_permissions = some (root ∷ []);
  permissions_declared = true;
}

abbrev memory : Entry ℕ ℕ
memory = record {
  namespace = "memory";
  sub = "";
  handler = λ args s. (true, record s { world = 2 });
  help = "";
  required_permissions = none;
  permissions_declared = true;
}

abbrev entries : List (Entry ℕ ℕ)
entries = rename ∷ memory ∷ []

abbrev syntax_of : List String → Syntax ℕ
syntax_of words = record {
  lower = λ s. s;
  strip = λ s. s;
  split = λ s. words;
  user_node = "u";
  assistant_node = "a";
  now = 5;
  no_flags = 0;
}

abbrev renaming : Syntax ℕ
renaming = syntax_of ("user" ∷ "rename" ∷ [])

dispatch-HasEnded_example :
    HasEnded renaming no_grants "/user rename" invocation entries server
      (dispatch renaming no_grants "/user rename" invocation entries server)
dispatch-HasEnded_example =
    dispatch-HasEnded renaming no_grants "/user rename" invocation entries server

-- The word that is no subcommand is an argument, and is also kept as the subcommand.
found_memory :
    entry_for (λ s. s) ("memory" ∷ "who" ∷ "asks" ∷ []) entries
    ≡ some (memory, ("memory", ("who", "who" ∷ "asks" ∷ [])))
unfolding entry_for find_entry is_entry string_eq
found_memory = refl

-- So the recorded command names the word twice.
recorded_twice : command_text "memory" "who" ("who" ∷ "asks" ∷ []) ≡ "/memory who who asks"
unfolding command_text join_lines string_eq
recorded_twice = refl
