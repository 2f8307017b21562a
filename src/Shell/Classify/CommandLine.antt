-- ===== src/Shell/Classify/CommandLine.antt =====
-- The classification of a whole command line reaches every command in its tree.
use tiny_ctx.Base.{
  ◌≡◌, refl, Bool, true, false, ◌&&◌, List, [], ◌∷◌, ◌++◌, Option, none, some, ◌==◌, string_eq,
  if◌then◌else◌, ◌∙◌, contains, contains-append, exists, keep, map, arith, Option-cases, Bool-cases,
  inl, inr,
}
use tiny_ctx.Permissions.{Permission, permission_eq, root, untrusted_exec, backend_exec}
use tiny_ctx.Shell.Tree.{Node, type, walk, Constructs, first_denied_construct}
use tiny_ctx.Shell.Tree.Inside.{Inside, exists-walk}
use tiny_ctx.Shell.Commands.{command_at, extract}
use tiny_ctx.Shell.Specs.{Table}
use tiny_ctx.Shell.Classify.{
  Letters, Loaded, classify_with, classify_all, shape_part, required_with,
  required_permissions_for_shell,
}
use tiny_ctx.Shell.Classify.FailClosed.{Vetted, classify_with-Vetted}

module _ (letters : Letters) (table : Table) (q : Permission) where
  -- the nodes that are commands whose classification has `q`
  needs : Node → Node → Bool
  needs tree n =
      type n == "command"
      && contains (classify_with letters table (command_at letters.lower tree n)) q

  contains-classify_all :
      (tree : Node) (ns : List Node)
      → contains
          (classify_all letters table
            (map (command_at letters.lower tree) (keep (λ n. type n == "command") ns)))
          q
        ≡ exists (needs tree) ns
  unfolding classify_all keep exists needs contains
  contains-classify_all tree [] = refl
  contains-classify_all tree (n ∷ ns) =
      let ih = contains-classify_all tree ns in
      let here =
        contains-append (classify_with letters table (command_at letters.lower tree n))
          (classify_all letters table
            (map (command_at letters.lower tree) (keep (λ n. type n == "command") ns)))
          q in
      elim (Bool-cases (type n == "command")) [
        | inl e ↦ rw e (here ∙ ground (arith, ih))
        | inr e ↦ rw e ih
      ]

  -- Whatever a command in the tree needs, however deep it stands, the line needs.
  pub required_with-contains :
      (constructs : Constructs) (tree : Node) (backend : Bool) {n : Node}
      → Inside n tree
      → (type n == "command") ≡ true
      → contains (classify_with letters table (command_at letters.lower tree n)) q ≡ true
      → contains (required_with letters table constructs (some tree) backend) q ≡ true
  unfolding required_with extract needs
  required_with-contains constructs tree backend {n} i c h = ground (
    arith,
    contains-append (shape_part constructs tree)
        (classify_all letters table (extract letters.lower tree)
          ++ (if backend then backend_exec ∷ [] else []))
        q,
    contains-append (classify_all letters table (extract letters.lower tree))
        (if backend then backend_exec ∷ [] else []) q,
    contains-classify_all tree (walk tree),
    exists-walk (needs tree) i (ground arith),
  )

-- Every construct of the line is allowed, and the table vets every command in its tree.
pub record LineVetted (letters : Letters) (loaded : Loaded) (tree : Option Node) : Type 0 where
  pub table : Table
  pub has_table : loaded.table ≡ some table
  pub constructs : Constructs
  pub has_constructs : loaded.constructs ≡ some constructs
  pub root_node : Node
  pub parsed : tree ≡ some root_node
  pub allowed : first_denied_construct constructs root_node ≡ none
  pub vetted :
      (n : Node)
      → Inside n root_node
      → (type n == "command") ≡ true
      → Vetted table (command_at letters.lower root_node n)

shape_part-allowed :
    (constructs : Constructs) (tree : Node)
    → contains (shape_part constructs tree) untrusted_exec ≡ false
    → first_denied_construct constructs tree ≡ none
unfolding shape_part contains permission_eq
shape_part-allowed constructs tree h =
    elim (Option-cases (first_denied_construct constructs tree)) [
      | inl e ↦ e
      | inr (key, e) ↦ absurd (ground arith)
    ]

module _ (letters : Letters) (loaded : Loaded) (tree : Option Node) (backend : Bool) where
  -- A command line that needs neither root nor untrusted_exec was parsed against loaded files,
  -- holds allowed constructs only, and each command in its tree, however deep, is in the table with
  -- known flags and no dynamic argument.
  pub required_permissions_for_shell-LineVetted :
      contains (required_permissions_for_shell letters loaded tree backend) root ≡ false
      → contains (required_permissions_for_shell letters loaded tree backend) untrusted_exec ≡ false
      → LineVetted letters loaded tree
  unfolding required_permissions_for_shell required_with contains permission_eq
  required_permissions_for_shell-LineVetted r u = go_table loaded.table refl
    where
      whole : List Permission
      whole = required_permissions_for_shell letters loaded tree backend

      go_tree :
          (table : Table) (constructs : Constructs) (o : Option Node)
          → loaded.table ≡ some table
          → loaded.constructs ≡ some constructs
          → tree ≡ o
          → contains (required_with letters table constructs o backend) untrusted_exec ≡ false
          → LineVetted letters loaded tree
      go_tree table constructs none e f g k = absurd (ground arith)
      go_tree table constructs (some t) e f g k = record {
        table = table;
        has_table = e;
        constructs = constructs;
        has_constructs = f;
        root_node = t;
        parsed = g;
        allowed = shape_part-allowed constructs t (
            ground (
              arith,
              contains-append (shape_part constructs t)
                  (classify_all letters table (extract letters.lower t)
                    ++ (if backend then backend_exec ∷ [] else []))
                  untrusted_exec,
            ));
        vetted = λ n i c.
            elim (Bool-cases (
              contains (classify_with letters table (command_at letters.lower t n))
                untrusted_exec)) [
                  | inl bad ↦ absurd (
                      ground (
                        arith,
                        required_with-contains letters table untrusted_exec constructs t backend i c
                            bad,
                      ))
                  | inr good ↦
                      classify_with-Vetted letters table (command_at letters.lower t n) good
                ];
      }

      go_constructs :
          (table : Table) (o : Option Constructs)
          → loaded.table ≡ some table
          → loaded.constructs ≡ o
          → LineVetted letters loaded tree
      go_constructs table none e f = absurd (ground arith)
      go_constructs table (some constructs) e f = go_tree table constructs tree e f refl (
          let same : whole ≡ required_with letters table constructs tree backend = cc (e, f) in
          rw same at u)

      go_table : (o : Option Table) → loaded.table ≡ o → LineVetted letters loaded tree
      go_table none e = absurd (ground arith)
      go_table (some table) e = go_constructs table loaded.constructs e refl
