-- ===== src/Db/Flags/Branch.antt =====
-- What a walk that marks a branch returns and leaves, on a tree.
use tiny_ctx.Base.{
  String, ℕ, suc, zero, ◌<◌, ◌≡◌, refl, Bool, true, false, List, [], ◌∷◌, ◌++◌, none, some, ◌==◌,
  string_eq, if◌then◌else◌, arith, length, contains, Option-cases, Bool-cases, inl, inr,
}
use tiny_ctx.Db.{Node, ConversationDb, find, has_row, update_where}
use tiny_ctx.Db.Json.{Json}
use tiny_ctx.Db.Tree.{IsTree, update_where_absent, update_older-IsTree, has_parent-update_where}
use tiny_ctx.Db.Walk.{lineage, parent-IsTree}
use tiny_ctx.Db.Flags.{parse_flags, with_flags, flag_loop, flag_branch}

module _ {T V : Type 0} (json : Json T V) where
  abbrev pub is_flagged : String → Node T → Bool
  is_flagged flag n = contains (parse_flags json n.flags) flag

  -- The row with the flag put last.
  abbrev flag_row : String → Node T → Node T
  flag_row flag n = with_flags json (parse_flags json n.flags ++ flag ∷ []) n

  -- The ids of the nodes before the first one that has the flag.
  unfoldable pub unflagged : String → List (Node T) → List String
  unflagged flag [] = []
  unflagged flag (n ∷ up) =
      let rest = unflagged flag up in if is_flagged flag n then [] else n.id ∷ rest

  -- The table after the walk, in one pass since parents are older.
  unfoldable pub flag_table : String → String → List (Node T) → List (Node T)
  flag_table id flag [] = []
  flag_table id flag (n ∷ older) =
      let below = flag_table id flag older in
      let above : List (Node T) = elim n.parent_id [
        | none ↦ older
        | some p ↦ flag_table p flag older
      ] in
      if n.id == id
      then (if is_flagged flag n then n ∷ older else flag_row flag n ∷ above)
      else n ∷ below

  -- The newest row is not touched by a walk that starts below it.
  flag_loop_older :
      (fuel : ℕ) (id flag : String) (n : Node T) (older : List (Node T)) (flagged : List String)
      → IsTree (n ∷ older)
      → has_row id older ≡ true
      → flag_loop json fuel id flag (n ∷ older) flagged
        ≡ elim (flag_loop json fuel id flag older flagged) [
          | none ↦ none
          | some (done, ns) ↦ some (done, n ∷ ns)
        ]
  unfolding flag_loop find update_where
  flag_loop_older zero id flag n older flagged t h = refl
  flag_loop_older (suc fuel) id flag n older flagged t h =
      let apart : (n.id == id) ≡ false = let fresh = t.0 in ground arith in
      elim (Option-cases (find id older)) [
        | inl absent ↦ ground arith
        | inr (m, found) ↦ elim (Option-cases m.parent_id) [
          | inl top ↦ ground arith
          | inr (p, above) ↦
              let f : Node T → Node T = with_flags json (parse_flags json m.flags ++ flag ∷ []) in
              let older' = update_where id f older in
              let known = parent-IsTree id p m older t.1.1 found above in
              let known' : has_row p older' ≡ true =
                has_parent-update_where (some p) id f older (λ _. (refl, refl)) known in
              let rest =
                flag_loop_older fuel p flag n older' (flagged ++ id ∷ [])
                  (update_older-IsTree id f n older (λ _. (refl, refl)) t) known' in
              ground arith
        ]
      ]

  append_assoc : (xs ys zs : List String) → (xs ++ ys) ++ zs ≡ xs ++ (ys ++ zs)
  append_assoc [] ys zs = refl
  append_assoc (x ∷ xs) ys zs = ground (arith, append_assoc xs ys zs)

  append_nil : (xs : List String) → xs ++ [] ≡ xs
  append_nil [] = refl
  append_nil (x ∷ xs) = ground (arith, append_nil xs)

  flag_loop_absent :
      (fuel : ℕ) (id flag : String) (ns : List (Node T)) (flagged : List String)
      → find id ns ≡ none
      → flag_loop json (suc fuel) id flag ns flagged
        ≡ some (flagged ++ unflagged flag (lineage id ns), flag_table id flag ns)
  unfolding flag_loop lineage unflagged flag_table find
  flag_loop_absent fuel id flag [] flagged h = ground (arith, append_nil flagged)
  flag_loop_absent fuel id flag (n ∷ ns) flagged h =
      ground (arith, flag_loop_absent fuel id flag ns flagged)

  flag_loop-lineage :
      (fuel : ℕ) (id flag : String) (ns : List (Node T)) (flagged : List String)
      → IsTree ns
      → length ns < fuel
      → flag_loop json fuel id flag ns flagged
        ≡ some (flagged ++ unflagged flag (lineage id ns), flag_table id flag ns)
  unfolding flag_loop lineage unflagged flag_table find update_where
  flag_loop-lineage zero id flag ns flagged t h = ground arith
  flag_loop-lineage (suc fuel) id flag [] flagged t h = ground (arith, append_nil flagged)
  flag_loop-lineage (suc fuel) id flag (n ∷ older) flagged (fresh, (parent, t)) h =
      elim (Bool-cases (n.id == id)) [
        | inl here ↦
            let f : Node T → Node T = with_flags json (parse_flags json n.flags ++ flag ∷ []) in
            let same : update_where id f older ≡ older =
              update_where_absent id f older (ground arith) in
            let end = append_nil flagged in
            elim (Option-cases n.parent_id) [
              | inl top ↦ ground arith
              | inr (p, above) ↦
                  let flagged' = flagged ++ id ∷ [] in
                  let known : has_row p older ≡ true = ground arith in
                  let walk =
                    flag_loop_older fuel p flag (f n) older flagged' (fresh, (parent, t)) known in
                  let rest = flag_loop-lineage fuel p flag older flagged' t (omega arith) in
                  let join = append_assoc flagged (id ∷ []) (unflagged flag (lineage p older)) in
                  ground arith
            ]
        | inr below ↦ elim (Bool-cases (has_row id older)) [
          | inl found ↦ ground (
            arith,
            flag_loop_older (suc fuel) id flag n older flagged (fresh, (parent, t)) found,
            flag_loop-lineage (suc fuel) id flag older flagged t,
          )
          | inr absent ↦ ground (arith, flag_loop_absent fuel id flag older flagged)
        ]
      ]

  -- On a tree a branch walk ends: it returns the ids of the nodes from the given one up to the first
  -- that has the flag, and leaves the table in which just these have it.
  pub flag_branch-lineage :
      (node_id flag : String) (db : ConversationDb T)
      → IsTree db.nodes
      → flag_branch json node_id flag db
        ≡ some (
          unflagged flag (lineage node_id db.nodes),
          record db { nodes = flag_table node_id flag db.nodes },
        )
  unfolding flag_branch
  flag_branch-lineage node_id flag db t =
      ground
        (arith, flag_loop-lineage (suc (length db.nodes)) node_id flag db.nodes [] t (omega arith))
