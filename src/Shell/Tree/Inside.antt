-- ===== src/Shell/Tree/Inside.antt =====
-- The walk meets every node of the tree, and the check of constructs misses none.
use tiny_ctx.Base.{
  ℕ, String, ◌≡◌, refl, Bool, true, false, List, [], ◌∷◌, none, some, ◌==◌, string_eq, arith, every,
  exists, every-append, exists-append,
}
use tiny_ctx.Shell.Tree.{
  Node, Nodes, node, cons, walk, walk_all, type, is_named, Constructs, is_allowed, denied_node,
  first_denied, first_denied_construct,
}

-- A node is the root of the tree, or stands in the tree of one of its children.
mutual
  pub data Inside (n : Node) : Node → Type 0 where
    here : {r : Node} → n ≡ r → Inside n r
    below :
        {i : ℕ} {t f : String} {m : Bool} {x : String} {cs : Nodes}
        → InsideAll n cs
        → Inside n (node i t f m x cs)

  pub data InsideAll (n : Node) : Nodes → Type 0 where
    first : {c : Node} {cs : Nodes} → Inside n c → InsideAll n (cons c cs)
    later : {c : Node} {cs : Nodes} → InsideAll n cs → InsideAll n (cons c cs)

module _ (n : Node) (p : Node → Bool) where
  mutual
    unfolding walk every

    every_of_Inside : {r : Node} → Inside n r → every p (walk r) ≡ true → p n ≡ true
    every_of_Inside (here {r = node i t f m x cs} e) h = ground arith
    every_of_Inside (below {i = i} {t = t} {f = f} {m = m} {x = x} {cs = cs} b) h =
        every_of_InsideAll b (ground arith)

    every_of_InsideAll : {cs : Nodes} → InsideAll n cs → every p (walk_all cs) ≡ true → p n ≡ true
    every_of_InsideAll (first {c = c} {cs = cs} i) h =
        every_of_Inside i (ground (arith, every-append p (walk c) (walk_all cs)))
    every_of_InsideAll (later {c = c} {cs = cs} b) h =
        every_of_InsideAll b (ground (arith, every-append p (walk c) (walk_all cs)))

  mutual
    unfolding walk exists

    exists_of_Inside : {r : Node} → Inside n r → p n ≡ true → exists p (walk r) ≡ true
    exists_of_Inside (here {r = node i t f m x cs} e) h = ground arith
    exists_of_Inside (below {i = i} {t = t} {f = f} {m = m} {x = x} {cs = cs} b) h =
        ground (arith, exists_of_InsideAll b h)

    exists_of_InsideAll : {cs : Nodes} → InsideAll n cs → p n ≡ true → exists p (walk_all cs) ≡ true
    exists_of_InsideAll (first {c = c} {cs = cs} i) h =
        ground (arith, exists_of_Inside i h, exists-append p (walk c) (walk_all cs))
    exists_of_InsideAll (later {c = c} {cs = cs} b) h =
        ground (arith, exists_of_InsideAll b h, exists-append p (walk c) (walk_all cs))

-- What a predicate says of every node of the walk it says of each node in the tree.
pub every-walk : {n r : Node} (p : Node → Bool) → Inside n r → every p (walk r) ≡ true → p n ≡ true
every-walk {n} p i h = every_of_Inside n p i h

pub exists-walk :
    {n r : Node} (p : Node → Bool) → Inside n r → p n ≡ true → exists p (walk r) ≡ true
exists-walk {n} p i h = exists_of_Inside n p i h

passes : Constructs → Node → Bool
passes constructs n = elim (denied_node constructs n) [ none ↦ true | some _ ↦ false ]

every-passes :
    (constructs : Constructs) (ns : List Node)
    → first_denied constructs ns ≡ none
    → every (passes constructs) ns ≡ true
unfolding first_denied every passes
every-passes constructs [] h = refl
every-passes constructs (n ∷ ns) h = ground (arith, every-passes constructs ns)

-- If the check finds nothing, then every named node in the tree, however deep, has a type that the
-- policy allows, and a bare & is allowed as background.
pub first_denied_construct-none :
    (constructs : Constructs) {n root : Node}
    → first_denied_construct constructs root ≡ none
    → Inside n root
    → (is_named n ≡ true → is_allowed constructs (type n) ≡ true)
      × (is_named n ≡ false → (type n == "&") ≡ true → is_allowed constructs "background" ≡ true)
unfolding first_denied_construct passes denied_node
first_denied_construct-none constructs {n} {root} h i =
    let ok : passes constructs n ≡ true =
      every-walk (passes constructs) i (every-passes constructs (walk root) h) in
    (λ m. ground arith, λ m e. ground arith)
