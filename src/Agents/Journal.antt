-- ===== src/Agents/Journal.antt =====
-- crates/core-runtime/src/agent_fleet.rs: what a restart reads from the lines that were written.
use zmodbit.Prelude.{
  ◌≡◌, refl, sym, ap, ◌∙◌, true, some, List, [], ◌∷◌, map, Text, lines, unlines, IsLine,
  lines-unlines, append_nil, All, is_filled, retain, push,
}
use zmodbit.Agents.Nodes.{AgentNode, AgentFleet}
use zmodbit.Agents.Fleet.{NodeCodec, fresh, load_node, load_lines, load}

-- What the journal relies on of the JSON of a node: it is one line, not empty, and decodes to the node.
abbrev pub IsFaithful : NodeCodec → Type 0
IsFaithful json =
    (n : AgentNode)
    → (json.decode (json.encode n) ≡ some n)
      × IsLine (json.encode n)
      × (is_filled (json.encode n) ≡ true)

-- The fleet after the nodes of a list, from the first to the last.
abbrev pub load_nodes : List AgentNode → AgentFleet → AgentFleet
load_nodes [] f = f
load_nodes (n ∷ ns) f = load_nodes ns (load_node n f)

pub load_nodes-push :
    (ns : List AgentNode) (n : AgentNode) (f : AgentFleet)
    → load_nodes (push ns n) f ≡ load_node n (load_nodes ns f)
load_nodes-push [] n f = refl
load_nodes-push (m ∷ ns) n f = load_nodes-push ns n (load_node m f)

module _ (json : NodeCodec) (good : IsFaithful json) where
  encoded-IsLine : (ns : List AgentNode) → All IsLine (map json.encode ns)
  encoded-IsLine [] = tt
  encoded-IsLine (n ∷ ns) = ((good n).1, encoded-IsLine ns)

  retain-encoded :
      (ns : List AgentNode) → retain is_filled (map json.encode ns) ≡ map json.encode ns
  retain-encoded [] = refl
  retain-encoded (n ∷ ns) =
      let (decoded, line, filled) = good n in
      rw (filled) (ap (λ l. json.encode n ∷ l) (retain-encoded ns))

  load_lines-encoded :
      (ns : List AgentNode) (f : AgentFleet)
      → load_lines json (map json.encode ns) f ≡ some (load_nodes ns f)
  unfolding load_lines
  load_lines-encoded [] f = refl
  load_lines-encoded (n ∷ ns) f =
      let (decoded, line, filled) = good n in rw (decoded) (load_lines-encoded ns (load_node n f))

  read_back : (ns : List AgentNode) → lines (unlines (map json.encode ns)) ≡ map json.encode ns
  unfolding lines
  read_back ns =
      ap lines (sym (append_nil (unlines (map json.encode ns))))
      ∙ lines-unlines (map json.encode ns) [] (encoded-IsLine ns)
      ∙ append_nil (map json.encode ns)

  -- The file of the lines of some nodes loads to these nodes.
  pub load-encoded :
      (ns : List AgentNode) (t : Text)
      → t ≡ unlines (map json.encode ns)
      → load json (some t) ≡ some (load_nodes ns (fresh (some (some t))))
  unfolding load
  load-encoded ns t e =
      rw (ap lines e, read_back ns, retain-encoded ns)
        (load_lines-encoded ns (fresh (some (some t))))
