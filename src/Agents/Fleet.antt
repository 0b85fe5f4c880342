-- ===== src/Agents/Fleet.antt =====
-- crates/core-runtime/src/agent_fleet.rs: the operations of AgentFleet. JSON encoding and decoding of a node are
-- parameters; a call that writes is told whether the disk takes its line, and a file is read as a whole.
use zmodbit.Prelude.{
  Option, none, some, Bool, true, false, not, ℕ, List, [], ◌∷◌, ◌++◌, Text, text_eq, bytes, lines,
  newline, is_filled, retain, contains, Map, get, insert, values, Result, ok, err, ◌>>=◌, ok_or,
  if◌then◌else◌, map,
}
use zmodbit.Agents.Nodes.{
  AgentStatus, foreground, background, parked, completed, cancelled, debug_status,
  AgentExecutionCapsule, default_capsule, SteerCommand, cancel, AgentNode, FleetError, persistence,
  panicked, unknown_agent, cannot_steal_completed, privilege_expansion_refused, unknown_context_ref,
  AgentFleet,
}

pub record NodeCodec : Type 0 where
  pub encode : AgentNode → Text
  pub decode : Text → Option AgentNode

abbrev pub fresh : Option (Option Text) → AgentFleet
fresh journal = record { nodes = []; idempotency = []; journal = journal }

-- The idempotency entry of a node that has a key.
abbrev pub keyed : Option Text → Text → Map Text → Map Text
keyed none id m = m
keyed (some key) id m = insert key id m

abbrev pub load_node : AgentNode → AgentFleet → AgentFleet
load_node n f = record f {
  idempotency = keyed n.idempotency_key n.agent_id f.idempotency;
  nodes = insert n.agent_id n f.nodes;
}

abbrev pub contents : Option Text → Text
contents none = []
contents (some t) = t

-- `matches!(status, Completed | Cancelled)`, and the live states.
abbrev pub has_ended : AgentStatus → Bool
has_ended foreground = false
has_ended background = false
has_ended parked = false
has_ended completed = true
has_ended cancelled = true

abbrev pub is_parked : AgentStatus → Bool
is_parked foreground = false
is_parked background = false
is_parked parked = true
is_parked completed = false
is_parked cancelled = false

abbrev pub not_parked : Text → AgentStatus → Text
not_parked agent_id s = agent_id ++ bytes " is not parked (status " ++ debug_status s ++ bytes ")"

abbrev pub steered : SteerCommand → AgentStatus → AgentStatus
steered (SteerCommand.steer i) s = s
steered (cancel r) s = cancelled
steered (SteerCommand.follow_up q) s = s

abbrev pub root_of : Option Text → Text → AgentFleet → Result FleetError Text
root_of none agent_id f = ok agent_id
root_of (some pid) agent_id f = do n ← ok_or (get pid f.nodes) (unknown_agent pid); ok n.root

abbrev pub known_agent : Option Text → AgentFleet → Option Text
known_agent none f = none
known_agent (some key) f = get key f.idempotency

abbrev pub reattach : Option AgentNode → Result FleetError AgentNode
reattach none = err panicked
reattach (some n) = ok n

abbrev pub refuse_after :
    Text
    → Text
    → Result FleetError (Unit {0}) × AgentFleet
    → Result FleetError (Unit {0}) × AgentFleet
refuse_after agent_id effect (ok u, f) = (err (privilege_expansion_refused agent_id effect), f)
refuse_after agent_id effect (err e, f) = (err e, f)

module _ (json : NodeCodec) where
  unfoldable pub load_lines : List Text → AgentFleet → Option AgentFleet
  load_lines [] f = some f
  load_lines (l ∷ ls) f = elim (json.decode l) [
    | none ↦ none
    | some n ↦ load_lines ls (load_node n f)
  ]

  -- `load`; none for a line that does not decode.
  unfoldable pub load : Option Text → Option AgentFleet
  unfolding load_lines
  load none = some (fresh (some none))
  load (some t) = load_lines (retain is_filled (lines t)) (fresh (some (some t)))

  abbrev pub write_line : Bool → AgentNode → Option (Option Text) → Option (Option (Option Text))
  write_line disk_takes n none = some none
  write_line true n (some file) =
      some (some (some (contents file ++ (json.encode n ++ newline ∷ []))))
  write_line false n (some file) = none

  -- `persist_node` of a node, then the rest of the operation on the fleet with the line written.
  abbrev pub persist_then :
      {A : Type 0}
      → Option (Option (Option Text))
      → (AgentFleet → Result FleetError A × AgentFleet)
      → AgentFleet
      → Result FleetError A × AgentFleet
  persist_then none k f = (err persistence, f)
  persist_then (some journal) k f = k (record f { journal = journal })

  module _ (disk_takes : Bool) where
    abbrev pub put_node : AgentNode → AgentFleet → Result FleetError AgentNode × AgentFleet
    put_node n f = (ok n, record f { nodes = insert n.agent_id n f.nodes })

    -- The lines of `spawn` and `spawn_child` from the new node on: the key is entered before the journal is written.
    abbrev pub enter : AgentNode → AgentFleet → Result FleetError AgentNode × AgentFleet
    enter n f =
        persist_then (write_line disk_takes n f.journal) (put_node n)
          (record f { idempotency = keyed n.idempotency_key n.agent_id f.idempotency })

    abbrev pub enter_under :
        Result FleetError Text
        → (Text → AgentNode)
        → AgentFleet
        → Result FleetError AgentNode × AgentFleet
    enter_under (err e) node f = (err e, f)
    enter_under (ok root) node f = enter (node root) f

    -- `spawn` and `spawn_child`: a known key gives the agent that it names, `self.nodes[existing]`.
    abbrev pub attach :
        Option Text
        → Result FleetError Text
        → (Text → AgentNode)
        → AgentFleet
        → Result FleetError AgentNode × AgentFleet
    attach (some existing) root node f = (reattach (get existing f.nodes), f)
    attach none root node f = enter_under root node f

    unfoldable pub spawn :
        Option Text
        → Text
        → Text
        → AgentExecutionCapsule
        → Option Text
        → AgentFleet
        → Result FleetError AgentNode × AgentFleet
    spawn parent agent_id task capsule key f =
        attach (known_agent key f) (root_of parent agent_id f)
          (λ root. record {
            agent_id = agent_id;
            parent = parent;
            root = root;
            task = task;
            status = foreground;
            tool_cursor = 0;
            context_refs = [];
            capsule = capsule;
            idempotency_key = key;
            task_id = [];
            write_scope = [];
          })
          f

    unfoldable pub spawn_child :
        Option Text
        → Text
        → Text
        → Text
        → List Text
        → Option Text
        → AgentFleet
        → Result FleetError AgentNode × AgentFleet
    spawn_child parent_agent agent_id task_id task write_scope key f =
        attach (known_agent key f) (root_of parent_agent agent_id f)
          (λ root. record {
            agent_id = agent_id;
            parent = parent_agent;
            root = root;
            task = task;
            status = foreground;
            tool_cursor = 0;
            context_refs = [];
            capsule = default_capsule;
            idempotency_key = key;
            task_id = task_id;
            write_scope = write_scope;
          })
          f

    -- The node is changed in place, and then written to the journal.
    abbrev pub change :
        {A : Type 0}
        → Option AgentNode
        → Text
        → (AgentNode → AgentNode)
        → A
        → AgentFleet
        → Result FleetError A × AgentFleet
    change none agent_id g a f = (err (unknown_agent agent_id), f)
    change (some n) agent_id g a f =
        persist_then (write_line disk_takes (g n) f.journal) (λ h. (ok a, h))
          (record f { nodes = insert agent_id (g n) f.nodes })

    unfoldable pub transition :
        Text → AgentStatus → AgentFleet → Result FleetError (Unit {0}) × AgentFleet
    transition agent_id to f =
        change (get agent_id f.nodes) agent_id (λ n. record n { status = to }) tt f

    unfoldable pub set_background : Text → AgentFleet → Result FleetError (Unit {0}) × AgentFleet
    unfolding transition
    set_background agent_id f = transition agent_id background f

    unfoldable pub set_foreground : Text → AgentFleet → Result FleetError (Unit {0}) × AgentFleet
    unfolding transition
    set_foreground agent_id f = transition agent_id foreground f

    unfoldable pub park : Text → AgentFleet → Result FleetError (Unit {0}) × AgentFleet
    unfolding transition
    park agent_id f = transition agent_id parked f

    unfoldable pub advance_cursor :
        Text → ℕ → AgentFleet → Result FleetError (Unit {0}) × AgentFleet
    advance_cursor agent_id to f =
        change (get agent_id f.nodes) agent_id (λ n. record n { tool_cursor = to }) tt f

    unfoldable pub resume_node :
        Option AgentNode → Text → AgentFleet → Result FleetError (Unit {0}) × AgentFleet
    unfolding transition
    resume_node none agent_id f = (err (unknown_agent agent_id), f)
    resume_node (some n) agent_id f =
        if is_parked n.status
        then transition agent_id foreground f
        else (err (unknown_agent (not_parked agent_id n.status)), f)

    unfoldable pub resume : Text → AgentFleet → Result FleetError (Unit {0}) × AgentFleet
    unfolding resume_node
    resume agent_id f = resume_node (get agent_id f.nodes) agent_id f

    abbrev pub steer_node :
        Option AgentNode → Text → SteerCommand → AgentFleet → Result FleetError ℕ × AgentFleet
    steer_node none agent_id command f = (err (unknown_agent agent_id), f)
    steer_node (some n) agent_id command f =
        if has_ended n.status
        then (err (cannot_steal_completed agent_id), f)
        else change (some n) agent_id (λ m. record m { status = steered command m.status })
            n.tool_cursor f

    unfoldable pub steer : Text → SteerCommand → AgentFleet → Result FleetError ℕ × AgentFleet
    steer agent_id command f = steer_node (get agent_id f.nodes) agent_id command f

    unfoldable pub ask_parent :
        Option Text → Text → Text → AgentFleet → Result FleetError (Unit {0}) × AgentFleet
    unfolding set_background
    ask_parent none agent_id effect f = (err (privilege_expansion_refused agent_id effect), f)
    ask_parent (some parent) agent_id effect f =
        refuse_after agent_id effect (set_background parent f)

    unfoldable pub request_of :
        Option AgentNode → Text → Text → AgentFleet → Result FleetError (Unit {0}) × AgentFleet
    unfolding ask_parent
    request_of none agent_id effect f = (err (unknown_agent agent_id), f)
    request_of (some n) agent_id effect f =
        if n.capsule.can_request_expansion
        then (ok tt, f)
        else ask_parent n.parent agent_id effect f

    -- The parent is told by a transition to the background.
    unfoldable pub request_protected_effect :
        Text → Text → AgentFleet → Result FleetError (Unit {0}) × AgentFleet
    unfolding request_of
    request_protected_effect agent_id effect f = request_of (get agent_id f.nodes) agent_id effect f

abbrev pub node_at : Option Text → AgentFleet → Option AgentNode
node_at none f = none
node_at (some id) f = get id f.nodes

unfoldable pub find_by_idempotency_key : Text → AgentFleet → Option AgentNode
find_by_idempotency_key key f = node_at (get key f.idempotency) f

unfoldable pub active_write_scopes : Text → AgentFleet → List (Text × List Text)
active_write_scopes root f =
    map (λ n. (n.agent_id, n.write_scope))
      (retain (λ n. not (elim n.write_scope [ [] ↦ true | _ ∷ _ ↦ false ]))
        (retain (λ n. not (has_ended n.status))
          (retain (λ n. text_eq n.root root) (values f.nodes))))

unfoldable pub resolve_context : Text → Text → AgentFleet → Result FleetError (Unit {0})
resolve_context agent_id context_ref f = do
  n ← ok_or (get agent_id f.nodes) (unknown_agent agent_id)
  if contains n.capsule.context_refs context_ref
      then ok tt
      else err (unknown_context_ref agent_id context_ref)

abbrev pub edges_of : List AgentNode → List (Text × Text)
edges_of [] = []
edges_of (n ∷ ns) = elim n.parent [ none ↦ edges_of ns | some p ↦ (p, n.agent_id) ∷ edges_of ns ]

unfoldable pub agent_graph : AgentFleet → List Text × List (Text × Text)
agent_graph f = (map (λ n. n.agent_id) (values f.nodes), edges_of (values f.nodes))
