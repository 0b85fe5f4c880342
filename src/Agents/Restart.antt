-- ===== src/Agents/Restart.antt =====
-- crates/core-runtime/src/agent_fleet.rs: a restart, `AgentFleet::load` of the journal, after any calls.
use zmodbit.Prelude.{
  ◌≡◌, refl, sym, ap, subst, ◌∙◌, inl, inr, Option, none, some, List, [], ◌∷◌, ◌++◌, map, Text,
  newline, unlines, unlines-push, map-push, push, get, insert,
}
use zmodbit.Agents.Nodes.{AgentNode, AgentFleet}
use zmodbit.Agents.Fleet.{NodeCodec, fresh, load_node, contents, load}
use zmodbit.Agents.Journal.{IsFaithful, load_nodes, load_nodes-push, load-encoded}
use zmodbit.Agents.Calls.{Call, run_call, run_calls, with_line, Moves, run_call-Moves}
use zmodbit.Agents.Keys.{
  IsKeyed, insert-agree, keyed-agree, keyed_again, enter-IsKeyed, change-IsKeyed,
}

-- The same agents under all ids, and the same agent for every key.
pub record SameAgents (f g : AgentFleet) : Type 0 where
  pub same_nodes : (id : Text) → get id f.nodes ≡ get id g.nodes
  pub same_keys : (key : Text) → get key f.idempotency ≡ get key g.idempotency

-- The journal file holds the lines of nodes that give the agents of the fleet, whatever the journal of a fresh one.
pub record IsDurable (json : NodeCodec) (f : AgentFleet) : Type 0 where
  pub file : Option Text
  pub written : List AgentNode
  pub journaled : f.journal ≡ some file
  pub text : contents file ≡ unlines (map json.encode written)
  pub same : (j : Option (Option Text)) → SameAgents (load_nodes written (fresh j)) f
  pub keys : IsKeyed f

module _ (json : NodeCodec) (f : AgentFleet) (d : IsDurable json f) where
  -- One more line makes a fleet whose agents are those after its node durable.
  line-IsDurable :
      (n : AgentNode) (g : AgentFleet)
      → SameAgents (load_node n f) g
      → IsKeyed g
      → IsDurable json (with_line json d.file n g)
  line-IsDurable n g s v = record {
    file = some (contents d.file ++ (json.encode n ++ newline ∷ []));
    written = push d.written n;
    journaled = refl;
    text =
        ap (λ t. t ++ (json.encode n ++ newline ∷ [])) d.text
        ∙ sym (unlines-push (map json.encode d.written) (json.encode n))
        ∙ ap unlines (sym (map-push json.encode d.written n));
    same = λ j. rw (load_nodes-push d.written n (fresh j)) (record {
      same_nodes = λ id.
          insert-agree n.agent_id id n (load_nodes d.written (fresh j)).nodes f.nodes
            ((d.same j).same_nodes id)
          ∙ s.same_nodes id;
      same_keys = λ key.
          keyed-agree n.idempotency_key n.agent_id key (load_nodes d.written (fresh j)).idempotency
            f.idempotency ((d.same j).same_keys key)
          ∙ s.same_keys key;
    });
    keys = record { named = v.named; leads = v.leads; known = v.known };
  }

  pub move-IsDurable : (g : AgentFleet) → Moves json d.file f g → IsDurable json g
  move-IsDurable g (inl e) = subst (λ h. IsDurable json h) (sym e) d
  move-IsDurable g (inr (inl (n, new, e))) =
      subst (λ h. IsDurable json h) (sym e)
        (line-IsDurable n (load_node n f)
          (record { same_nodes = λ id. refl; same_keys = λ k. refl })
          (enter-IsKeyed f n new d.keys))
  move-IsDurable g (inr (inr (id, n, m, present, same_id, same_key, e))) =
      let own : m.agent_id ≡ id = same_id ∙ d.keys.named id n present in
      subst (λ h. IsDurable json h) (sym e)
        (line-IsDurable m (record f { nodes = insert id m f.nodes })
          (record {
            same_nodes = λ i. ap (λ j. get i (insert j m f.nodes)) own;
            same_keys = λ k. keyed_again m.idempotency_key m.agent_id k f.idempotency (λ j at.
                d.keys.leads id n j present (sym same_key ∙ at) ∙ ap (λ x. some x) (sym own));
          })
          (change-IsKeyed f id n m present same_id same_key d.keys))

module _ (json : NodeCodec) where
  pub fresh-IsDurable : IsDurable json (fresh (some none))
  unfolding get
  fresh-IsDurable = record {
    file = none;
    written = [];
    journaled = refl;
    text = refl;
    same = λ j. record { same_nodes = λ id. refl; same_keys = λ k. refl };
    keys = record { named = λ id n h. cc; leads = λ id n k h e. cc; known = λ k id h. cc };
  }

  pub run_calls-IsDurable :
      (cs : List Call) (f : AgentFleet) → IsDurable json f → IsDurable json (run_calls json cs f)
  run_calls-IsDurable [] f d = d
  run_calls-IsDurable (c ∷ cs) f d =
      run_calls-IsDurable cs (run_call json c f)
        (move-IsDurable json f d (run_call json c f) (run_call-Moves json d.file f d.journaled c))

  line-ne-nil : (t u : Text) → [] ≡ (t ++ newline ∷ []) ++ u → ⊥
  line-ne-nil [] u e = cc
  line-ne-nil (c ∷ t) u e = cc

  load-written :
      IsFaithful json
      → (file : Option Text) (written : List AgentNode)
      → contents file ≡ unlines (map json.encode written)
      → load json file ≡ some (load_nodes written (fresh (some file)))
  unfolding load
  load-written good none [] e = refl
  load-written good none (n ∷ ns) e =
      absurd (line-ne-nil (json.encode n) (unlines (map json.encode ns)) e)
  load-written good (some t) written e = load-encoded json good written t e

  -- When every call writes its line, a fleet that starts with no journal file can be loaded at any time from the file,
  -- with the same agent for every id and the same agent id for every key.
  pub load-run_calls :
      IsFaithful json
      → (cs : List Call)
      → (file : Option Text) × (g : AgentFleet) × ((run_calls json cs (fresh (some none))).journal
          ≡ some file)
        × (load json file ≡ some g)
        × SameAgents g (run_calls json cs (fresh (some none)))
  load-run_calls good cs =
      let d = run_calls-IsDurable cs (fresh (some none)) fresh-IsDurable in
      (
        d.file,
        load_nodes d.written (fresh (some d.file)),
        d.journaled,
        load-written good d.file d.written d.text,
        d.same (some d.file),
      )
