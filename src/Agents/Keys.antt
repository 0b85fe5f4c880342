-- ===== src/Agents/Keys.antt =====
-- crates/core-runtime/src/agent_fleet.rs: which node an idempotency key leads to.
use zmodbit.Prelude.{
  ◌≡◌, refl, sym, ap, ◌∙◌, ◌⊎◌, inl, inr, true, false, Bool-cases, Option, none, some, Text,
  text_eq, text_eq_iff, Map, get, insert, get-insert, arith,
}
use zmodbit.Agents.Nodes.{AgentNode, AgentFleet}
use zmodbit.Agents.Fleet.{load_node, keyed, known_agent}

-- A node stands under its id, its key leads to it, and every key leads to a node.
pub record IsKeyed (f : AgentFleet) : Type 0 where
  pub named : (id : Text) (n : AgentNode) → get id f.nodes ≡ some n → n.agent_id ≡ id
  pub leads :
      (id : Text) (n : AgentNode) (key : Text)
      → get id f.nodes ≡ some n
      → n.idempotency_key ≡ some key
      → get key f.idempotency ≡ some id
  pub known :
      (key id : Text)
      → get key f.idempotency ≡ some id
      → (n : AgentNode) × (get id f.nodes ≡ some n)

module _ {V : Type 0} where
  get-insert_same :
      (k j : Text) (v : V) (m : Map V) → text_eq k j ≡ true → get j (insert k v m) ≡ some v
  get-insert_same k j v m e = rw (get-insert j k v m, e) refl

  get-insert_other :
      (k j : Text) (v : V) (m : Map V) → text_eq k j ≡ false → get j (insert k v m) ≡ get j m
  get-insert_other k j v m e = rw (get-insert j k v m, e) refl

  pub insert-agree :
      (k j : Text) (v : V) (m m' : Map V)
      → get j m ≡ get j m'
      → get j (insert k v m) ≡ get j (insert k v m')
  insert-agree k j v m m' e = rw (get-insert j k v m, get-insert j k v m', e) refl

pub keyed-agree :
    (key : Option Text) (id k : Text) (m m' : Map Text)
    → get k m ≡ get k m'
    → get k (keyed key id m) ≡ get k (keyed key id m')
keyed-agree none id k m m' e = e
keyed-agree (some key) id k m m' e = insert-agree key k id m m' e

-- A key that is entered already leads where it did.
pub keyed_again :
    (key : Option Text) (id k : Text) (m : Map Text)
    → ((j : Text) → key ≡ some j → get j m ≡ some id)
    → get k (keyed key id m) ≡ get k m
keyed_again none id k m h = refl
keyed_again (some key) id k m h = elim (Bool-cases (text_eq key k)) [
  | inl q ↦
      get-insert_same key k id m q ∙ sym (h key refl) ∙ ap (λ j. get j m) ((text_eq_iff key k).0 q)
  | inr q ↦ get-insert_other key k id m q
]

-- A key that is new leaves those that are known.
pub keyed_new :
    (key : Option Text) (own k id : Text) (f : AgentFleet)
    → known_agent key f ≡ none
    → get k f.idempotency ≡ some id
    → get k (keyed key own f.idempotency) ≡ some id
keyed_new none own k id f new h = h
keyed_new (some key) own k id f new h = elim (Bool-cases (text_eq key k)) [
  | inl q ↦
      let same : get key f.idempotency ≡ get k f.idempotency =
        ap (λ j. get j f.idempotency) ((text_eq_iff key k).0 q) in
      cc
  | inr q ↦ get-insert_other key k own f.idempotency q ∙ h
]

keyed_own :
    (key : Option Text) (own k : Text) (m : Map Text)
    → key ≡ some k
    → get k (keyed key own m) ≡ some own
keyed_own none own k m e = cc
keyed_own (some key) own k m e = get-insert_same key k own m ((text_eq_iff key k).1 (ground arith))

keyed_source :
    (key : Option Text) (own k id : Text) (m : Map Text)
    → get k (keyed key own m) ≡ some id
    → (own ≡ id) ⊎ (get k m ≡ some id)
keyed_source none own k id m h = inr h
keyed_source (some key) own k id m h = elim (Bool-cases (text_eq key k)) [
  | inl q ↦ let e = get-insert_same key k own m q in inl (ground arith)
  | inr q ↦ inr (sym (get-insert_other key k own m q) ∙ h)
]

-- After a node is put at an id, this id has it and the others what they had.
module _ (at : Text) (n : AgentNode) (nodes : Map AgentNode) where
  put_cases :
      (id : Text) (p : AgentNode)
      → get id (insert at n nodes) ≡ some p
      → ((at ≡ id) × (p ≡ n)) ⊎ (get id nodes ≡ some p)
  put_cases id p h = elim (Bool-cases (text_eq at id)) [
    | inl q ↦ let e = get-insert_same at id n nodes q in inl ((text_eq_iff at id).0 q, ground arith)
    | inr q ↦ inr (sym (get-insert_other at id n nodes q) ∙ h)
  ]

  put_known :
      (id : Text)
      → (at ≡ id) ⊎ ((p : AgentNode) × (get id nodes ≡ some p))
      → (p : AgentNode) × (get id (insert at n nodes) ≡ some p)
  put_known id h = elim (Bool-cases (text_eq at id)) [
    | inl q ↦ (n, get-insert_same at id n nodes q)
    | inr q ↦ elim h [
      | inl e ↦ absurd (let t = (text_eq_iff at id).1 e in cc)
      | inr (p, present) ↦ (p, get-insert_other at id n nodes q ∙ present)
    ]
  ]

pub enter-IsKeyed :
    (f : AgentFleet) (n : AgentNode)
    → known_agent n.idempotency_key f ≡ none
    → IsKeyed f
    → IsKeyed (load_node n f)
enter-IsKeyed f n new v = record {
  named = λ id p h. elim (put_cases n.agent_id n f.nodes id p h) [
    | inl (e, s) ↦ ap (λ m. m.agent_id) s ∙ e
    | inr old ↦ v.named id p old
  ];
  leads = λ id p key h k. elim (put_cases n.agent_id n f.nodes id p h) [
    | inl (e, s) ↦
        keyed_own n.idempotency_key n.agent_id key f.idempotency
          (sym (ap (λ m. m.idempotency_key) s) ∙ k)
        ∙ ap (λ i. some i) e
    | inr old ↦ keyed_new n.idempotency_key n.agent_id key id f new (v.leads id p key old k)
  ];
  known = λ key id h.
      put_known n.agent_id n f.nodes id
        (elim (keyed_source n.idempotency_key n.agent_id key id f.idempotency h) [
          | inl e ↦ inl e
          | inr old ↦ inr (v.known key id old)
        ]);
}

pub change-IsKeyed :
    (f : AgentFleet) (id : Text) (n m : AgentNode)
    → get id f.nodes ≡ some n
    → m.agent_id ≡ n.agent_id
    → m.idempotency_key ≡ n.idempotency_key
    → IsKeyed f
    → IsKeyed (record f { nodes = insert id m f.nodes })
change-IsKeyed f id n m present same_id same_key v = record {
  named = λ i p h. elim (put_cases id m f.nodes i p h) [
    | inl (e, s) ↦ ap (λ q. q.agent_id) s ∙ same_id ∙ v.named id n present ∙ e
    | inr old ↦ v.named i p old
  ];
  leads = λ i p key h k. elim (put_cases id m f.nodes i p h) [
    | inl (e, s) ↦
        v.leads id n key present (sym same_key ∙ sym (ap (λ q. q.idempotency_key) s) ∙ k)
        ∙ ap (λ j. some j) e
    | inr old ↦ v.leads i p key old k
  ];
  known = λ key i h. put_known id m f.nodes i (inr (v.known key i h));
}
