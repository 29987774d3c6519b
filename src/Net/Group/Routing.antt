-- ===== src/Net/Group/Routing.antt =====
-- To whom `inner_drain_out` of the group server hands the messages of a group.
use s2c_rs.Base.{
  ◌≡◌, refl, ap, ap₂, subst, Bool-cases, inl, inr, true, false, List, [], ◌∷◌, map, drop, Bytes,
  All, arith, eq_bytes, if◌then◌else◌,
}
use s2c_rs.Proto.{NodeIdentity, S2cMessageEnvelope}
use s2c_rs.Net.Group.{is_node, has_node, Outgoing, inner_drain_out}

-- The messages of a list that are to a node.
abbrev pub to_node : NodeIdentity → List S2cMessageEnvelope → List S2cMessageEnvelope
to_node n [] = []
to_node n (x ∷ xs) = let rest = to_node n xs in if is_node n x.node_identity then x ∷ rest else rest

abbrev pub message_of : Outgoing → S2cMessageEnvelope
message_of x = x.message

eq_bytes_same : (s t : Bytes) → eq_bytes s t ≡ true → s ≡ t
eq_bytes_same [] [] h = refl
eq_bytes_same [] (d ∷ t) h = absurd cc
eq_bytes_same (c ∷ s) [] h = absurd cc
eq_bytes_same (c ∷ s) (d ∷ t) h =
    let first : c ≡ d = ground arith in
    let rest : eq_bytes s t ≡ true = ground arith in ap₂ ◌∷◌ first (eq_bytes_same s t rest)

is_node_same : (m n : NodeIdentity) → is_node m n ≡ true → m ≡ n
unfolding is_node
is_node_same m n h =
    let a = eq_bytes_same m.id n.id (ground arith) in
    let b = eq_bytes_same m.address n.address (ground arith) in
    let c : m.port ≡ n.port = ground arith in
    let d = eq_bytes_same m.az n.az (ground arith) in
    λ i. record { id = a i; address = b i; port = c i; az = d i }

module _ (n : NodeIdentity) where
  -- Once the sender of the node is known, every message to it is handed on.
  known_node :
      (known : List NodeIdentity) (xs : List Outgoing)
      → has_node n known ≡ true
      → to_node n (inner_drain_out known xs) ≡ to_node n (map message_of xs)
  unfolding inner_drain_out has_node
  known_node known [] h = refl
  known_node known (x ∷ xs) h =
      let m = x.message.node_identity in
      let rest = known_node known xs h in
      let learned = known_node (m ∷ known) xs (ground arith) in
      let own : is_node n m ≡ true → has_node m known ≡ true =
        λ e. subst (λ k. has_node k known ≡ true) (is_node_same n m e) h in
      elim (Bool-cases (is_node n m)) [
        | inl e ↦ rw (e, own e) (rw e (ap (◌∷◌ x.message) rest))
        | inr e ↦ elim (Bool-cases (has_node m known)) [
          | inl f ↦ rw (e, f) (rw e rest)
          | inr f ↦ elim (Bool-cases (has_node m x.clients_ins)) [
            | inl g ↦ rw (e, f, g) learned
            | inr g ↦ rw (e, f, g) rest
          ]
        ]
      ]

  -- The first message to it is used up by the look-up of its sender.
  new_node :
      (known : List NodeIdentity) (xs : List Outgoing)
      → has_node n known ≡ false
      → All (λ x. has_node n x.clients_ins ≡ true) xs
      → to_node n (inner_drain_out known xs) ≡ drop 1 (to_node n (map message_of xs))
  unfolding inner_drain_out has_node
  new_node known [] h a = refl
  new_node known (x ∷ xs) h a =
      let m = x.message.node_identity in
      let rest = new_node known xs h a.1 in
      elim (Bool-cases (is_node n m)) [
        | inl e ↦
            let same = is_node_same n m e in
            let f : has_node m known ≡ false = subst (λ k. has_node k known ≡ false) same h in
            let g : has_node m x.clients_ins ≡ true =
              subst (λ k. has_node k x.clients_ins ≡ true) same a.0 in
            rw (e, f, g) (known_node (m ∷ known) xs (ground arith))
        | inr e ↦
            let learned = new_node (m ∷ known) xs (ground arith) a.1 in
            elim (Bool-cases (has_node m known)) [
              | inl f ↦ rw (e, f) (rw e rest)
              | inr f ↦ elim (Bool-cases (has_node m x.clients_ins)) [
                | inl g ↦ rw (e, f, g) learned
                | inr g ↦ rw (e, f, g) rest
              ]
            ]
      ]

  -- If a node is registered whenever a new `inner_drain_out` looks for a sender, then of the
  -- messages to this node among all that it receives, those to other nodes between them included,
  -- all but the first one reach the channel of the node, in order.
  pub first_message_lost :
      (xs : List Outgoing)
      → All (λ x. has_node n x.clients_ins ≡ true) xs
      → to_node n (inner_drain_out [] xs) ≡ drop 1 (to_node n (map message_of xs))
  unfolding has_node
  first_message_lost xs a = new_node [] xs refl a
