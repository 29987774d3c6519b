-- ===== src/Net/Server/Single.antt =====
-- Who owns the port.
use s2c_rs.Base.{ℕ, ◌≡◌, refl, ◌∙◌, ◌≢◌, Bool, true, false, Bool-cases, inl, inr, arith}
use s2c_rs.Net.Server.{ServerState, not_bound, binding, ready, closed}
use s2c_rs.Net.Server.Tasks.{
  Task, idle, starting, accepting, awaiting, leaving, releasing, rebinding, ended, Server, new,
  set_task, exchange, begin_start, end_start, is_closed, check_accept, accepted, release, take_back,
  end_rebind, close, Step, begins, starts, checks, accepts, releases, takes_back, rebinds, closes,
  drops, Reach, start, later,
}

-- The tasks that bind the port or serve it.
unfoldable pub owns : Task → Bool
owns idle = false
owns starting = true
owns accepting = true
owns awaiting = true
owns leaving = true
owns releasing = false
owns rebinding = true
owns ended = false

pub record IsSingle (c : Server) : Type 0 where
  pub one : (i j : ℕ) → owns (c.tasks i) ≡ true → owns (c.tasks j) ≡ true → i ≡ j
  pub nobody : c.server_state ≡ not_bound → (i : ℕ) → owns (c.tasks i) ≡ false

-- Task `k` goes on in `x` and owns the port only if it did before.
module _ (c : Server) (k : ℕ) (x : Task) (v : IsSingle c) where
  one_after :
      (owns x ≡ true → owns (c.tasks k) ≡ true)
      → (i j : ℕ) → owns (set_task k x c.tasks i) ≡ true
      → owns (set_task k x c.tasks j) ≡ true
      → i ≡ j
  one_after h i j a b = ground (arith, v.one i j, v.one k j, v.one i k)

  same_state :
      (s : ServerState)
      → c.server_state ≡ s
      → (owns x ≡ true → owns (c.tasks k) ≡ true)
      → IsSingle (record c { server_state = s; tasks = set_task k x c.tasks })
  same_state s same h = record {
    one = one_after h;
    nobody = λ e i. ground (arith, v.nobody (same ∙ e) i, v.nobody (same ∙ e) k);
  }

  bound_state :
      (s : ServerState) (token : Bool) (n : ℕ)
      → s ≢ not_bound
      → (owns x ≡ true → owns (c.tasks k) ≡ true)
      → IsSingle (record c {
        server_state = s;
        cancelled = token;
        tasks = set_task k x c.tasks;
        connections = n;
      })
  bound_state s token n b h = record { one = one_after h; nobody = λ e i. absurd (b e) }

  -- Nobody owned the port.
  taken_port :
      (s : ServerState)
      → c.server_state ≡ not_bound
      → s ≢ not_bound
      → IsSingle (record c { server_state = s; tasks = set_task k x c.tasks })
  taken_port s e b = record {
    one = λ i j a d. ground (arith, v.nobody e i, v.nobody e j);
    nobody = λ f i. absurd (b f);
  }

  -- The owner gives it up.
  given_port :
      (s : ServerState)
      → owns x ≡ false
      → owns (c.tasks k) ≡ true
      → IsSingle (record c { server_state = s; tasks = set_task k x c.tasks })
  given_port s e h = record {
    one = one_after (λ a. h);
    nobody = λ f i. elim (Bool-cases (owns (c.tasks i))) [
      | inl a ↦ ground (arith, v.one k i h a)
      | inr a ↦ ground arith
    ];
  }

module _ (c : Server) (v : IsSingle c) (k : ℕ) where
  -- From `NotBound` to `Binding`, by a task that does not own the port.
  acquired : (x : Task) → IsSingle (exchange not_bound binding k x ended c)
  unfolding exchange owns
  acquired x = go c.server_state refl
    where
      go :
          (s : ServerState) → c.server_state ≡ s → IsSingle (exchange not_bound binding k x ended c)
      go not_bound e = rw (e, exchange) (taken_port c k x v binding e (λ h. cc))
      go binding e = rw (e, exchange) (same_state c k ended v binding e (λ h. cc))
      go ready e = rw (e, exchange) (same_state c k ended v ready e (λ h. cc))
      go closed e = rw (e, exchange) (same_state c k ended v closed e (λ h. cc))

  released : c.tasks k ≡ leaving → IsSingle (release k c)
  unfolding release exchange owns
  released a = go c.server_state refl
    where
      go : (s : ServerState) → c.server_state ≡ s → IsSingle (release k c)
      go not_bound e = rw (e, exchange) (same_state c k ended v not_bound e (λ h. cc))
      go binding e = rw (e, exchange) (same_state c k ended v binding e (λ h. cc))
      go ready e = rw (e, exchange) (given_port c k releasing v not_bound refl (rw a refl))
      go closed e = rw (e, exchange) (same_state c k ended v closed e (λ h. cc))

  unbound : (x : Task) → owns x ≡ false → IsSingle (record c { tasks = set_task k x c.tasks })
  unbound x h = same_state c k x v c.server_state refl (λ a. cc)

  end_start-IsSingle : (bound : Bool) → c.tasks k ≡ starting → IsSingle (end_start k bound c)
  unfolding end_start owns
  end_start-IsSingle true a =
      bound_state c k accepting v ready c.cancelled c.connections (λ h. cc) (λ h. rw a refl)
  end_start-IsSingle false a = unbound ended refl

  check_accept-IsSingle : c.tasks k ≡ accepting → IsSingle (check_accept k c)
  unfolding check_accept owns
  check_accept-IsSingle a = same_state c k _ v c.server_state refl (λ h. rw a refl)

  accepted-IsSingle : (accept_ok : Bool) → c.tasks k ≡ awaiting → IsSingle (accepted k accept_ok c)
  unfolding accepted owns is_closed
  accepted-IsSingle false a = same_state c k leaving v c.server_state refl (λ h. rw a refl)
  accepted-IsSingle true a = elim (Bool-cases (is_closed c.server_state)) [
    | inl e ↦ rw e (same_state c k leaving v c.server_state refl (λ h. rw a refl))
    | inr e ↦
        let open_state = same_state c k accepting v c.server_state refl (λ h. rw a refl) in
        rw e (record { one = open_state.one; nobody = open_state.nobody })
  ]

  end_rebind-IsSingle : (bound : Bool) → c.tasks k ≡ rebinding → IsSingle (end_rebind k bound c)
  unfolding end_rebind owns
  end_rebind-IsSingle true a =
      bound_state c k accepting v ready c.cancelled c.connections (λ h. cc) (λ h. rw a refl)
  end_rebind-IsSingle false a =
      bound_state c k ended v closed c.cancelled c.connections (λ h. cc) (λ h. cc)

  close-IsSingle : IsSingle (close c)
  unfolding close
  close-IsSingle = elim (Bool-cases (is_closed c.server_state)) [
    | inl e ↦ rw e v
    | inr e ↦ rw e (record { one = v.one; nobody = λ h i. cc })
  ]

Step-IsSingle : {c d : Server} → Step c d → IsSingle c → IsSingle d
unfolding begin_start take_back owns
Step-IsSingle {c} (begins k a) v = acquired c v k starting
Step-IsSingle {c} (starts k bound a) v = end_start-IsSingle c v k bound a
Step-IsSingle {c} (checks k a) v = check_accept-IsSingle c v k a
Step-IsSingle {c} (accepts k accept_ok a) v = accepted-IsSingle c v k accept_ok a
Step-IsSingle {c} (releases k a) v = released c v k a
Step-IsSingle {c} (takes_back k a) v = acquired c v k rebinding
Step-IsSingle {c} (rebinds k bound a) v = end_rebind-IsSingle c v k bound a
Step-IsSingle {c} closes v = close-IsSingle c v 0
Step-IsSingle {c} (drops k a b) v = unbound c v k ended refl

Reach-IsSingle : {c : Server} → Reach c → IsSingle c
unfolding new owns
Reach-IsSingle start = record { one = λ i j a b. cc; nobody = λ e i. refl }
Reach-IsSingle (later r s) = Step-IsSingle s (Reach-IsSingle r)

-- In every state that the tasks of a new server can reach, at most one task binds the port or
-- serves it.
pub one_owner :
    (c : Server) (i j : ℕ) → Reach c → owns (c.tasks i) ≡ true → owns (c.tasks j) ≡ true → i ≡ j
one_owner c i j r a b = (Reach-IsSingle r).one i j a b
