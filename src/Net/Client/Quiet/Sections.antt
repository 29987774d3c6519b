-- ===== src/Net/Client/Quiet/Sections.antt =====
-- The first handshake of a client over the sections of its calls and tasks.
use s2c_rs.Base.{
  ℕ, ◌≡◌, refl, sym, ap, subst, ◌∙◌, ◌≢◌, inl, inr, Bool-cases, Option, Option-cases, List, [], ◌∷◌,
  ◌++◌, append-nil, Bytes, Result, ok, err, length, take, take-append,
}
use s2c_rs.Proto.{S2cMessage}
use s2c_rs.Net.Error.{ClientError, NetworkError}
use s2c_rs.Net.Framing.{frame}
use s2c_rs.Net.Inflight.{Slot, waiting, dropped, answered, add}
use s2c_rs.Net.Client.{running, idle, admitted, registered, queued, returned, handshaking, Client}
use s2c_rs.Net.Client.Calls.{register, enqueue, refuse, give_up, settle_call}
use s2c_rs.Net.Client.Loops.{take_message, after_read, write_out}
use s2c_rs.Net.Client.Connection.{cancel_tasks, is_handshake, handshaken}
use s2c_rs.Net.Client.Quiet.Phases.{
  IsGone, Stage, asks, knows, queues, wrote, Quiet, during, past, IsQuiet, call_moves, ended_moves,
}

module _ (k : ℕ) (p : Bytes) where
  module _ (c : Client) (q : IsQuiet k p c) where
    pub give_up-Quiet :
        (j : ℕ) (id : Bytes) (i : ℕ) (e : ClientError)
        → c.calls j ≡ queued id i
        → IsQuiet k p (give_up j id e c)
    unfolding give_up
    give_up-Quiet j id i e a =
        call_moves k p j _ c.rw_lock c.calls c.receiver c.receiver c.stream (λ x. cc) (λ x. cc)
          (λ s. ended_moves k p (c.calls k) _ id i c.receiver c.stream (ap c.calls s ∙ a) tt) q

    pub settle-Quiet :
        (j : ℕ) (id : Bytes) (i : ℕ) (x : Slot)
        → c.calls j ≡ queued id i
        → IsQuiet k p (settle_call j id x c)
    unfolding settle_call
    settle-Quiet j id i waiting a = q
    settle-Quiet j id i dropped a = give_up-Quiet j id i _ a
    settle-Quiet j id i (answered (err e)) a = give_up-Quiet j id i e a
    settle-Quiet j id i (answered (ok m)) a =
        call_moves k p j _ c.rw_lock c.calls c.receiver c.receiver c.stream (λ x. cc) (λ x. cc)
          (λ s. ended_moves k p (c.calls k) _ id i c.receiver c.stream (ap c.calls s ∙ a) tt) q

    pub register-Quiet :
        (j : ℕ) (id payload : Bytes)
        → c.calls j ≡ admitted id payload
        → IsQuiet k p (register j id payload c)
    unfolding register add
    register-Quiet j id payload a =
        call_moves k p j _ c.rw_lock c.calls c.receiver c.receiver c.stream (λ x. cc) (λ x. cc)
          (λ s. known (ap c.calls s ∙ a)) q
      where
        known :
            c.calls k ≡ admitted id payload
            → Stage k p (c.calls k) c.receiver c.stream
            → Stage k p (registered id payload c.inflight_requests.next) c.receiver c.stream
        known e (asks id' x r s) =
            let same : payload ≡ p = cc in
            knows id _ (ap (λ y. registered id y c.inflight_requests.next) same) r s
        known e (knows id' i x r s) = absurd cc
        known e (queues g r s) = absurd (subst IsGone e g)
        known e (wrote g r n s) = absurd (subst IsGone e g)

    pub enqueue-Quiet :
        (j : ℕ) (id payload : Bytes) (i : ℕ)
        → c.calls j ≡ registered id payload i
        → IsQuiet k p (enqueue j id payload i c)
    unfolding enqueue
    enqueue-Quiet j id payload i a =
        call_moves k p j _ c.rw_lock c.calls c.receiver (c.receiver ++ (payload ∷ [])) c.stream
          (λ x. cc) (λ x. cc) (λ s. filled (ap c.calls s ∙ a)) q
      where
        filled :
            c.calls k ≡ registered id payload i
            → Stage k p (c.calls k) c.receiver c.stream
            → Stage k p (queued id i) (c.receiver ++ (payload ∷ [])) c.stream
        filled e (asks id' x r s) = absurd cc
        filled e (knows id' n x r s) =
            let same : payload ≡ p = cc in
            queues tt (ap (λ l. l ++ (payload ∷ [])) r ∙ ap (λ y. y ∷ []) same) s
        filled e (queues g r s) = absurd (subst IsGone e g)
        filled e (wrote g r n s) = absurd (subst IsGone e g)

    pub refuse-Quiet :
        (j : ℕ) (id payload : Bytes) (i : ℕ)
        → c.calls j ≡ registered id payload i
        → IsQuiet k p (refuse j id c)
    unfolding refuse
    refuse-Quiet j id payload i a =
        call_moves k p j _ c.rw_lock c.calls c.receiver c.receiver c.stream (λ x. cc) (λ x. cc)
          (λ s. turned (ap c.calls s ∙ a)) q
      where
        turned :
            {r : Result S2cMessage ClientError}
            → c.calls k ≡ registered id payload i
            → Stage k p (c.calls k) c.receiver c.stream
            → Stage k p (returned id r) c.receiver c.stream
        turned e (asks id' x r s) = absurd cc
        turned e (knows id' n x r s) = wrote tt r 0 s
        turned e (queues g r s) = absurd (subst IsGone e g)
        turned e (wrote g r n s) = absurd (subst IsGone e g)

    pub handshaken-Quiet :
        (j : ℕ) (id : Bytes) (r : Result S2cMessage ClientError)
        → c.rw_lock ≡ handshaking j
        → c.calls j ≡ returned id r
        → IsQuiet k p (handshaken r c)
    unfolding handshaken cancel_tasks
    handshaken-Quiet j id r h a = go r
      where
        made : IsQuiet k p c → c.calls k ≢ idle
        made (past x l) = l
        made (during x o s) =
            let same : j ≡ k = cc in
            λ y. let e = ap c.calls (sym same) in let b : returned id r ≡ idle = cc in absurd cc

        go : (r : Result S2cMessage ClientError) → IsQuiet k p (handshaken r c)
        go (ok m) = elim (Bool-cases (is_handshake m.body)) [
          | inl e ↦ rw e (past (λ x. cc) (made q))
          | inr e ↦ rw e (past (λ x. cc) (made q))
        ]
        go (err e) = elim (Bool-cases c.tracker_closed) [
          | inl e ↦ rw e (past (λ x. cc) (made q))
          | inr e ↦ rw e (past (λ x. cc) (made q))
        ]

    pub after_read-Quiet : (r : Result S2cMessage NetworkError) → IsQuiet k p (after_read r c)
    unfolding after_read
    after_read-Quiet (err e) = q
    after_read-Quiet (ok m) = elim (Bool-cases (running c.client_state)) [
      | inl e ↦ rw e taken
      | inr e ↦ rw e q
    ]
      where
        taken : IsQuiet k p (take_message m.error m c)
        taken = elim (Option-cases m.error) [
          | inl e ↦ rw (e, take_message) q
          | inr (x, e) ↦ rw (e, take_message) q
        ]

    handed_over :
        (payload : Bytes) (rest : List Bytes) (stream : Bytes) (n : ℕ)
        → c.receiver ≡ payload ∷ rest
        → stream ≡ c.stream ++ take n (frame payload)
        → IsQuiet k p c
        → Quiet k p c.rw_lock c.calls rest stream
    handed_over payload rest stream n e w (past h l) = past h l
    handed_over payload rest stream n e w (during h o (asks id x r s)) = absurd cc
    handed_over payload rest stream n e w (during h o (knows id i x r s)) = absurd cc
    handed_over payload rest stream n e w (during h o (wrote g r m s)) = absurd cc
    handed_over payload rest stream n e w (during h o (queues g r s)) =
        let same : payload ≡ p = cc in
        let none_left : rest ≡ [] = cc in
        let begins : c.stream ++ take n (frame payload) ≡ take n (frame p) =
          ap (λ (x : Bytes). x ++ take n (frame payload)) s ∙ ap (λ y. take n (frame y)) same in
        during h o (wrote g none_left n (w ∙ begins))

    pub write_out-Quiet :
        (payload : Bytes) (rest : List Bytes) (failed : Option ℕ)
        → c.receiver ≡ payload ∷ rest
        → IsQuiet k p (write_out payload rest failed c)
    unfolding write_out
    write_out-Quiet payload rest failed e = elim (Bool-cases (running c.client_state)) [
      | inr x ↦ rw x (handed_over payload rest c.stream 0 e (sym (append-nil c.stream)) q)
      | inl x ↦ elim (Option-cases failed) [
        | inr (n, y) ↦ rw (x, y) (handed_over payload rest _ n e refl q)
        | inl y ↦
            let all : take (length (frame payload)) (frame payload) ≡ frame payload =
              ap (take (length (frame payload))) (sym (append-nil (frame payload)))
              ∙ take-append (frame payload) [] in
            rw (x, y)
              (handed_over payload rest _ (length (frame payload)) e
                (ap (λ (z : Bytes). c.stream ++ z) (sym all)) q)
      ]
    ]
