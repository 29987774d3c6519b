-- ===== src/Net/Client/Order.antt =====
-- In what order the payloads of a client are written.
use s2c_rs.Base.{
  ℕ, take, Option, ◌≡◌, refl, sym, subst, ap, ◌∙◌, Bool, Bool-cases, Option-cases, inl, inr, List,
  [], ◌∷◌, ◌++◌, append_assoc, append-nil, Bytes, Result, ok, err,
}
use mathlib.Core.List.{Sublist, nil-sublist}
use mathlib.Core.List.Sublist
use s2c_rs.Config.{S2cOptions}
use s2c_rs.Codec.{Codec}
use s2c_rs.Context.{Context}
use s2c_rs.Proto.{S2cMessage}
use s2c_rs.Net.Error.{ClientError, NetworkError}
use s2c_rs.Net.Framing.{frame}
use s2c_rs.Net.Framing.Stream.{frames}
use s2c_rs.Net.Inflight.{Slot, waiting, dropped, answered}
use s2c_rs.Net.Client.{
  ClientState, not_connected, connected, ready, closed, running, Client, Writer,
}
use s2c_rs.Net.Client
use s2c_rs.Net.Client.Calls.{
  refusal, send, register, enqueue, refuse, give_up, settle_call, time_out,
}
use s2c_rs.Net.Client.Loops.{
  check_in, take_message, after_read, disconnect, check_out, wake, write_out,
}
use s2c_rs.Net.Client.Connection.{
  connect, connect_tcp, spawn_drain_in, spawn_drain_out, cancel_tasks, is_handshake, handshaken,
  close,
}
use s2c_rs.Net.Client.System.{
  Step, Reach, start, later, sends, registers, enqueues, refuses, settles, times_out, connects,
  shakes, closes, drains, checks_in, receives, disconnects, checks_out, wakes, writes, drops_reader,
  drops_writer,
}

-- What is queued and what was written are the same, and a writer that has ended stays so.
abbrev SameWire : Client → Client → Type 0
SameWire c d =
    (d.stream ≡ c.stream)
    × (d.receiver ≡ c.receiver)
    × (c.writer ≡ Writer.gone → d.writer ≡ Writer.gone)

module _ (c : Client) where
  send-SameWire : (k : ℕ) (id payload : Bytes) → SameWire c (send k id payload c)
  unfolding send
  send-SameWire k id payload = elim (Option-cases (refusal c.client_state)) [
    | inl e ↦ rw (e, send) (refl, refl, λ g. g)
    | inr (x, e) ↦ rw (e, send) (refl, refl, λ g. g)
  ]

  settle-SameWire : (k : ℕ) (id : Bytes) (x : Slot) → SameWire c (settle_call k id x c)
  unfolding settle_call give_up
  settle-SameWire k id waiting = (refl, refl, λ g. g)
  settle-SameWire k id dropped = (refl, refl, λ g. g)
  settle-SameWire k id (answered (err e)) = (refl, refl, λ g. g)
  settle-SameWire k id (answered (ok m)) = (refl, refl, λ g. g)

  cancel_tasks-SameWire :
      (s : ClientState) → SameWire c (cancel_tasks (record c { client_state = s }))
  unfolding cancel_tasks
  cancel_tasks-SameWire s = elim (Bool-cases c.tracker_closed) [
    | inl e ↦ rw e (refl, refl, λ g. g)
    | inr e ↦ rw e (refl, refl, λ g. g)
  ]

  handshaken-SameWire : (r : Result S2cMessage ClientError) → SameWire c (handshaken r c)
  unfolding handshaken
  handshaken-SameWire (ok m) = elim (Bool-cases (is_handshake m.body)) [
    | inl e ↦ rw e (refl, refl, λ g. g)
    | inr e ↦ rw e (refl, refl, λ g. g)
  ]
  handshaken-SameWire (err e) = cancel_tasks-SameWire not_connected

  close-SameWire : SameWire c (close c)
  unfolding close
  close-SameWire = go c.client_state refl
    where
      go : (s : ClientState) → c.client_state ≡ s → SameWire c (close c)
      go closed e = rw (e, close) (refl, refl, λ g. g)
      go not_connected e = rw (e, close) (cancel_tasks-SameWire closed)
      go connected e = rw (e, close) (cancel_tasks-SameWire closed)
      go ready e = rw (e, close) (cancel_tasks-SameWire closed)

  after_read-SameWire : (r : Result S2cMessage NetworkError) → SameWire c (after_read r c)
  unfolding after_read
  after_read-SameWire (err e) = (refl, refl, λ g. g)
  after_read-SameWire (ok m) = elim (Bool-cases (running c.client_state)) [
    | inl e ↦ rw e (taken m)
    | inr e ↦ rw e (refl, refl, λ g. g)
  ]
    where
      taken : (m : S2cMessage) → SameWire c (take_message m.error m c)
      taken m = elim (Option-cases m.error) [
        | inl e ↦ rw (e, take_message) (refl, refl, λ g. g)
        | inr (x, e) ↦ rw (e, take_message) (refl, refl, λ g. g)
      ]

frames-snoc : (ws : List Bytes) (p : Bytes) → frames (ws ++ (p ∷ [])) ≡ frames ws ++ frame p
frames-snoc [] p = append-nil (frame p)
frames-snoc (w ∷ ws) p =
    ap (λ (x : Bytes). frame w ++ x) (frames-snoc ws p)
    ∙ sym (append_assoc (frame w) (frames ws) (frame p))

-- What was written on the last connection is the frames of some payloads, which with those that
-- still wait are, in order, among `ps`; where a write failed and ended the writer, the beginning of
-- the frame of one more payload follows.
pub data Streamed (ps : List Bytes) (c : Client) : Type 0 where
  whole : (ws : List Bytes) → c.stream ≡ frames ws → Sublist (ws ++ c.receiver) ps → Streamed ps c
  cut :
      (ws : List Bytes) (p : Bytes) (n : ℕ)
      → c.writer ≡ Writer.gone
      → c.stream ≡ frames ws ++ take n (frame p)
      → Sublist (ws ++ (p ∷ c.receiver)) ps
      → Streamed ps c

Streamed-SameWire : (ps : List Bytes) (c d : Client) → SameWire c d → Streamed ps c → Streamed ps d
Streamed-SameWire ps c d (w, r, g) (whole ws h s) = whole ws (w ∙ h) (rw r s)
Streamed-SameWire ps c d (w, r, g) (cut ws p n e h s) = cut ws p n (g e) (w ∙ h) (rw r s)

-- Where nothing is queued.
same : (ps : List Bytes) (c d : Client) → SameWire c d → Streamed ps c → Streamed (ps ++ []) d
same ps c d w h = rw (append-nil ps) (Streamed-SameWire ps c d w h)

queue-Sublist :
    (ws xs ps : List Bytes) (p : Bytes)
    → Sublist (ws ++ xs) ps
    → Sublist (ws ++ (xs ++ (p ∷ []))) (ps ++ (p ∷ []))
queue-Sublist ws xs ps p s =
    subst (λ l. Sublist l (ps ++ (p ∷ []))) (append_assoc ws xs (p ∷ []))
      (Sublist.append s (Sublist.refl (p ∷ [])))

enqueue-Streamed :
    (ps : List Bytes) (c : Client) (k : ℕ) (id payload : Bytes) (i : ℕ)
    → Streamed ps c
    → Streamed (ps ++ (payload ∷ [])) (enqueue k id payload i c)
unfolding enqueue
enqueue-Streamed ps c k id payload i (whole ws h s) =
    whole ws h (queue-Sublist ws c.receiver ps payload s)
enqueue-Streamed ps c k id payload i (cut ws p n e h s) =
    cut ws p n e h (queue-Sublist ws (p ∷ c.receiver) ps payload s)

Sublist-back : (ws xs ps : List Bytes) → Sublist (ws ++ xs) ps → Sublist xs ps
Sublist-back ws xs ps s = Sublist.trans (Sublist.append (nil-sublist ws) (Sublist.refl xs)) s

Sublist-without :
    (ws xs ps : List Bytes) (p : Bytes) → Sublist (ws ++ (p ∷ xs)) ps → Sublist (ws ++ xs) ps
Sublist-without ws xs ps p s =
    Sublist.trans (Sublist.append (Sublist.refl ws) (Sublist.cons p (Sublist.refl xs))) s

waiting-Sublist : (ps : List Bytes) (c : Client) → Streamed ps c → Sublist c.receiver ps
waiting-Sublist ps c (whole ws h s) = Sublist-back ws c.receiver ps s
waiting-Sublist ps c (cut ws p n e h s) =
    Sublist-back ws c.receiver ps (Sublist-without ws c.receiver ps p s)

-- A payload that is taken is written or lost.
write_out-Streamed :
    (ps : List Bytes) (c : Client) (payload : Bytes) (rest : List Bytes) (failed : Option ℕ)
    → c.writer ≡ Writer.receives
    → c.receiver ≡ payload ∷ rest
    → Streamed ps c
    → Streamed ps (write_out payload rest failed c)
unfolding write_out
write_out-Streamed ps c payload rest failed w e (cut ws p n g h s) = absurd cc
write_out-Streamed ps c payload rest failed w e (whole ws h s) =
    let t : Sublist (ws ++ (payload ∷ rest)) ps = rw e at s in
    elim (Bool-cases (running c.client_state)) [
      | inr x ↦ rw x (whole ws h (Sublist-without ws rest ps payload t))
      | inl x ↦ elim (Option-cases failed) [
        | inr (n, y) ↦
            rw (x, y) (cut ws payload n refl (ap (λ (x : Bytes). x ++ take n (frame payload)) h) t)
        | inl y ↦
            rw (x, y)
              (whole (ws ++ (payload ∷ []))
                (ap (λ (x : Bytes). x ++ frame payload) h ∙ sym (frames-snoc ws payload))
                (rw (append_assoc ws (payload ∷ []) rest) t))
      ]
    ]

-- A new connection begins with nothing.
connect-Streamed :
    (runs : Bool → Bool) (C : Codec S2cMessage) (ps : List Bytes) (c : Client) (k : ℕ) (id : Bytes)
    (r : Result (Unit {0}) ClientError)
    → Streamed ps c
    → Streamed ps (connect runs C k id r c)
unfolding connect connect_tcp spawn_drain_out spawn_drain_in
connect-Streamed runs C ps c k id r h = go c.client_state refl r
  where
    go :
        (s : ClientState)
        → c.client_state ≡ s
        → (r : Result (Unit {0}) ClientError) → Streamed ps (connect runs C k id r c)
    go not_connected e (ok u) = rw (e, connect) (whole [] refl (waiting-Sublist ps c h))
    go not_connected e (err x) = rw (e, connect) (Streamed-SameWire ps c _ (refl, refl, λ g. g) h)
    go connected e r = rw (e, connect) h
    go ready e r = rw (e, connect) h
    go closed e r = rw (e, connect) h

module _ (runs : Bool → Bool) (C : Codec S2cMessage) where
  -- The payloads that were queued on the way.
  abbrev pub enqueued_by : {c d : Client} → Step runs C c d → List Bytes
  enqueued_by (sends k id payload a b) = []
  enqueued_by (registers k id payload a) = []
  enqueued_by (enqueues k id payload i a b) = payload ∷ []
  enqueued_by (refuses k id payload i a) = []
  enqueued_by (settles k id i a) = []
  enqueued_by (times_out k id i a) = []
  enqueued_by (connects k id r a b e) = []
  enqueued_by (shakes k id r a b) = []
  enqueued_by (closes a) = []
  enqueued_by (drains a b) = []
  enqueued_by (checks_in a) = []
  enqueued_by (receives r a) = []
  enqueued_by (disconnects a) = []
  enqueued_by (checks_out a) = []
  enqueued_by (wakes a) = []
  enqueued_by (writes payload rest failed a b) = []
  enqueued_by (drops_reader a) = []
  enqueued_by (drops_writer a) = []

  abbrev pub payloads : {c d : Client} → Reach runs C c d → List Bytes
  payloads start = []
  payloads (later r s) = payloads r ++ enqueued_by s

  Step-Streamed :
      (ps : List Bytes) {c d : Client} (s : Step runs C c d)
      → Streamed ps c
      → Streamed (ps ++ enqueued_by s) d
  unfolding register refuse time_out give_up check_in disconnect check_out wake
  Step-Streamed ps {c} {d} (enqueues k id payload i a b) h = enqueue-Streamed ps c k id payload i h
  Step-Streamed ps {c} {d} (sends k id payload a b) h = same ps c d (send-SameWire c k id payload) h
  Step-Streamed ps {c} {d} (registers k id payload a) h = same ps c d (refl, refl, λ g. g) h
  Step-Streamed ps {c} {d} (refuses k id payload i a) h = same ps c d (refl, refl, λ g. g) h
  Step-Streamed ps {c} {d} (settles k id i a) h = same ps c d (settle-SameWire c k id _) h
  Step-Streamed ps {c} {d} (times_out k id i a) h = same ps c d (refl, refl, λ g. g) h
  Step-Streamed ps {c} {d} (connects k id r a b e) h =
      rw (append-nil ps) (connect-Streamed runs C ps c k id r h)
  Step-Streamed ps {c} {d} (shakes k id r a b) h = same ps c d (handshaken-SameWire c r) h
  Step-Streamed ps {c} {d} (closes a) h = same ps c d (close-SameWire c) h
  Step-Streamed ps {c} {d} (drains a b) h = same ps c d (refl, refl, λ g. g) h
  Step-Streamed ps {c} {d} (checks_in a) h = same ps c d (refl, refl, λ g. g) h
  Step-Streamed ps {c} {d} (receives r a) h = same ps c d (after_read-SameWire c r) h
  Step-Streamed ps {c} {d} (disconnects a) h = same ps c d (refl, refl, λ g. g) h
  Step-Streamed ps {c} {d} (checks_out a) h = same ps c d (refl, refl, λ g. absurd cc) h
  Step-Streamed ps {c} {d} (wakes a) h = same ps c d (refl, refl, λ g. absurd cc) h
  Step-Streamed ps {c} {d} (writes payload rest failed a b) h =
      rw (append-nil ps) (write_out-Streamed ps c payload rest failed a b h)
  Step-Streamed ps {c} {d} (drops_reader a) h = same ps c d (refl, refl, λ g. g) h
  Step-Streamed ps {c} {d} (drops_writer a) h = same ps c d (refl, refl, λ g. refl) h

  Reach-Streamed : {c d : Client} (r : Reach runs C c d) → Streamed [] c → Streamed (payloads r) d
  Reach-Streamed start h = h
  Reach-Streamed (later r s) h = Step-Streamed (payloads r) s (Reach-Streamed r h)

  -- In every state that a new client can reach, what was handed to the writer of its last
  -- connection is the frames of some payloads, and these followed by the payloads that still wait
  -- are, in order, a sublist of the payloads that were queued on the way; or a write failed and
  -- ended the writer, the beginning of the frame of one more payload comes after the frames, and
  -- this payload stands between the two in the sublist.
  pub written_in_order :
      (o : S2cOptions) (context : Context) (c : Client) (r : Reach runs C (Client.new o context) c)
      → Streamed (payloads r) c
  unfolding Client.new
  written_in_order o context c r = Reach-Streamed r (whole [] refl (Sublist.refl []))
