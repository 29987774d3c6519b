-- ===== src/Examples/Wires.antt =====
-- A client that has sent its handshake, at the other end of a group server.
use s2c_rs.Base.{
  append-nil, length, ◌++◌, zero, suc, ◌≡◌, refl, not, List, [], ◌∷◌, map, Option, none, Bytes,
  codes, ok, err, arith,
}
use mathlib.Core.List.{Sublistᴰ}
use s2c_rs.Codec.{Codec}
use s2c_rs.Config.{default_options}
use s2c_rs.Proto.{S2cMessage, S2cMessageEnvelope}
use s2c_rs.Net.Error.{NetworkError}
use s2c_rs.Net.Error
use s2c_rs.Net.Framing.{Reader, read_next_message}
use s2c_rs.Net.Framing.Stream.{read_all}
use s2c_rs.Net.Inflight.{waiting}
use s2c_rs.Net.Client.{Client, not_connected, queued, returned}
use s2c_rs.Net.Client
use s2c_rs.Net.Client.Calls.{register, enqueue, settle_call}
use s2c_rs.Net.Client.Loops.{after_read, disconnect, check_out, write_out}
use s2c_rs.Net.Client.Connection.{connect}
use s2c_rs.Net.Client.System.{
  Reach, start, later, registers, enqueues, connects, checks_out, writes,
}
use s2c_rs.Net.Group.{start_read_loop, drain_out}
use s2c_rs.Net.Group.Delivery.{for_node, sending}
use s2c_rs.Net.Wire.Disconnect.{RejectsZero, first_message_disconnects}
use s2c_rs.Net.Wire.Delivery.{delivered_in_order}
use s2c_rs.Examples.Serial.{Serial, codec, codec_laws}
use s2c_rs.Examples.Messages.{messages}
use s2c_rs.Examples.Nodes.{node_b}
use s2c_rs.Examples.Clients.{context, fresh, greeting}

-- An encoding behind a one.
abbrev get_marked : Bytes → Option (S2cMessage × Bytes)
get_marked [] = none
get_marked (zero ∷ s) = none
get_marked (suc n ∷ s) = messages.get s

abbrev marked : Serial S2cMessage
marked = record { put = λ m. 1 ∷ messages.put m; get = get_marked; get-put = messages.get-put }

abbrev link : Codec S2cMessage
link = codec marked

link-RejectsZero : RejectsZero link
link-RejectsZero = λ s. ([], refl)

abbrev dialled : Client
dialled = connect not link 0 (codes "h") (ok tt) fresh

abbrev noted : Client
noted = register 0 (codes "h") (link.encode greeting) dialled

abbrev waits : Client
waits = enqueue 0 (codes "h") (link.encode greeting) 0 noted

abbrev sent : Client
sent = write_out (link.encode greeting) [] none (check_out waits)

sent-Reach : Reach not link fresh sent
unfolding Client.new connect s2c_rs.Net.Client.Connection.connect_tcp register
    s2c_rs.Net.Inflight.add s2c_rs.Net.Inflight.new enqueue check_out Client.running
sent-Reach =
    later
      (later
        (later
          (later (later start (connects 0 (codes "h") (ok tt) refl refl (λ a b. (refl, refl))))
            (registers 0 (codes "h") (link.encode greeting) refl))
          (enqueues 0 (codes "h") (link.encode greeting) 0 refl (omega arith)))
        (checks_out refl))
      (writes (link.encode greeting) [] none refl refl)

sent_call : sent.calls 0 ≡ queued (codes "h") 0
unfolding write_out Client.running check_out enqueue register connect Client.new
    s2c_rs.Net.Client.Connection.connect_tcp
sent_call = refl

sent_waits : sent.inflight_requests.slots 0 ≡ waiting
unfolding write_out Client.running check_out enqueue register connect Client.new
    s2c_rs.Net.Client.Connection.connect_tcp s2c_rs.Net.Inflight.add s2c_rs.Net.Inflight.new
sent_waits = refl

abbrev reader : Reader
reader = record { max_message_size = 1000; buf = [] }

abbrev answer : List S2cMessageEnvelope
answer = for_node node_b greeting ∷ []

first_message_disconnects_example :
    let f =
      read_next_message
        (codes "eof")
        link
        reader
        (drain_out link [] (map sending answer)).written in
    let d = after_read f.result sent in
    (e : NetworkError) × (f.result ≡ err e)
    × ((settle_call 0 (codes "h") (d.inflight_requests.slots 0) d).calls 0
        ≡ returned (codes "h") (err (Error.ClientError.io e)))
    × ((disconnect d).client_state ≡ not_connected)
unfolding s2c_rs.Net.Client.Connection.handshake_message s2c_rs.Context.new drain_out
    s2c_rs.Net.Framing.frame s2c_rs.Net.Framing.be32 s2c_rs.Net.Group.resized
first_message_disconnects_example =
    first_message_disconnects link (codec_laws marked) link-RejectsZero not (codes "eof")
      default_options context sent 0 (codes "h") 0 reader (for_node node_b greeting) []
      (drain_out link [] (map sending answer)).written [] sent-Reach sent_call sent_waits
      (omega arith) (omega arith) (append-nil _) (omega arith)

-- The whole frame has arrived.
delivered_in_order_example : ∥ (
    (got : List S2cMessage) × Sublistᴰ got (greeting ∷ [])
    × (read_all (codes "eof") link (suc (length got)) reader sent.stream
        ≡ map ok got ++ (err (NetworkError.io (codes "eof")) ∷ []))) ∥₁
unfolding sent-Reach s2c_rs.Context.new
delivered_in_order_example =
    delivered_in_order (codes "eof") link (codec_laws marked) not default_options context sent
      sent-Reach (greeting ∷ []) reader sent.stream [] refl (omega arith) (omega arith, tt)
      (append-nil _)
