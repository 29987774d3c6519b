-- ===== src/Examples/Messages.antt =====
-- The plain encoding of the messages between nodes.
use s2c_rs.Base.{ℕ, zero, suc, ◌≡◌, refl, ◌⊎◌, inl, inr, [], ◌∷◌, ◌++◌, Option, none, some, Bytes}
use s2c_rs.Codec.{Codec, CodecLaws}
use s2c_rs.Proto.{
  S2cMessage, Body, S2cError, StateRequest, ReplicateRequest, ReplicateResponse, Follow, Handshake,
  state_request, state_request_response, replicate_request, replicate_response, follow,
  follow_response, handshake, not_leader_error, leader_starting_error, not_follower_error,
  slow_down_error, internal_error, unknown_group_error,
}
use s2c_rs.Examples.Serial.{
  Serial, ◌>>=◌, along, pair, text, optional, number, node, batch, state_requests, codec,
  codec_laws,
}

module _ {A B : Type 0} (a : Serial A) (b : Serial B) where
  abbrev pub put_either : A ⊎ B → Bytes
  put_either (inl x) = 0 ∷ a.put x
  put_either (inr y) = 1 ∷ b.put y

  abbrev pub get_either : Bytes → Option ((A ⊎ B) × Bytes)
  get_either [] = none
  get_either (zero ∷ s) = a.get s >>= λ (x, t). some (inl x, t)
  get_either (suc n ∷ s) = b.get s >>= λ (y, t). some (inr y, t)

  pub get-put_either :
      (e : A ⊎ B) (rest : Bytes) → get_either (put_either e ++ rest) ≡ some (e, rest)
  get-put_either (inl x) rest = rw (a.get-put x rest)
  get-put_either (inr y) rest = rw (b.get-put y rest)

  abbrev pub either : Serial (A ⊎ B)
  either = record { put = put_either; get = get_either; get-put = get-put_either }

abbrev pub nothing : Serial (Unit {0})
nothing = record { put = λ u. []; get = λ s. some (tt, s); get-put = λ u rest. refl }

abbrev pub greeting : Serial Handshake
greeting =
    along (pair text (optional node)) (λ t. record { group_id = t.0; node_identity = t.1 })
      (λ h. (h.group_id, h.node_identity)) (λ h. refl)

abbrev pub follows : Serial Follow
follows =
    along (pair number (pair (optional node) text))
      (λ t. record { apply_index = t.0; node_identity = t.1.0; group_id = t.1.1 })
      (λ f. (f.apply_index, (f.node_identity, f.group_id))) (λ f. refl)

abbrev pub replicates : Serial ReplicateRequest
replicates =
    along (pair (pair (optional batch) number) (pair text (optional nothing)))
      (λ t. record {
        batch = t.0.0;
        commit_index = t.0.1;
        group_id = t.1.0;
        follower_too_far_behind_error = t.1.1;
      })
      (λ r. ((r.batch, r.commit_index), (r.group_id, r.follower_too_far_behind_error))) (λ r. refl)

abbrev pub applied : Serial ReplicateResponse
applied = along number (λ n. record { apply_index = n }) (λ r. r.apply_index) (λ r. refl)

abbrev pub Cases : Type 0
Cases =
    StateRequest
    ⊎ (Option Bytes ⊎ (ReplicateRequest ⊎ (ReplicateResponse ⊎ (Follow ⊎ (Unit {0} ⊎ Handshake)))))

abbrev pub body_of : Cases → Body
body_of (inl r) = state_request r
body_of (inr (inl r)) = state_request_response r
body_of (inr (inr (inl r))) = replicate_request r
body_of (inr (inr (inr (inl r)))) = replicate_response r
body_of (inr (inr (inr (inr (inl f))))) = follow f
body_of (inr (inr (inr (inr (inr (inl u)))))) = follow_response
body_of (inr (inr (inr (inr (inr (inr h)))))) = handshake h

abbrev pub case_of : Body → Cases
case_of (state_request r) = inl r
case_of (state_request_response r) = inr (inl r)
case_of (replicate_request r) = inr (inr (inl r))
case_of (replicate_response r) = inr (inr (inr (inl r)))
case_of (follow f) = inr (inr (inr (inr (inl f))))
case_of follow_response = inr (inr (inr (inr (inr (inl tt)))))
case_of (handshake h) = inr (inr (inr (inr (inr (inr h)))))

pub body-case_of : (b : Body) → body_of (case_of b) ≡ b
body-case_of (state_request r) = refl
body-case_of (state_request_response r) = refl
body-case_of (replicate_request r) = refl
body-case_of (replicate_response r) = refl
body-case_of (follow f) = refl
body-case_of follow_response = refl
body-case_of (handshake h) = refl

abbrev pub bodies : Serial Body
bodies =
    along
      (either state_requests (
        either (optional text)
          (either replicates (either applied (either follows (either nothing greeting))))))
      body_of case_of body-case_of

abbrev pub error_of : ℕ → S2cError
error_of zero = not_leader_error
error_of (suc zero) = leader_starting_error
error_of (suc (suc zero)) = not_follower_error
error_of (suc (suc (suc zero))) = slow_down_error
error_of (suc (suc (suc (suc zero)))) = internal_error
error_of (suc (suc (suc (suc (suc n))))) = unknown_group_error

abbrev pub number_of : S2cError → ℕ
number_of not_leader_error = 0
number_of leader_starting_error = 1
number_of not_follower_error = 2
number_of slow_down_error = 3
number_of internal_error = 4
number_of unknown_group_error = 5

pub error-number_of : (e : S2cError) → error_of (number_of e) ≡ e
error-number_of not_leader_error = refl
error-number_of leader_starting_error = refl
error-number_of not_follower_error = refl
error-number_of slow_down_error = refl
error-number_of internal_error = refl
error-number_of unknown_group_error = refl

abbrev pub messages : Serial S2cMessage
messages =
    along
      (pair text
        (pair (optional bodies) (optional (along number error_of number_of error-number_of))))
      (λ t. record { correlation_id = t.0; body = t.1.0; error = t.1.1 })
      (λ m. (m.correlation_id, (m.body, m.error))) (λ m. refl)

abbrev pub message_codec : Codec S2cMessage
message_codec = codec messages

pub message_codec_laws : CodecLaws message_codec
message_codec_laws = codec_laws messages
