-- ===== src/Net/Error.antt =====
-- src/network/error.rs.
use s2c_rs.Base.{ℕ, Bytes}

pub data NetworkError : Type 0 where
  io : Bytes → NetworkError  -- the kind and the message of an `std::io::Error`
  message_too_large : (max size : ℕ) → NetworkError
  invalid_protobuf : Bytes → NetworkError

pub data ClientError : Type 0 where
  closed : ClientError
  io : NetworkError → ClientError
  connect_timeout not_connected timeout : ClientError
