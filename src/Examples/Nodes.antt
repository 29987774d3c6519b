-- ===== src/Examples/Nodes.antt =====
-- Two nodes of one group, its log, and the entries that they write.
use s2c_rs.Base.{[], ◌∷◌, codes}
use s2c_rs.Config.{default_options, default_retry}
use s2c_rs.Codec.{Codec, CodecLaws}
use s2c_rs.Proto.{NodeIdentity, LogEntry}
use s2c_rs.Log.{S2cLog}
use s2c_rs.Log
use s2c_rs.Fsm.{Fsm}
use s2c_rs.Fsm
use s2c_rs.Log.{entry_path}
use s2c_rs.Fsm.Leadership.{leadership_entry}
use s2c_rs.Examples.Memory.{Objects, memory}
use s2c_rs.Examples.Serial.{codec, codec_laws, log_entries}

abbrev pub node_a : NodeIdentity
node_a = record { id = codes "a"; address = codes "10.0.0.1"; port = 9000; az = codes "x" }

abbrev pub node_b : NodeIdentity
node_b = record { id = codes "b"; address = codes "10.0.0.2"; port = 9000; az = codes "y" }

abbrev pub group_log : S2cLog
group_log = Log.new (codes "g") default_retry

abbrev pub fsm_a : Fsm
fsm_a = Fsm.new (codes "g") default_options node_a group_log

abbrev pub fsm_b : Fsm
fsm_b = Fsm.new (codes "g") default_options node_b group_log

abbrev pub entry_codec : Codec LogEntry
entry_codec = codec log_entries

pub entry_codec_laws : CodecLaws entry_codec
entry_codec_laws = codec_laws log_entries

-- The store after node `a` has won the first index.
abbrev pub after_a : Objects
after_a = (entry_path memory group_log 1, entry_codec.encode (leadership_entry fsm_a)) ∷ []
