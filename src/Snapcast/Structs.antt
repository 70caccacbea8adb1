-- ===== src/Snapcast/Structs.antt =====
-- handlers/snapcast/structs.go: what a snapcast server tells of itself. Fields of another program's JSON
-- that nothing reads (host, last seen, the client's version, the URI of a stream) are left out.
use chik.Prelude.{Bool, List, String}
use chik.Prelude.Int.{ℤ}

pub record Volume : Type 0 where
  pub muted : Bool
  pub percent : ℤ

pub record ClientConfig : Type 0 where
  pub instance_number : ℤ
  pub latency : ℤ
  pub name : String
  pub volume : Volume

pub record Client : Type 0 where
  pub config : ClientConfig
  pub connected : Bool
  pub id : String

pub record Group : Type 0 where
  pub clients : List Client
  pub id : String
  pub muted : Bool
  pub name : String
  pub stream_id : String

pub record GroupStreamChanged : Type 0 where
  pub id : String
  pub stream_id : String

pub record Stream : Type 0 where
  pub id : String
  pub status : String

pub record ServerStatus : Type 0 where
  pub groups : List Group
  pub streams : List Stream

pub record ClientVolume : Type 0 where
  pub id : String
  pub volume : Volume

pub record SimplifiedClient : Type 0 where
  pub id : String

pub record SimplifiedGroup : Type 0 where
  pub clients : List SimplifiedClient
  pub id : String
  pub name : String
  pub stream_id : String

pub record SimplifiedServerStatus : Type 0 where
  pub groups : List SimplifiedGroup
  pub streams : List Stream
