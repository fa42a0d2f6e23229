-- ===== src/Schema/Call.antt =====
-- src/calls/call.schema.ts and the types of calls.constants.ts.
use chatwave_backend.Base.{ℕ, Option, List}

pub data CallType : Type 0 where
  audio video : CallType

pub data CallStatus : Type 0 where
  ringing active ended missed declined : CallStatus

pub data CallDirection : Type 0 where
  incoming outgoing : CallDirection  -- 'in' and 'out'

pub data IcePath : Type 0 where
  p2p turn unknown : IcePath

pub record CallParticipant : Type 0 where
  pub user : ℕ
  pub direction : CallDirection
  pub joined_at : Option ℕ
  pub left_at : Option ℕ

pub record Call : Type 0 where
  pub id : ℕ
  pub conversation : ℕ
  pub type : CallType
  pub status : CallStatus
  pub initiated_by : ℕ
  pub participants : List CallParticipant
  pub duration_sec : ℕ
  pub ice : IcePath
  pub started_at : ℕ
  pub answered_at : Option ℕ
  pub ended_at : Option ℕ
  pub ended_by : Option ℕ
