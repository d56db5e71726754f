-- ===== src/Contracts.antt =====
-- backend/internal/contracts/types.go: the records that the engine, the API and the client share.
-- The string fields that hold one of a fixed set of words are enumerations (Contracts/Kinds),
-- each with `unset` for the empty string of a zero value. A nil slice and an empty one are one
-- list here. Texts that nothing inspects are native strings; what the program compares or takes
-- apart is a list of bytes.
pub mod Kinds
use dnswatcher.Prelude.{ℕ, ℤ, Bool, List, Option, Bytes, String}
use dnswatcher.Contracts.Kinds.{Role, HopPurpose, ResponseKind, Transport, OutcomeKind, Status}

pub record TraceRequest : Type 0 where
  pub domain : Bytes
  pub qtype : Bytes

pub record ErrorResponse : Type 0 where
  pub error : String
  pub message : String

pub record FinalOutcome : Type 0 where
  pub kind : OutcomeKind
  pub rcode : String
  pub message : String
  pub terminal_hop_index : ℤ

pub record NextTarget : Type 0 where
  pub server_name : Bytes
  pub server_ip : Bytes
  pub zone_context : Bytes
  pub reason : String

-- `values` is the source's `Data`.
pub record RrSet : Type 0 where
  pub section : String
  pub name : Bytes
  pub type : Bytes
  pub ttl : ℕ
  pub values : List Bytes

pub record Hop : Type 0 where
  pub index : ℕ
  pub parent_index : Option ℕ
  pub role : Role
  pub hop_purpose : HopPurpose
  pub zone_context : Bytes
  pub server_name : Bytes
  pub server_ip : Bytes
  pub qname : Bytes
  pub qtype : Bytes
  pub transport : Transport
  pub latency_ms : ℕ
  pub response_code : String
  pub authoritative : Bool
  pub truncated : Bool
  pub response_kind : ResponseKind
  pub answer_rrsets : List RrSet
  pub authority_rrsets : List RrSet
  pub additional_rrsets : List RrSet
  pub next_targets : List NextTarget
  pub explanation : String
  pub technical_note : String

pub record TraceSummary : Type 0 where
  pub headline : String
  pub detail : Bytes
  pub total_hops : ℕ
  pub answer_count : ℕ
  pub cname_count : ℕ

pub record TruthNote : Type 0 where
  pub code : String
  pub message : String

pub record TraceResult : Type 0 where
  pub trace_id : Bytes
  pub input_domain : Bytes
  pub normalized_domain : Bytes
  pub qtype : Bytes
  pub started_at : Bytes
  pub completed_at : Bytes
  pub total_duration_ms : ℕ
  pub status : Status
  pub final_outcome : FinalOutcome
  pub hops : List Hop
  pub summary : TraceSummary
  pub truth_notes : List TruthNote
