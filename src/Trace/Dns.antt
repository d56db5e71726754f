-- ===== src/Trace/Dns.antt =====
-- What the engine takes from outside: the messages, tables and codes of the DNS library
-- (github.com/miekg/dns), the Unicode tables, and the network with its clock.
use dnswatcher.Prelude.{ℕ, Bool, List, Bytes, String}
use dnswatcher.Contracts.Kinds.{Transport}
use dnswatcher.Strings.{Unicode}

pub record Header : Type 0 where
  pub name : Bytes
  pub rrtype : ℕ
  pub ttl : ℕ

-- The record types that the engine tells apart. An address is held as its `String()` text, and a
-- record of another type as its own.
pub data Rr : Type 0 where
  a : Header → Bytes → Rr
  aaaa : Header → Bytes → Rr
  ns : Header → Bytes → Rr
  cname : Header → Bytes → Rr
  soa : Header → (ns mbox : Bytes) → (serial refresh retry expire minttl : ℕ) → Rr
  other : Header → Bytes → Rr

-- `ns` is the authority section.
pub record Msg : Type 0 where
  pub rcode : ℕ
  pub authoritative : Bool
  pub truncated : Bool
  pub answer : List Rr
  pub ns : List Rr
  pub extra : List Rr

pub record Dns : Type 0 where
  pub type_to_string : ℕ → Bytes
  pub string_to_type : Bytes → ℕ
  pub rcode_to_string : ℕ → String
  pub type_soa : ℕ
  pub rcode_success : ℕ
  pub rcode_name_error : ℕ
  pub rcode_server_failure : ℕ
  pub rcode_refused : ℕ
  pub rcode_not_implemented : ℕ

-- A question sent to an endpoint.
pub record Query : Type 0 where
  pub net : Transport
  pub timeout : ℕ
  pub endpoint : Bytes
  pub qname : Bytes
  pub qtype : ℕ
  pub recursion_desired : Bool

-- An error of the client: the context's deadline has passed, or another, with its text.
pub data NetError : Type 0 where
  deadline_exceeded : NetError
  failed : String → NetError

-- A response and the time that it took, in nanoseconds.
pub data Reply : Type 0 where
  response : Msg → ℕ → Reply
  failure : NetError → Reply

-- The network answers a query as it likes, in view of all the queries before it, the latest
-- first. The deadline of the trace's context shows in its replies.
pub record Env : Type 0 where
  pub unicode : Unicode
  pub dns : Dns
  pub network : List Query → Query → Reply
