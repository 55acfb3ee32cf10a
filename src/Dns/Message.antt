-- ===== src/Dns/Message.antt =====
-- dns.Msg, dns.Question and dns.RR: the fields that the program uses. The header fields that it
-- never looks at are one number, and a resource record that is no A, AAAA or CNAME is opaque.
use sec_dns.Prelude.{ℕ, List, [], Bool, false, true, Text}

pub record Question : Type 0 where
  pub name : Text
  pub qtype : ℕ
  pub qclass : ℕ

-- dns.RR_Header
pub record Header : Type 0 where
  pub name : Text
  pub rrtype : ℕ
  pub class : ℕ
  pub ttl : ℕ

-- An interface value of dns.RR, by its dynamic type.
pub data Rr : Type 0 where
  a : Header → List ℕ → Rr
  aaaa : Header → List ℕ → Rr
  cname : Header → Text → Rr
  other : Header → List ℕ → Rr

pub record Msg : Type 0 where
  pub rest : ℕ
  pub response : Bool
  pub rcode : ℕ
  pub question : List Question
  pub answer : List Rr
  pub ns : List Rr
  pub extra : List Rr

-- new(dns.Msg)
abbrev pub new_msg : Msg
new_msg = record {
  rest = 0;
  response = false;
  rcode = 0;
  question = [];
  answer = [];
  ns = [];
  extra = [];
}

-- dns.TypeA, dns.TypeCNAME, dns.TypeAAAA, dns.ClassINET
abbrev pub type_a : ℕ
type_a = 1

abbrev pub type_cname : ℕ
type_cname = 5

abbrev pub type_aaaa : ℕ
type_aaaa = 28

abbrev pub class_inet : ℕ
class_inet = 1

-- dns.RcodeSuccess, dns.RcodeFormatError, dns.RcodeServerFailure, dns.RcodeNameError
abbrev pub rcode_success : ℕ
rcode_success = 0

abbrev pub rcode_format_error : ℕ
rcode_format_error = 1

abbrev pub rcode_server_failure : ℕ
rcode_server_failure = 2

abbrev pub rcode_name_error : ℕ
rcode_name_error = 3

-- rr.(*dns.A), rr.(*dns.AAAA): the second result of the type assertion
abbrev pub is_a : Rr → Bool
is_a (a h ip) = true
is_a _ = false

abbrev pub is_aaaa : Rr → Bool
is_aaaa (aaaa h ip) = true
is_aaaa _ = false
