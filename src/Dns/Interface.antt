-- ===== src/Dns/Interface.antt =====
-- The functions of github.com/miekg/dns that the program calls, as an interface: operations, and
-- the documented behaviour that the program relies on.
use sec_dns.Prelude.{ℕ, ◌≡◌, List, [], ◌∷◌, refl, Bool, true, false, Text, codes, has_suffix}
use sec_dns.Dns.Message.{Question, Msg, class_inet, rcode_success}

pub record Library : Type 0 where
  -- m.SetReply(request), m.SetRcode(request, rcode), m.SetQuestion(z, t): the message that `m` is
  -- afterwards
  pub set_reply : Msg → Msg → Msg
  pub set_rcode : Msg → Msg → ℕ → Msg
  pub set_question : Msg → Text → ℕ → Msg
  -- dns.IsDomainName(s), its second result; dns.IsFqdn(s)
  pub is_domain_name : Text → Bool
  pub is_fqdn : Text → Bool

-- The first question of the request alone, or what the message had if there is none.
abbrev pub first_question : Msg → List Question → List Question
first_question m [] = m.question
first_question m (q ∷ qs) = q ∷ []

-- "SetReply creates a reply message from a request message", "SetRcode creates an error message
-- suitable for the request", "SetQuestion creates a question message".
pub record Documented (dns : Library) : Type 0 where
  pub response-set_reply : (m q : Msg) → (dns.set_reply m q).response ≡ true
  pub rcode-set_reply : (m q : Msg) → (dns.set_reply m q).rcode ≡ rcode_success
  pub question-set_reply : (m q : Msg) → (dns.set_reply m q).question ≡ first_question m q.question
  pub answer-set_reply : (m q : Msg) → (dns.set_reply m q).answer ≡ m.answer
  pub ns-set_reply : (m q : Msg) → (dns.set_reply m q).ns ≡ m.ns
  pub extra-set_reply : (m q : Msg) → (dns.set_reply m q).extra ≡ m.extra
  pub set_rcode_lem :
      (m q : Msg) (code : ℕ) → dns.set_rcode m q code ≡ record (dns.set_reply m q) { rcode = code }
  pub question-set_question :
      (m : Msg) (z : Text) (t : ℕ)
      → (dns.set_question m z t).question ≡ record { name = z; qtype = t; qclass = class_inet } ∷ []

-- A library with this behaviour, for tests and witnesses: a name is anything but the empty text.
abbrev reply_to : Msg → Msg → Msg
reply_to m q = record m {
  rest = q.rest;
  response = true;
  rcode = rcode_success;
  question = first_question m q.question;
}

abbrev pub plain_library : Library
plain_library = record {
  set_reply = reply_to;
  set_rcode = λ m q code. record (reply_to m q) { rcode = code };
  set_question =
      λ m z t. record m { question = record { name = z; qtype = t; qclass = class_inet } ∷ [] };
  is_domain_name = λ s. elim s [ [] ↦ false | c ∷ r ↦ true ];
  is_fqdn = λ s. has_suffix s (codes ".");
}

pub plain_library-Documented : Documented plain_library
plain_library-Documented = record {
  response-set_reply = λ m q. refl;
  rcode-set_reply = λ m q. refl;
  question-set_reply = λ m q. refl;
  answer-set_reply = λ m q. refl;
  ns-set_reply = λ m q. refl;
  extra-set_reply = λ m q. refl;
  set_rcode_lem = λ m q code. refl;
  question-set_question = λ m z t. refl;
}
