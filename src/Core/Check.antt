-- ===== src/Core/Check.antt =====
-- pkg/upstream/resolver/check.go
use sec_dns.Prelude.{Option, none, some, List, [], ◌∷◌, ◌==◌, if◌then◌else◌}
use sec_dns.Dns.{Msg, Question, class_inet}
use sec_dns.Exec.{Error, nil_query, too_many_questions, not_supported_question}

abbrev pub check_questions : List Question → Option Error
check_questions (q ∷ []) = if q.qclass == class_inet then none else some not_supported_question
check_questions _ = some too_many_questions

-- `none` for the pointer nil, and for the error nil
unfoldable pub query_check : Option Msg → Option Error
query_check none = some nil_query
query_check (some m) = check_questions m.question
