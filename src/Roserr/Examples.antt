-- ===== src/Roserr/Examples.antt =====
-- An error chain through a join, a `fmt.Errorf` and a cause.
use goros.Common.{text, []}
use goros.Proto.Sentence.{new_sentence}
use goros.Roserr.{GoError, ros, device, wrapped, nil, cons, eof, no_cause, no_context, code_timeout}

abbrev joined : GoError
joined = wrapped (text "two errors") (
    cons eof (
      cons (device new_sentence) (
        cons
          (ros
            (record {
              code = code_timeout;
              summary = text "late";
              remediation = [];
              context = no_context;
            })
            no_cause)
          nil)))
