-- ===== src/Audit/Agree.antt =====
-- The access log's recorder (pkg/httpmw/logger.go) and the audit recorder (pkg/httpmw/audit.go) side
-- by side.
use api_test.Prelude.{ℕ, ◌≡◌, refl, ap, ◌∙◌, Bool, true, List, [], ◌∷◌, ◌++◌, Bool-cases, inl, inr}
use mathlib.Core.List.{append-nil, append_assoc}
use api_test.Prelude.Int.{ℤ, pos, add_int}
use api_test.Std.Text.{Text}
use api_test.Audit.Capture.{
  Call, write_header, write, Writer, AuditRecorder, new_audit_recorder, audit_header, capture_body,
  audit_write, audit_run, StatusRecorder, new_status_recorder, status_header, status_write,
  status_run,
}
use api_test.Audit.Recorded.{sent, passed, final_status, taken}

-- The status recorder after the header.
abbrev noted : List Call → ℕ → ℤ → StatusRecorder
noted calls status bytes = record {
  calls = calls;
  status = status;
  bytes = bytes;
  wrote_header = true;
}

status_run-noted :
    (inner : Writer) (calls : List Call) (status : ℕ) (bytes : ℤ) (ops : List Call)
    → status_run inner ops (noted calls status bytes)
      ≡ noted (calls ++ sent ops) status (taken inner calls bytes (sent ops))
unfolding status_run status_write status_header sent taken
status_run-noted inner calls status bytes [] = rw (append-nil calls)
status_run-noted inner calls status bytes (write_header code ∷ ops) =
    status_run-noted inner calls status bytes ops
status_run-noted inner calls status bytes (write b ∷ ops) = rw (
  status_run-noted inner (calls ++ write b ∷ []) status (add_int bytes (pos (inner calls b).0)) ops,
  append_assoc calls (write b ∷ []) (sent ops),
)

status_run_new :
    (inner : Writer) (op : Call) (ops : List Call)
    → status_run inner (op ∷ ops) new_status_recorder
      ≡ noted
          (passed (op ∷ ops))
          (final_status (op ∷ ops))
          (taken inner [] (pos 0) (passed (op ∷ ops)))
unfolding new_status_recorder status_run status_header status_write passed final_status taken
status_run_new inner (write_header code) ops =
    status_run-noted inner (write_header code ∷ []) code (pos 0) ops
status_run_new inner (write b) ops =
    status_run-noted inner (write_header 200 ∷ write b ∷ []) 200 _ ops

-- What the access log's recorder has of the audit recorder's state.
abbrev as_status : AuditRecorder → StatusRecorder
as_status a = record {
  calls = a.calls;
  status = a.status;
  bytes = a.bytes_total;
  wrote_header = a.wrote_header;
}

as_status-audit_header :
    (code : ℕ) (a : AuditRecorder)
    → as_status (audit_header code a) ≡ status_header code (as_status a)
unfolding audit_header status_header
as_status-audit_header code a = elim (Bool-cases a.wrote_header) [
  | inl sent_before ↦ rw sent_before refl
  | inr unsent ↦ rw unsent refl
]

as_status-capture_body : (b : Text) (a : AuditRecorder) → as_status (capture_body b a) ≡ as_status a
unfolding capture_body
as_status-capture_body b a = elim (Bool-cases a.capture) [
  | inl on ↦ rw on refl
  | inr off ↦ rw off refl
]

-- One more write of the access log's recorder, once the header is sent.
abbrev note_write : Writer → Text → StatusRecorder → StatusRecorder
note_write inner b s = record s {
  calls = s.calls ++ write b ∷ [];
  bytes = add_int s.bytes (pos (inner s.calls b).0);
}

as_status-audit_write :
    (inner : Writer) (b : Text) (a : AuditRecorder)
    → as_status (audit_write inner b a).1 ≡ (status_write inner b (as_status a)).1
unfolding audit_write status_write
as_status-audit_write inner b a =
    ap (note_write inner b)
      (as_status-capture_body b (audit_header 200 a) ∙ as_status-audit_header 200 a)

as_status-audit_run :
    (inner : Writer) (ops : List Call) (a : AuditRecorder)
    → as_status (audit_run inner ops a) ≡ status_run inner ops (as_status a)
unfolding audit_run status_run
as_status-audit_run inner [] a = refl
as_status-audit_run inner (write_header code ∷ ops) a =
    as_status-audit_run inner ops (audit_header code a)
    ∙ ap (status_run inner ops) (as_status-audit_header code a)
as_status-audit_run inner (write b ∷ ops) a =
    as_status-audit_run inner ops (audit_write inner b a).1
    ∙ ap (status_run inner ops) (as_status-audit_write inner b a)

-- The access log and the audit trail agree on every response, whether bodies are captured or not:
-- the same status, the same number of bytes and the same calls to the client's writer.
pub recorders_agree :
    (inner : Writer) (max : ℤ) (capture : Bool) (ops : List Call)
    → ((audit_run inner ops (new_audit_recorder max capture)).status
        ≡ (status_run inner ops new_status_recorder).status)
      × ((audit_run inner ops (new_audit_recorder max capture)).bytes_total
          ≡ (status_run inner ops new_status_recorder).bytes)
      × ((audit_run inner ops (new_audit_recorder max capture)).calls
          ≡ (status_run inner ops new_status_recorder).calls)
recorders_agree inner max capture ops =
    let same : as_status (audit_run inner ops (new_audit_recorder max capture))
        ≡ status_run inner ops new_status_recorder =
      unfold new_audit_recorder new_status_recorder in as_status-audit_run inner ops _ in
    (ap (λ s. s.status) same, ap (λ s. s.bytes) same, ap (λ s. s.calls) same)

-- With or without capture, the client's writer gets the first status once and then every write.
pub calls-audit_run :
    (inner : Writer) (max : ℤ) (capture : Bool) (ops : List Call)
    → ((audit_run inner ops (new_audit_recorder max capture)).calls ≡ passed ops)
      × ((audit_run inner ops (new_audit_recorder max capture)).status ≡ final_status ops)
unfolding new_audit_recorder audit_run passed final_status
calls-audit_run inner max capture [] = (refl, refl)
calls-audit_run inner max capture (op ∷ ops) =
    let (status, bytes, calls) = recorders_agree inner max capture (op ∷ ops) in
    (
      calls ∙ ap (λ s. s.calls) (status_run_new inner op ops),
      status ∙ ap (λ s. s.status) (status_run_new inner op ops),
    )
