-- ===== src/Audit/Recorded.antt =====
-- What the recorders of pkg/httpmw/audit.go and pkg/httpmw/logger.go hold after any sequence of
-- calls, and what reaches the writer that they wrap.
use api_test.Prelude.{
  ℕ, ◌≡◌, refl, ap, sym, ◌∙◌, Bool, true, List, [], ◌∷◌, ◌++◌, ltb, length, take, arith, take_all,
}
use mathlib.Core.List.{append-nil, append_assoc}
use api_test.Prelude.Int.{ℤ, pos, add_int}
use api_test.Std.Text.{Text}
use api_test.Audit.Capture.{
  Call, write_header, write, Writer, remaining, AuditRecorder, new_audit_recorder, audit_header,
  capture_body, audit_write, audit_run,
}
use api_test.Audit.Capped.{remaining_sub, take_extend, flag_extend}

-- The bytes that a handler writes.
unfoldable pub written : List Call → Text
written [] = []
written (write_header code ∷ ops) = written ops
written (write b ∷ ops) = b ++ written ops

-- The calls that reach the client's writer, once the header is sent.
unfoldable pub sent : List Call → List Call
sent [] = []
sent (write_header code ∷ ops) = sent ops
sent (write b ∷ ops) = write b ∷ sent ops

-- The calls that reach the client's writer: the first status, 200 if a write comes first, and then
-- every write.
unfoldable pub passed : List Call → List Call
unfolding sent
passed [] = []
passed (write_header code ∷ ops) = write_header code ∷ sent ops
passed (write b ∷ ops) = write_header 200 ∷ write b ∷ sent ops

-- The status that these calls give a response.
unfoldable pub final_status : List Call → ℕ
final_status [] = 200
final_status (write_header code ∷ ops) = code
final_status (write b ∷ ops) = 200

-- The bytes that the writer says it took, after the calls `before`.
unfoldable pub taken : Writer → List Call → ℤ → List Call → ℤ
taken inner before n [] = n
taken inner before n (write_header code ∷ ops) =
    taken inner (before ++ write_header code ∷ []) n ops
taken inner before n (write b ∷ ops) =
    taken inner (before ++ write b ∷ []) (add_int n (pos (inner before b).0)) ops

-- A recorder that has sent the header and seen these bytes.
abbrev recorded : ℤ → Text → List Call → ℕ → ℤ → AuditRecorder
recorded max seen calls status bytes = record {
  calls = calls;
  status = status;
  wrote_header = true;
  body = take (remaining max 0) seen;
  max = max;
  capture = true;
  truncated = ltb (remaining max 0) (length seen);
  bytes_total = bytes;
}

recorded_eq :
    (max : ℤ) (seen : Text) (calls : List Call) (status : ℕ) (bytes : ℤ) {b : Text} {o : Bool}
    → b ≡ take (remaining max 0) seen
    → o ≡ ltb (remaining max 0) (length seen)
    → (record (recorded max seen calls status bytes) { body = b; truncated = o })
      ≡ recorded max seen calls status bytes
recorded_eq max seen calls status bytes hb ho = rw (hb, ho)

module _ (inner : Writer) (max : ℤ) (status : ℕ) where
  audit_write-recorded :
      (seen : Text) (calls : List Call) (bytes : ℤ) (b : Text)
      → (audit_write inner b (recorded max seen calls status bytes)).1
        ≡ recorded max
            (seen ++ b)
            (calls ++ write b ∷ [])
            status
            (add_int bytes (pos (inner calls b).0))
  unfolding audit_write audit_header capture_body
  audit_write-recorded seen calls bytes b =
      rw (remaining_sub max (length (take (remaining max 0) seen))) (
        recorded_eq max (seen ++ b) _ status _ (take_extend (remaining max 0) seen b)
          (flag_extend (remaining max 0) seen b))

  audit_run-recorded :
      (seen : Text) (calls : List Call) (bytes : ℤ) (ops : List Call)
      → audit_run inner ops (recorded max seen calls status bytes)
        ≡ recorded max
            (seen ++ written ops)
            (calls ++ sent ops)
            status
            (taken inner calls bytes (sent ops))
  unfolding audit_run written sent taken audit_header
  audit_run-recorded seen calls bytes [] = rw (append-nil seen, append-nil calls)
  audit_run-recorded seen calls bytes (write_header code ∷ ops) =
      audit_run-recorded seen calls bytes ops
  audit_run-recorded seen calls bytes (write b ∷ ops) = rw (
    audit_write-recorded seen calls bytes b,
    audit_run-recorded (seen ++ b) (calls ++ write b ∷ []) (add_int bytes (pos (inner calls b).0))
        ops,
    append_assoc seen b (written ops),
    append_assoc calls (write b ∷ []) (sent ops),
  )

take_none : (m : ℕ) → Path Text [] (take m [])
take_none m = sym (take_all m [] (omega arith))

first_header :
    (max : ℤ) (code : ℕ)
    → audit_header code (new_audit_recorder max true)
      ≡ recorded max [] (write_header code ∷ []) code (pos 0)
unfolding new_audit_recorder audit_header
first_header max code =
    recorded_eq max [] _ code (pos 0) (take_none (remaining max 0)) (ground arith)

first_write :
    (inner : Writer) (max : ℤ) (b : Text)
    → audit_write inner b (new_audit_recorder max true)
      ≡ audit_write inner b (audit_header 200 (new_audit_recorder max true))
unfolding audit_write new_audit_recorder audit_header
first_write inner max b = refl

audit_run_new :
    (inner : Writer) (max : ℤ) (op : Call) (ops : List Call)
    → audit_run inner (op ∷ ops) (new_audit_recorder max true)
      ≡ recorded max
          (written (op ∷ ops))
          (passed (op ∷ ops))
          (final_status (op ∷ ops))
          (taken inner [] (pos 0) (passed (op ∷ ops)))
unfolding audit_run written passed final_status taken
audit_run_new inner max (write_header code) ops =
    rw (first_header max code)
      (audit_run-recorded inner max code [] (write_header code ∷ []) (pos 0) ops)
audit_run_new inner max (write b) ops =
    ap (λ r. audit_run inner ops r.1)
      (first_write inner max b ∙ ap (audit_write inner b) (first_header max 200))
    ∙ (unfold sent in
        audit_run-recorded inner max 200 [] (write_header 200 ∷ []) (pos 0) (write b ∷ ops))

-- Whatever a handler writes, the audit recorder's copy is the first bytes that fit the cap, it is
-- flagged exactly when bytes were left out, the status is the first that the handler set, and the
-- client's writer gets that status once and then every write.
pub audit_run_lem :
    (inner : Writer) (max : ℤ) (ops : List Call)
    → ((audit_run inner ops (new_audit_recorder max true)).body
        ≡ take (remaining max 0) (written ops))
      × ((audit_run inner ops (new_audit_recorder max true)).truncated
          ≡ ltb (remaining max 0) (length (written ops)))
      × ((audit_run inner ops (new_audit_recorder max true)).status ≡ final_status ops)
      × ((audit_run inner ops (new_audit_recorder max true)).calls ≡ passed ops)
unfolding new_audit_recorder audit_run final_status passed written
audit_run_lem inner max [] = (take_none (remaining max 0), ground arith, refl, refl)
audit_run_lem inner max (op ∷ ops) =
    let run = audit_run_new inner max op ops in
    (ap (λ a. a.body) run, ap (λ a. a.truncated) run, ap (λ a. a.status) run, ap (λ a. a.calls) run)
