-- ===== src/Audit/Audited.antt =====
-- What the audit middleware records of a request, and that the client does not notice it.
use api_test.Prelude.{
  ℕ, ◌-◌, min, ◌≡◌, refl, ◌∙◌, true, ◌&&◌, some, ltb, leb, length, take, concat, arith,
  if◌then◌else◌, length-take, Bool-cases, inl, inr,
}
use api_test.Prelude.Int.{pos}
use api_test.Std.Text.{Text}
use api_test.Std.Http.{Request}
use api_test.Audit.Capture.{
  Writer, AuditRecorder, new_audit_recorder, audit_run, CapWriter, new_cap_writer,
}
use api_test.Audit.Capped.{tee_reads_lem}
use api_test.Audit.Recorded.{written, passed, final_status, audit_run_lem}
use api_test.Audit.Agree.{calls-audit_run}
use api_test.Audit.Event.{
  Payload, Event, AuditOptions, with_defaults, Context, Run, request_capture, with_outcome,
  with_payload, audit,
}

with_payload_keeps :
    (o : AuditOptions) (r : Request) (c : Context) (body : CapWriter) (rec : AuditRecorder)
    (run : Run) (ev : Event)
    → ((with_payload o r c body rec run ev).status ≡ ev.status)
      × ((with_payload o r c body rec run ev).success ≡ ev.success)
      × ((with_payload o r c body rec run ev).bytes_in ≡ ev.bytes_in)
unfolding with_payload
with_payload_keeps o r c body rec run ev = elim (Bool-cases o.capture_payloads) [
  | inl on ↦ rw on (refl, refl, refl)
  | inr off ↦ rw off (refl, refl, refl)
]

bytes_read :
    (n : ℕ) (seen : Text)
    → (if ltb n (length seen) then pos n else pos (length (take n seen)))
      ≡ pos (min n (length seen))
bytes_read n seen = rw (length-take n seen) (ground arith)

-- Of the calls of Write and WriteHeader of a handler, whatever is captured, the client's writer gets the
-- first status that the handler set, once, and then every write; and the event has that status, a
-- success exactly from 200 to 399. Flushes are left out.
pub audit_passes :
    (inner : Writer) (options : AuditOptions) (c : Context) (r : Request) (run : Run)
    → ((audit inner options c r run).1 ≡ passed run.calls)
      × ((audit inner options c r run).0.status ≡ final_status run.calls)
      × ((audit inner options c r run).0.success
          ≡ (leb 200 (final_status run.calls) && ltb (final_status run.calls) 400))
unfolding audit with_outcome
audit_passes inner options c r run =
    let o = with_defaults options in
    let (calls, status) = calls-audit_run inner o.max_payload_bytes o.capture_payloads run.calls in
    let body = request_capture o c.has_body run.reads in
    let rec =
      audit_run inner run.calls (new_audit_recorder o.max_payload_bytes o.capture_payloads) in
    let (kept_status, kept_success, _) = with_payload_keeps o r c body rec run _ in
    (calls, kept_status ∙ status, kept_success ∙ rw status refl)

-- With capture on and a cap of `n` bytes, the event of a request has the first `n` bytes that
-- the handler read and the first `n` bytes that it wrote, each flagged exactly when there were
-- more, and bytes_in counts the bytes that it read, up to the cap.
pub audited_bodies :
    (inner : Writer) (options : AuditOptions) (c : Context) (r : Request) (run : Run) (n : ℕ)
    → options.capture_payloads ≡ true
    → c.has_body ≡ true
    → (with_defaults options).max_payload_bytes ≡ pos n
    → (p : Payload) × ((audit inner options c r run).0.payload ≡ some p)
      × (p.request_body ≡ take n (concat run.reads))
      × (p.request_truncated ≡ ltb n (length (concat run.reads)))
      × (p.response_body ≡ take n (written run.calls))
      × (p.response_truncated ≡ ltb n (length (written run.calls)))
      × ((audit inner options c r run).0.bytes_in ≡ pos (min n (length (concat run.reads))))
unfolding audit with_payload with_outcome request_capture new_cap_writer new_audit_recorder
audited_bodies inner options c r run n on body capped =
    let o = with_defaults options in
    let on' : o.capture_payloads ≡ true = unfold with_defaults in on in
    let all : n - 0 ≡ n = omega arith in
    let (buf, oversize) = rw all at (tee_reads_lem (pos n) run.reads) in
    let (written_body, truncated, _, _) = rw all at (audit_run_lem inner (pos n) run.calls) in
    rw (on', body, capped)
      (
        _,
        refl,
        buf,
        oversize,
        written_body,
        truncated,
        rw (oversize, buf) (bytes_read n (concat run.reads)),
      )
