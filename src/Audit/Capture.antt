-- ===== src/Audit/Capture.antt =====
-- What the audit middleware and the access log see of a request's body and of its response: the
-- recorders and the capped writer (pkg/httpmw/audit.go, pkg/httpmw/logger.go).
use api_test.Prelude.{
  ℕ, ◌-◌, min, Bool, true, false, not, ◌||◌, List, [], ◌∷◌, ◌++◌, ltb, leb, length, take,
  if◌then◌else◌,
}
use api_test.Prelude.Int.{ℤ, pos, negsuc, add_int}
use api_test.Std.Text.{Text, is_empty}

-- A call of an http.ResponseWriter. The recorders embed that interface and have no Flush of their own, so
-- that a handler behind one finds no http.Flusher and calls no flush.
pub data Call : Type 0 where
  write_header : ℕ → Call
  write : Text → Call

-- What a ResponseWriter's Write returns after the calls before: the number of bytes it took, and
-- whether it failed.
abbrev pub Writer : Type 0
Writer = List Call → Text → ℕ × Bool

-- What is left of a cap of `max` bytes when `used` are in the buffer, and 0 where that is negative.
abbrev pub remaining : ℤ → ℕ → ℕ
remaining (pos max) used = max - used
remaining (negsuc _) used = 0

pub record AuditRecorder : Type 0 where
  -- the calls that reached the wrapped writer
  pub calls : List Call
  pub status : ℕ
  pub wrote_header : Bool
  pub body : Text
  pub max : ℤ
  pub capture : Bool
  pub truncated : Bool
  pub bytes_total : ℤ

unfoldable pub new_audit_recorder : ℤ → Bool → AuditRecorder
new_audit_recorder max capture = record {
  calls = [];
  status = 200;
  wrote_header = false;
  body = [];
  max = max;
  capture = capture;
  truncated = false;
  bytes_total = pos 0;
}

unfoldable pub audit_header : ℕ → AuditRecorder → AuditRecorder
audit_header code a =
    if a.wrote_header
    then a
    else record a { wrote_header = true; status = code; calls = a.calls ++ write_header code ∷ [] }

unfoldable pub capture_body : Text → AuditRecorder → AuditRecorder
capture_body b a =
    let captured = min (remaining a.max (length a.body)) (length b) in
    if a.capture
    then record a {
      body = a.body ++ take captured b;
      truncated = ltb captured (length b) || a.truncated;
    }
    else a

unfoldable pub audit_write : Writer → Text → AuditRecorder → (ℕ × Bool) × AuditRecorder
unfolding audit_header capture_body
audit_write inner b a0 =
    let a1 = audit_header 200 a0 in
    let a2 = capture_body b a1 in
    let (n, failed) = inner a2.calls b in
    (
      (n, failed),
      record a2 { calls = a2.calls ++ write b ∷ []; bytes_total = add_int a2.bytes_total (pos n) },
    )

-- A handler that makes these calls on the recorder.
unfoldable pub audit_run : Writer → List Call → AuditRecorder → AuditRecorder
unfolding audit_header audit_write
audit_run inner [] a = a
audit_run inner (write_header code ∷ ops) a = audit_run inner ops (audit_header code a)
audit_run inner (write b ∷ ops) a = audit_run inner ops (audit_write inner b a).1

pub record StatusRecorder : Type 0 where
  pub calls : List Call
  pub status : ℕ
  pub bytes : ℤ
  pub wrote_header : Bool

unfoldable pub new_status_recorder : StatusRecorder
new_status_recorder = record { calls = []; status = 200; bytes = pos 0; wrote_header = false }

unfoldable pub status_header : ℕ → StatusRecorder → StatusRecorder
status_header code s =
    if s.wrote_header
    then s
    else record s { wrote_header = true; status = code; calls = s.calls ++ write_header code ∷ [] }

unfoldable pub status_write : Writer → Text → StatusRecorder → (ℕ × Bool) × StatusRecorder
unfolding status_header
status_write inner b s0 =
    let s1 = status_header 200 s0 in
    let (n, failed) = inner s1.calls b in
    ((n, failed), record s1 { calls = s1.calls ++ write b ∷ []; bytes = add_int s1.bytes (pos n) })

unfoldable pub status_run : Writer → List Call → StatusRecorder → StatusRecorder
unfolding status_header status_write
status_run inner [] s = s
status_run inner (write_header code ∷ ops) s = status_run inner ops (status_header code s)
status_run inner (write b ∷ ops) s = status_run inner ops (status_write inner b s).1

-- The capped copy of the request's body.
pub record CapWriter : Type 0 where
  pub buf : Text
  pub max : ℤ
  pub oversize : Bool

unfoldable pub new_cap_writer : ℤ → CapWriter
new_cap_writer max = record { buf = []; max = max; oversize = false }

unfoldable pub cap_write : Text → CapWriter → CapWriter
cap_write p c =
    let left = remaining c.max (length c.buf) in
    let n = min left (length p) in
    if leb left 0
    then record c { oversize = true }
    else record c { buf = c.buf ++ take n p; oversize = ltb n (length p) || c.oversize }

-- readCloserTee.Read, when the wrapped reader returns these bytes.
unfoldable pub tee_read : Text → CapWriter → CapWriter
unfolding cap_write
tee_read p c = if not (is_empty p) then cap_write p c else c

-- The reads that a handler makes, each with the bytes that the request's body returned.
unfoldable pub tee_reads : List Text → CapWriter → CapWriter
unfolding tee_read
tee_reads [] c = c
tee_reads (p ∷ ps) c = tee_reads ps (tee_read p c)
