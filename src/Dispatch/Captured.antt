-- ===== src/Dispatch/Captured.antt =====
-- The writer that buffers the start of a response (capResponseWriter of
-- pkg/httpsrv/portal_audit_replay.go).
use api_test.Prelude.{
  ℕ, ◌-◌, Bool, true, false, List, [], ◌∷◌, ◌++◌, ltb, leb, length, take, if◌then◌else◌,
}
use api_test.Std.Text.{Text}
use api_test.Audit.Capture.{Call, write_header, write}

-- The headers are the handler's own map and are left to the callers.
pub record CapResponse : Type 0 where
  pub status : ℕ
  pub body : Text
  pub max_bytes : ℕ
  pub truncated : Bool
  pub wrote_hdr : Bool

unfoldable pub new_cap_response : ℕ → CapResponse
new_cap_response max = record {
  status = 200;
  body = [];
  max_bytes = max;
  truncated = false;
  wrote_hdr = false;
}

unfoldable pub cap_header : ℕ → CapResponse → CapResponse
cap_header status c = if c.wrote_hdr then c else record c { status = status; wrote_hdr = true }

unfoldable pub cap_body : Text → CapResponse → CapResponse
cap_body p c =
    let remaining = c.max_bytes - length c.body in
    if leb remaining 0
    then record c { truncated = true }
    else if ltb remaining (length p)
    then record c { body = c.body ++ take remaining p; truncated = true }
    else record c { body = c.body ++ p }

unfoldable pub cap_call : Call → CapResponse → CapResponse
unfolding cap_header cap_body
cap_call (write_header status) c = cap_header status c
cap_call (write p) c = cap_body p (cap_header 200 c)

unfoldable pub cap_run : List Call → CapResponse → CapResponse
unfolding cap_call
cap_run [] c = c
cap_run (call ∷ calls) c = cap_run calls (cap_call call c)
