-- ===== src/Shell/Line/JobId.antt =====
-- The job that fg and bg of shell/shell.c take from the number in their argument.
use embedded_systems_runtime.Prelude.{ℕ, ◌+◌, ◌*◌, ◌^◌, ◌<◌, ◌≡◌, some, List, [], arith}
use embedded_systems_runtime.Prelude.Int.{pos}
use embedded_systems_runtime.Shell.Parser.{is_empty}
use embedded_systems_runtime.Shell.History.{Signed}
use embedded_systems_runtime.Shell.Interpreter.{to_int, positive, job_text}
use embedded_systems_runtime.Shell.Line.{parse_job_id}

to_int-wraps : (k id : ℕ) → id < 2 ^ 31 → to_int (2 ^ 32 * k + id) ≡ pos id
unfolding to_int
to_int-wraps k id h = ground arith

-- The argument n or %n, where strtol reads all of n, names job `id` if n is `id` or a multiple of 2^32
-- above it: the long is cut off to an int.
pub parse_job_id-wraps :
    (strtol : List ℕ → Signed) (text : List ℕ) (k id : ℕ)
    → strtol (job_text text) ≡ record { value = pos (2 ^ 32 * k + id); end = [] }
    → 0 < id
    → id < 2 ^ 31
    → parse_job_id strtol text ≡ some (pos id)
unfolding parse_job_id positive is_empty
parse_job_id-wraps strtol text k id e p h = rw (e, to_int-wraps k id h) (ground arith)
