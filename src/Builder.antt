-- ===== src/Builder.antt =====
-- src/handlers/builder.c: what one round of the builder does with a session that it has taken out.
-- `stack` is what the response of a redirection holds where nothing sets it.
use wind_breaker.Prelude.{Option, some, ◌==◌, if◌then◌else◌, replicate}
use wind_breaker.Prelude.Fault.{◌>>=◌}
use wind_breaker.Buffer.{Buffer, Memory}
use wind_breaker.Static.{Request, Response}
use wind_breaker.Static.StatusCode.{moved_permanently}
use wind_breaker.Response.{Outside, construct_response, construct_upgrade_to_https_response}

redirect :
    Outside
    → Memory
    → Response
    → Request
    → Response
    → Buffer
    → Buffer
    → Option (Response × (Buffer × Buffer))
unfolding construct_upgrade_to_https_response
redirect o m stack request response buffer tmp = do
  built ← construct_upgrade_to_https_response o m request.uri request.host stack buffer
  some (response, (built.1, tmp))

answer :
    Outside → Memory → Request → Response → Buffer → Buffer → Option (Response × (Buffer × Buffer))
unfolding construct_response
answer o m request response buffer tmp = do
  built ←
      construct_response o m request.uri request.accept_encoding request.if_none_match response
        buffer tmp
  some built.1

-- The response, the session's buffer, and the builder's own buffer, which starts out cleared.
unfoldable pub build_round :
    Outside
    → Memory
    → Response
    → Request
    → Response
    → Buffer
    → Buffer
    → Option (Response × (Buffer × Buffer))
unfolding redirect answer
build_round o m stack request response buffer tmp =
    let cleared = record tmp { bytes = replicate tmp.capacity 0 } in
    if response.status_code == moved_permanently
    then redirect o m stack request response buffer cleared
    else answer o m request response buffer cleared
