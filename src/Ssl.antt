-- ===== src/Ssl.antt =====
-- src/utils/ssl.c: the settings of the TLS context. What the calls of OpenSSL that can fail answer is
-- the parameter `OpenSsl`. `none` is a failed assertion, or a call with the context after it was
-- freed: each branch behind a failed call frees the context and then makes the call with it again.
use wind_breaker.Prelude.{
  ◌++◌, arith, ◌≡◌, ◌&&◌, if◌then◌else◌, ℕ, Bool, true, false, List, [], ◌∷◌, Option, none, some,
}
use wind_breaker.Prelude.Fault.{◌>>=◌, ◌>>◌, assert}
use wind_breaker.Prelude.Text.{codes}
use wind_breaker.Properties.{Config}

-- Whether SSL_CTX_new gives a context, whether the protocol version is accepted, and whether the
-- certificate chain and the key can be read from a file.
pub record OpenSsl : Type 0 where
  pub makes : Bool
  pub accepts_version : Bool
  pub reads_chain : List ℕ → Bool
  pub reads_key : List ℕ → Bool

pub data Setting : Type 0 where
  min_proto_version : ℕ → Setting
  ignore_unexpected_eof no_renegotiation cipher_server_preference : Setting
  certificate_chain private_key session_id_context : List ℕ → Setting
  session_cache_server verify_none : Setting
  cache_size timeout : ℕ → Setting

-- The settings of a context, the last one first; `none` is SSL_CTX_free.
abbrev pub Context : Type 0
Context = Option (List Setting)

-- `cache_id`, with its closing zero.
abbrev pub cache_id : List ℕ
cache_id = codes "wind_breaker_server" ++ (0 ∷ [])

-- A setting with a context that was not freed.
abbrev pub set : Setting → Context → Option Context
set s none = none
set s (some c) = some (some (s ∷ c))

-- `if (!call) { SSL_CTX_free(ctx); assert(call again); }`
abbrev pub try : Bool → Setting → Context → Option Context
try true s c = set s c
try false s c = set s none

unfoldable pub init_ssl_ctx : OpenSsl → Config → Option Context
init_ssl_ctx o config = do
  assert o.makes
  a ← try o.accepts_version (min_proto_version 771) (some [])
  b ← set ignore_unexpected_eof a
  c ← set no_renegotiation b
  d ← set cipher_server_preference c
  e ← try (o.reads_chain config.cert_file) (certificate_chain config.cert_file) d
  f ← try (o.reads_key config.private_key_file) (private_key config.private_key_file) e
  g ← set (session_id_context cache_id) f
  h ← set session_cache_server g
  i ← set (cache_size config.session_max_size) h
  j ← set (timeout 1800) i
  set verify_none j

unfoldable pub destroy_ssl_ctx : Context → Option Context
destroy_ssl_ctx none = none
destroy_ssl_ctx (some settings) = some none

-- The context that is made when every call of OpenSSL succeeds.
abbrev full_context : Config → List Setting
full_context config =
    verify_none
    ∷ timeout 1800
    ∷ cache_size config.session_max_size
    ∷ session_cache_server
    ∷ session_id_context cache_id
    ∷ private_key config.private_key_file
    ∷ certificate_chain config.cert_file
    ∷ cipher_server_preference
    ∷ no_renegotiation
    ∷ ignore_unexpected_eof
    ∷ min_proto_version 771
    ∷ []

-- `init_ssl_ctx` gives the context with all of its settings when the four calls succeed, and in every
-- other case the process does not get past it.
pub init_ssl_ctx_lem :
    (o : OpenSsl) (config : Config)
    → init_ssl_ctx o config ≡ (
        if o.makes
          && o.accepts_version
          && o.reads_chain config.cert_file
          && o.reads_key config.private_key_file
        then some (some (full_context config))
        else none)
unfolding init_ssl_ctx
init_ssl_ctx_lem o config = ground arith
