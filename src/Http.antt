-- ===== src/Http.antt =====
-- net/http as the handlers of pkg/auth and cmd/gateway use it: a request, and the one response that
-- a handler writes. A handler changes a state `S` behind the connection.
pub mod Mux
use apexio.Base.{ℕ, Option, List, []}
use apexio.Base.Text.{Text, codes}
use apexio.Errors.{Err, Ctx}
use apexio.Schema.Time.{Time}

-- The bytes of a body, and the error that reading it meets behind them.
pub record Body : Type 0 where
  pub bytes : List ℕ
  pub failure : Option Err

-- `path` is the path of the URL, without percent-escapes, and `header` is `r.Header.Get`. `ctx i` is what the request's context gives when event `i` is
-- published, and `clock i` what `time.Now()` gives when it is made.
pub record Request : Type 0 where
  pub method : Text
  pub path : Text
  pub header : Text → Text
  pub body : Body
  pub ctx : ℕ → Ctx
  pub clock : ℕ → Time

-- What is written as the body: text, one of the JSON objects of the gateway, or the link of a
-- redirect to a path.
pub data Reply : Type 0 where
  no_reply : Reply
  text_reply : Text → Reply
  error_reply : Text → Err → Reply
  created_reply : ℕ → Text → Reply
  moved_reply : Text → Reply

pub record Response : Type 0 where
  pub status : ℕ
  pub content_type : Text
  pub reply : Reply

abbrev pub Handler : Type 0 → Type 0
Handler S = Request → S → Response × S

-- `w.WriteHeader(code)` and no body
abbrev pub write_header : ℕ → Response
write_header code = record { status = code; content_type = []; reply = no_reply }

-- The answer of a health check.
abbrev pub ok_page : Response
ok_page = record { status = 200; content_type = []; reply = text_reply (codes "ok") }

-- A page of counters.
abbrev pub metrics_reply : Text → Response
metrics_reply text = record {
  status = 200;
  content_type = codes "text/plain; version=0.0.4";
  reply = text_reply text;
}
