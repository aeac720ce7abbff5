-- ===== src/Os.antt =====
-- The environment of a process, as cmd/gateway/main.go, cmd/writer/main.go and
-- examples/sample-client/main.go read it.
use apexio.Base.Text.{Text}

-- `os.Getenv`, which gives the empty text for what is not set.
abbrev pub Env : Type 0
Env = Text → Text
