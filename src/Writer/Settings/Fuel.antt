-- ===== src/Writer/Settings/Fuel.antt =====
-- The loop of `time.ParseDuration`, as cmd/writer/main.go calls it, comes to its end: a turn takes at
-- least one character.
use apexio.Base.Text.{Text}
