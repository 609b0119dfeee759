-- ===== src/Client/Session/Confined.antt =====
-- What a session on the client can change (internal/client/client.go), whatever the server asks for
-- and whatever fails.
use backuper.Prelude.Steps.{Steps}
use backuper.Client.Keeps.{Keeps}
