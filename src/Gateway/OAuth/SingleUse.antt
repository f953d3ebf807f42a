-- ===== src/Gateway/OAuth/SingleUse.antt =====
-- An authorization code is exchanged once, whatever the answer was.
use eto_mcp.Prelude.Result.{Result}
