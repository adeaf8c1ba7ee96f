-- ===== src/Core/Logger/Bounds.antt =====
-- How much of a message reaches the log.
use hyperion_server.Common.Text.{Text}
