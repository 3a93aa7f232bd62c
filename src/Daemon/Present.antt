-- ===== src/Daemon/Present.antt =====
-- What loopAlwaysPull does with images that are on the node.
use unicore.Daemon.{Daemon}
