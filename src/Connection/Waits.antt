-- ===== src/Connection/Waits.antt =====
-- How long the caller of `zookeeper_interest` is told to wait.
use ruby_zookeeper.Connection.Interest.{Interest}
