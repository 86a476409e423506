-- ===== src/Client/SyncOptions.antt =====
-- src/redisclient/RedisSyncClient.h and RedisSyncClient.cpp: the timeouts, in hours, and the options of
-- the synchronous client. Only the system reads the timeouts.
use redisclient_libary.Common.{Bool, true, false, ℕ, ◌*◌}
use redisclient_libary.Client.Sync.{Run}
use redisclient_libary.Client.Connect.{SystemAnswers, connect}

pub record SyncOptions : Type 0 where
  pub connect_timeout : ℕ
  pub command_timeout : ℕ
  pub tcp_no_delay : Bool
  pub tcp_keep_alive : Bool

-- The constructor: a year.
abbrev pub default_options : SyncOptions
default_options = record {
  connect_timeout = 365 * 24;
  command_timeout = 365 * 24;
  tcp_no_delay = true;
  tcp_keep_alive = false;
}

abbrev pub set_connect_timeout : ℕ → SyncOptions → SyncOptions
set_connect_timeout timeout o = record o { connect_timeout = timeout }

abbrev pub set_command_timeout : ℕ → SyncOptions → SyncOptions
set_command_timeout timeout o = record o { command_timeout = timeout }

abbrev pub set_tcp_no_delay : Bool → SyncOptions → SyncOptions
set_tcp_no_delay enable o = record o { tcp_no_delay = enable }

abbrev pub set_tcp_keep_alive : Bool → SyncOptions → SyncOptions
set_tcp_keep_alive enable o = record o { tcp_keep_alive = enable }

-- `connect` with the client's options.
abbrev pub connect_with : SyncOptions → SystemAnswers → Run Unit
connect_with o = connect o.tcp_no_delay
