-- ===== src/Event.antt =====
-- The log entry that the parser of arx-core hands over: the fields that the product reads. Times
-- are nanoseconds since Go's zero time, so that 0 is the time for which IsZero holds; durations
-- are nanoseconds.

use arxsentinel.Common.{ℕ, Text}

pub record LogEntry : Type 0 where
  pub real_ip : Text
  pub remote_addr : Text
  pub time : ℕ
  pub method : Text
  pub path : Text
  pub query : Text
  pub raw_uri : Text
  pub protocol : Text
  pub status : ℕ
  pub bytes_sent : ℕ
  pub referer : Text
  pub user_agent : Text
  pub remote_user : Text
  pub chain_issue : Text
