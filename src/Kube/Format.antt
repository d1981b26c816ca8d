-- ===== src/Kube/Format.antt =====
-- The formatting verbs that messages are built with: `%q` of a text, `%d` of an `int32`, and
-- `Time.Format(time.RFC3339)`. No message is ever read back by the program.
use poll_operator.Base.{ℤ, String}
use poll_operator.Api.{Time}

pub record Format : Type 0 where
  pub quote : String → String
  pub decimal : ℤ → String
  pub rfc3339 : Time → String
