-- ===== src/Security/Verdict.antt =====
-- The verdict of apps/engine/src/security/assessment.rs.
use memecoin_bot.Base.{Bool, true, false}

pub data SecurityVerdict : Type 0 where
  pass warn reject unknown : SecurityVerdict

unfoldable pub is_pass : SecurityVerdict → Bool
is_pass pass = true
is_pass _ = false
