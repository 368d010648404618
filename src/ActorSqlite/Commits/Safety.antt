-- ===== src/ActorSqlite/Commits/Safety.antt =====
-- src/io/actor-sqlite.ts: what a crash finds.
use do_runtime.ActorSqlite.Commits.{World}
use do_runtime.ActorSqlite.Commits.Steps
use do_runtime.ActorSqlite.Commits.Steps.{IsOrdered, Step}
use do_runtime.ActorSqlite.Commits.Keeps
use do_runtime.ActorSqlite.Commits.Answers
use do_runtime.ActorSqlite.Commits.Moves
use do_runtime.ActorSqlite.Commits.Later
use do_runtime.ActorSqlite.Commits.Finish

pub Step-IsOrdered : (w w' : World) → Step w w' → IsOrdered w → IsOrdered w'
Step-IsOrdered _ _ (Steps.changing t w) o = Keeps.change-IsOrdered t w o
Step-IsOrdered _ _ (Steps.beginning w) o = Keeps.begin-IsOrdered w o
Step-IsOrdered _ _ (Steps.granting w) o = Answers.grant-IsOrdered w o
Step-IsOrdered _ _ (Steps.confirming w) o = Answers.confirm-IsOrdered w o
Step-IsOrdered _ _ (Steps.losing w) o = Answers.lose-IsOrdered w o
Step-IsOrdered _ _ (Steps.resuming w) o = Keeps.resume-IsOrdered w o
Step-IsOrdered _ _ (Steps.granting_later w) o = Moves.grant_later-IsOrdered w o
Step-IsOrdered _ _ (Steps.confirming_later w) o = Moves.confirm_later-IsOrdered w o
Step-IsOrdered _ _ (Steps.losing_later w) o = Moves.lose_later-IsOrdered w o
Step-IsOrdered _ _ (Steps.ending_later w h) o = Later.end_later-IsOrdered w h o
Step-IsOrdered _ _ (Steps.landing w) o = Answers.persist-IsOrdered w o
Step-IsOrdered _ _ (Steps.failing w) o = Answers.fail-IsOrdered w o
Step-IsOrdered _ _ (Steps.finishing w) o = Finish.finish-IsOrdered w o
